-- ===== src/Host/SimFeasible/Ledger.antt =====
-- What the ledger of sim_feasible.rs may claim.
use Prim.Native.String.{String}
use text.Mathlib.TextEquality.{eq_iff}
use slug_arch.Base.{
  ℕ, ◌+◌, ◌≤◌, ◌<◌, ◌≡◌, ◌≢◌, ◌↔◌, ◌⊎◌, inl, inr, refl, ap, arith, Bool, true, false, ◌&&◌, Option,
  none, some, List, [], ◌∷◌, if◌then◌else◌, ltb, length, All,
}
use slug_arch.Base.{◌==◌ as eqb, ==_iff}
use slug_arch.Host.SimFeasible.Claims.{
  ClaimStatus, measured, partially_measured, blocked, RunFiles, Bar2EvidenceSummary, is_pass,
  totals, summarize_bar2_repeatability, DaxProbe, ClaimLedgerEntry, claim_ledger, source_or_none,
  runtime_status,
}

abbrev pub Passed : RunFiles → Type 0
Passed r = r.status ≡ some "pass"

is_pass-Passed : (o : Option String) → is_pass o ≡ true → o ≡ some "pass"
is_pass-Passed none h = cc (h)
is_pass-Passed (some s) h = ap some ((eq_iff s "pass").0 h)

Passed-is_pass : (o : Option String) → o ≡ some "pass" → is_pass o ≡ true
Passed-is_pass none h = cc (h)
Passed-is_pass (some s) h = let same : s ≡ "pass" = cc (h) in (eq_iff s "pass").1 same

at_most : (b : Bool) (n r : ℕ) → n ≤ r → (if b then n + 1 else n) ≤ r + 1
at_most true n r h = omega (arith, h)
at_most false n r h = omega (arith, h)

totals-counts :
    (rs : List RunFiles)
    → ((totals rs).runs ≡ length rs) × ((totals rs).pass_runs ≤ (totals rs).runs)
unfolding totals
totals-counts [] = (refl, omega arith)
totals-counts (r ∷ rs) =
    let (n, l) = totals-counts rs in
    (omega (arith, n), at_most (is_pass r.status) (totals rs).pass_runs (totals rs).runs l)

full_count : (b : Bool) (n r : ℕ) → n ≤ r → r + 1 ≡ (if b then n + 1 else n) → (b ≡ true) × (r ≡ n)
full_count true n r l h = (refl, omega (arith, h))
full_count false n r l h = absurd (omega (arith, l, h))

totals-Passed : (rs : List RunFiles) → (totals rs).runs ≡ (totals rs).pass_runs → All Passed rs
unfolding totals
totals-Passed [] h = tt
totals-Passed (r ∷ rs) h =
    let (p, rest) =
      full_count (is_pass r.status) (totals rs).pass_runs (totals rs).runs (totals-counts rs).1 h in
    (is_pass-Passed r.status p, totals-Passed rs rest)

Passed-totals : (rs : List RunFiles) → All Passed rs → (totals rs).runs ≡ (totals rs).pass_runs
unfolding totals
Passed-totals [] h = refl
Passed-totals (r ∷ rs) (p, h) =
    rw (Passed-is_pass r.status p) (ap (λ n. n + 1) (Passed-totals rs h))

chosen : (b : Bool) → (if b then measured else blocked) ≡ measured → b ≡ true
chosen true h = refl
chosen false h = cc (h)

both : (a b : Bool) → (a && b) ≡ true → (a ≡ true) × (b ≡ true)
both true b h = (refl, h)
both false b h = cc (h)

-- The BAR2 evidence of a directory is measured exactly when it has runs and every one has passed.
pub summarize_bar2_repeatability_iff :
    (dir : String) (runs : List RunFiles)
    → ((summarize_bar2_repeatability (some (dir, runs))).status ≡ measured)
      ↔ ((0 < length runs) × All Passed runs)
unfolding summarize_bar2_repeatability
summarize_bar2_repeatability_iff dir runs =
    let t = totals runs in
    (
      λ h.
          let (some_runs, equal) =
            both (ltb 0 t.runs) (eqb t.runs t.pass_runs)
              (chosen (ltb 0 t.runs && eqb t.runs t.pass_runs) h) in
          let positive : 0 < t.runs = ground (arith, some_runs) in
          (
            omega (arith, positive, (totals-counts runs).0),
            totals-Passed runs ((==_iff _ _).0 equal),
          ),
      λ (some_runs, passed).
          let positive : ltb 0 t.runs ≡ true = ground (arith, some_runs, (totals-counts runs).0) in
          rw (positive, (==_iff t.runs t.pass_runs).1 (Passed-totals runs passed)) refl,
    )

-- A claim that is not measured, or one on the BAR2 path whose evidence is measured.
abbrev pub IsSafe : Bar2EvidenceSummary → ClaimLedgerEntry → Type 0
IsSafe bar2 c =
    (c.status ≢ measured)
    ⊎ ((c.claim_text ≡ "QEMU Type-2 BAR2 command/replay boundary")
        × (bar2.status ≡ measured)
        × (c.evidence_artifact ≡ source_or_none bar2.source_dir))

-- A claim that is blocked or partly measured names what is missing, but for the BAR2 one.
not_measured : (s : ClaimStatus) → (s ≡ measured) ⊎ (s ≢ measured)
not_measured measured = inl refl
not_measured partially_measured = inr (λ p. cc (p))
not_measured blocked = inr (λ p. cc (p))

runtime_not_measured : (s : ClaimStatus) → runtime_status s ≢ measured
runtime_not_measured measured p = cc (p)
runtime_not_measured partially_measured p = cc (p)
runtime_not_measured blocked p = cc (p)

first-IsSafe :
    (bar2 : Bar2EvidenceSummary) (limit : String) (checks : List String)
    → IsSafe bar2 (record {
      claim_text = "QEMU Type-2 BAR2 command/replay boundary";
      status = bar2.status;
      evidence_artifact = source_or_none bar2.source_dir;
      measured_substrate = "SlugArch/CXLMemSim simulator-feasible pass";
      paper_safe_wording =
          "CXLMemSim QEMU Type-2 BAR2 carried the SlugArch command stream when the supplied artifact has all runs passing.";
      limitation = limit;
      checked = checks;
      missing_substrate = none;
    })
first-IsSafe bar2 limit checks = elim (not_measured bar2.status) [
  | inl e ↦ inr (refl, e, refl)
  | inr n ↦ inl n
]

-- The ledger has twelve claims, and says of none but the BAR2 path that it is measured, and of that one
-- only on measured evidence, which it names.
pub claim_ledger-IsSafe :
    (bar2 : Bar2EvidenceSummary) (dax : DaxProbe)
    → (length (claim_ledger bar2 dax) ≡ 12) × All (IsSafe bar2) (claim_ledger bar2 dax)
unfolding claim_ledger
claim_ledger-IsSafe bar2 dax =
    let b : ◌≢◌ {A = ClaimStatus} blocked measured = λ p. cc (p) in
    let p : ◌≢◌ {A = ClaimStatus} partially_measured measured = λ p. cc (p) in
    (
      refl,
      (
        first-IsSafe bar2 bar2.limitation (source_or_none bar2.source_dir ∷ []),
        (
          inl b,
          (
            inl b,
            (
              inl b,
              (
                inl b,
                (
                  inl b,
                  (
                    inl b,
                    (
                      inl (runtime_not_measured bar2.status),
                      (inl p, (inl p, (inl p, (inl b, tt)))),
                    ),
                  ),
                ),
              ),
            ),
          ),
        ),
      ),
    )
