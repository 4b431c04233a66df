-- ===== src/Ir/AssignTokens/Tokens.antt =====
-- The tokens that assign_tokens.rs gives follow the edges.
use slug_arch.Base.{ℕ, ◌≤◌, ◌<◌, ◌≡◌, refl, sym, ap, subst, arith, inl, inr}
use slug_arch.Base.{Bool, true, false, ◌&&◌, not, Option, none, some, List, [], ◌∷◌}
use slug_arch.Base.{
  Map, lookup, contains, ◌==◌, ==_iff, if◌then◌else◌, All, Bool-cases, Option-cases,
}
use slug_arch.Ir.Ops.{OpMeta}
use slug_arch.Ir.Graph.{Edge, src, dst, predecessors}
use slug_arch.Ir.AssignTokens.{max_token, larger}
use slug_arch.Ir.AssignTokens.Walk.{pending, differ}

abbrev pub token_in_of : Map OpMeta → ℕ → Option ℕ
token_in_of meta id = elim (lookup meta id) [ none ↦ none | some m ↦ m.token_in ]

abbrev pub token_out_of : Map OpMeta → ℕ → Option ℕ
token_out_of meta id = elim (lookup meta id) [ none ↦ none | some m ↦ m.token_out ]

-- The target of the edge waits for a token no lower than its source's, and gets a higher one.
pub record Follows (meta : Map OpMeta) (e : Edge) : Type 0 where
  pub source_out : ℕ
  pub target_in : ℕ
  pub target_out : ℕ
  pub source_is : token_out_of meta (src e) ≡ some source_out
  pub waits_is : token_in_of meta (dst e) ≡ some target_in
  pub target_is : token_out_of meta (dst e) ≡ some target_out
  pub waits : source_out ≤ target_in
  pub later : target_in < target_out

-- No edge into `x` is pending.
seen :
    (target visited : Bool)
    → target ≡ true
    → ◌≡◌ {A = ℕ} (if target && not visited then 1 else 0) 0
    → visited ≡ true
seen true true h k = refl
seen true false h k = absurd (omega arith)
seen false visited h k = cc (h)

pub pending-none :
    (es : List Edge) (visited : List ℕ) (x : ℕ)
    → pending es visited x ≡ 0
    → All (λ e. dst e ≡ x → contains visited (src e) ≡ true) es
pending-none [] visited x h = tt
pending-none (e ∷ es) visited x h = (
  λ p. seen (dst e == x) (contains visited (src e)) ((==_iff (dst e) x).1 p) (omega (arith, h)),
  pending-none es visited x (omega (arith, h)),
)

-- Every token assigned so far is at most `bound`.
abbrev pub Below : Map ℕ → ℕ → Type 0
Below tok bound = (x t : ℕ) → lookup tok x ≡ some t → t ≤ bound

larger-grows : (acc : ℕ) (o : Option ℕ) → acc ≤ larger acc o
larger-grows acc none = omega arith
larger-grows acc (some t) = ground arith

larger-some : (acc t : ℕ) → t ≤ larger acc (some t)
larger-some acc t = ground arith

larger-bound : (acc t bound : ℕ) → acc ≤ bound → t ≤ bound → larger acc (some t) ≤ bound
larger-bound acc t bound h k = ground arith

pub max_token-grows : (tok : Map ℕ) (acc : ℕ) (ps : List ℕ) → acc ≤ max_token tok acc ps
max_token-grows tok acc [] = omega arith
max_token-grows tok acc (p ∷ ps) =
    omega
      (arith, larger-grows acc (lookup tok p), max_token-grows tok (larger acc (lookup tok p)) ps)

pub max_token-Below :
    (tok : Map ℕ) (acc bound : ℕ) (ps : List ℕ)
    → Below tok bound
    → acc ≤ bound
    → max_token tok acc ps ≤ bound
max_token-Below tok acc bound [] b h = h
max_token-Below tok acc bound (p ∷ ps) b h =
    max_token-Below tok (larger acc (lookup tok p)) bound ps b (elim (Option-cases (lookup tok p)) [
      | inl e ↦ rw e h
      | inr (t, e) ↦ rw e (larger-bound acc t bound h (b p t e))
    ])

-- A source of `x` with a token has one of at most `m`.
abbrev pub Covers : Map ℕ → ℕ → ℕ → Edge → Type 0
Covers tok x m e = dst e ≡ x → (t : ℕ) → lookup tok (src e) ≡ some t → t ≤ m

pub max_token-Covers :
    (tok : Map ℕ) (es : List Edge) (x acc : ℕ)
    → All (Covers tok x (max_token tok acc (predecessors es x))) es
max_token-Covers tok [] x acc = tt
max_token-Covers tok (e ∷ es) x acc = elim (Bool-cases (dst e == x)) [
  | inl p ↦
      let acc' : ℕ = larger acc (lookup tok (src e)) in
      let same : max_token tok acc (predecessors (e ∷ es) x)
          ≡ max_token tok acc' (predecessors es x) =
        rw p refl in
      (
        λ _ t h.
            let here : acc' ≡ larger acc (some t) = ap (larger acc) h in
            omega
              (arith, same, here, larger-some acc t, max_token-grows tok acc' (predecessors es x)),
        subst (λ m. All (Covers tok x m) es) (sym same) (max_token-Covers tok es x acc'),
      )
  | inr p ↦
      let same : max_token tok acc (predecessors (e ∷ es) x)
          ≡ max_token tok acc (predecessors es x) =
        rw p refl in
      (
        λ q. absurd (differ (dst e) x p q),
        subst (λ m. All (Covers tok x m) es) (sym same) (max_token-Covers tok es x acc),
      )
]
