-- ===== src/Host/QemuType2/Counts.antt =====
-- The loop of qemu_type2.rs over the responses: what it counts, and which responses it counts nothing for.
use slug_arch.Base.{
  ℕ, ◌+◌, ◌≤◌, ◌<◌, ◌≡◌, ◌⊎◌, inl, inr, refl, ap, ◌∙◌, arith, ◌==◌, ==_iff, ltb, ltb→lt, Bool-cases,
  Option, none, some, ◌-◌, suc, length-append, List, [], ◌∷◌, ◌++◌, length, append-nil,
  append_assoc,
}
use slug_arch.Wire.Msg.{CxlMsg, S2mDrsOp, S2mNdrOp, tag}
use slug_arch.Host.Exchange.{reads_of}
use slug_arch.Host.QemuType2.{
  Tally, first_request, later_requests, tally_tag, failed, tally_kind, tally,
}

-- The kind of response that an index calls for: completions for the 33 writes, then data.
abbrev pub IsKind : ℕ → CxlMsg → Type 0
IsKind idx (CxlMsg.s2m_ndr t S2mNdrOp.cmp) = idx < 33
IsKind idx (CxlMsg.s2m_drs t S2mDrsOp.mem_data d) = 33 ≤ idx
IsKind idx _ = ⊥

-- The responses answer the requests one by one, from an index on.
abbrev pub Replies : ℕ → List CxlMsg → List CxlMsg → Type 0
Replies idx [] [] = Unit {0}
Replies idx (request ∷ requests) (response ∷ responses) =
    (tag response ≡ tag request) × IsKind idx response × Replies (idx + 1) requests responses
Replies idx _ _ = ⊥

abbrev pub all_reads : List CxlMsg → List CxlMsg
all_reads [] = []
all_reads (m ∷ ms) = reads_of m ++ all_reads ms

abbrev keep : Tally → CxlMsg → Tally
keep t m = record t { read_responses = t.read_responses ++ reads_of m }

module _ (idx : ℕ) where
  tally_kind-kept : (m : CxlMsg) (t : Tally) → IsKind idx m → tally_kind idx m t ≡ keep t m
  unfolding tally_kind
  tally_kind-kept (CxlMsg.s2m_ndr tg S2mNdrOp.cmp) t h = rw append-nil (ground (arith, h))
  tally_kind-kept (CxlMsg.s2m_drs tg S2mDrsOp.mem_data d) t h = ground (arith, h)
  tally_kind-kept _ t h = absurd h

  -- A response is of the kind that is called for, or a failure is counted.
  tally_kind-cases : (m : CxlMsg) (t : Tally) → IsKind idx m ⊎ (tally_kind idx m t ≡ failed t)
  unfolding tally_kind
  tally_kind-cases (CxlMsg.s2m_ndr tg S2mNdrOp.cmp) t = elim (Bool-cases (ltb idx 33)) [
    | inl e ↦ inl (ltb→lt idx 33 e)
    | inr e ↦ inr (rw e refl)
  ]
  tally_kind-cases (CxlMsg.s2m_drs tg S2mDrsOp.mem_data d) t = elim (Bool-cases (ltb idx 33)) [
    | inl e ↦ inr (rw e refl)
    | inr e ↦ inl (ground (arith, e))
  ]
  tally_kind-cases _ t = inr refl

  tally_kind-mismatches : (m : CxlMsg) (t : Tally) → (tally_kind idx m t).mismatches ≡ t.mismatches
  tally_kind-mismatches m t = elim (tally_kind-cases m t) [
    | inl k ↦ ap (λ (s : Tally). s.mismatches) (tally_kind-kept m t k)
    | inr e ↦ ap (λ (s : Tally). s.mismatches) e
  ]

  tally_kind-failures : (m : CxlMsg) (t : Tally) → t.failures ≤ (tally_kind idx m t).failures
  tally_kind-failures m t = elim (tally_kind-cases m t) [
    | inl k ↦ omega (arith, ap (λ (s : Tally). s.failures) (tally_kind-kept m t k))
    | inr e ↦ omega (arith, ap (λ (s : Tally). s.failures) e)
  ]

-- The tags of a request and its response agree, or a mismatch is counted.
tally_tag-cases :
    (q m : CxlMsg) (t : Tally)
    → ((tag m ≡ tag q) × (tally_tag (some q) m t ≡ t))
      ⊎ (tally_tag (some q) m t ≡ record t { mismatches = t.mismatches + 1 })
tally_tag-cases q m t = elim (Bool-cases (tag m == tag q)) [
  | inl e ↦ inl ((==_iff (tag m) (tag q)).0 e, rw e refl)
  | inr e ↦ inr (rw e refl)
]

tally_tag-grows :
    (q : Option CxlMsg) (m : CxlMsg) (t : Tally)
    → (t.mismatches ≤ (tally_tag q m t).mismatches) × ((tally_tag q m t).failures ≡ t.failures)
tally_tag-grows none m t = (omega arith, refl)
tally_tag-grows (some q) m t = elim (tally_tag-cases q m t) [
  | inl (_, e) ↦ rw e (omega arith, refl)
  | inr e ↦ rw e (omega arith, refl)
]

tally-grows :
    (idx : ℕ) (qs ms : List CxlMsg) (t : Tally)
    → (t.mismatches ≤ (tally idx qs ms t).mismatches) × (t.failures ≤ (tally idx qs ms t).failures)
unfolding tally
tally-grows idx qs [] t = (omega arith, omega arith)
tally-grows idx qs (m ∷ ms) t =
    let t1 : Tally = tally_tag (first_request qs) m t in
    let (a, b) = tally_tag-grows (first_request qs) m t in
    let (c, d) = tally-grows (idx + 1) (later_requests qs) ms (tally_kind idx m t1) in
    (
      omega (arith, a, c, tally_kind-mismatches idx m t1),
      omega (arith, b, d, tally_kind-failures idx m t1),
    )

-- With as many responses as requests, nothing is counted only of responses that answer them.
pub tally-Replies :
    (idx : ℕ) (qs ms : List CxlMsg) (t : Tally)
    → length ms ≡ length qs
    → (tally idx qs ms t).mismatches ≡ 0
    → (tally idx qs ms t).failures ≡ 0
    → Replies idx qs ms
unfolding tally
tally-Replies idx [] [] t h a b = tt
tally-Replies idx [] (m ∷ ms) t h a b = absurd (omega (arith, h))
tally-Replies idx (q ∷ qs) [] t h a b = absurd (omega (arith, h))
tally-Replies idx (q ∷ qs) (m ∷ ms) t h a b =
    let t1 : Tally = tally_tag (some q) m t in
    let (c, d) = tally-grows (idx + 1) qs ms (tally_kind idx m t1) in
    let later = tally-Replies (idx + 1) qs ms (tally_kind idx m t1) (omega (arith, h)) a b in
    elim (tally_kind-cases idx m t1) [
      | inr e ↦ absurd (omega (arith, b, d, ap (λ (s : Tally). s.failures) e))
      | inl k ↦ elim (tally_tag-cases q m t) [
        | inl (same, _) ↦ (same, k, later)
        | inr e ↦ absurd (
            omega (arith, a, c, tally_kind-mismatches idx m t1, ap (λ (s : Tally). s.mismatches) e))
      ]
    ]

-- Of responses that answer the requests nothing is counted, and the data responses are collected.
pub Replies-tally :
    (idx : ℕ) (qs ms : List CxlMsg) (t : Tally)
    → Replies idx qs ms
    → tally idx qs ms t ≡ record t { read_responses = t.read_responses ++ all_reads ms }
unfolding tally
Replies-tally idx [] [] t r = rw append-nil refl
Replies-tally idx [] (m ∷ ms) t r = absurd r
Replies-tally idx (q ∷ qs) [] t r = absurd r
Replies-tally idx (q ∷ qs) (m ∷ ms) t (same, k, r) =
    let step : tally_tag (some q) m t ≡ t = rw ((==_iff (tag m) (tag q)).1 same) refl in
    let kept : tally_kind idx m (tally_tag (some q) m t) ≡ keep t m =
      ap (tally_kind idx m) step ∙ tally_kind-kept idx m t k in
    ap (tally (idx + 1) qs ms) kept
    ∙ Replies-tally (idx + 1) qs ms (keep t m) r
    ∙ ap (λ rs. record t { read_responses = rs })
        (append_assoc t.read_responses (reads_of m) (all_reads ms))

-- There is a response for each request.
pub Replies-length : (idx : ℕ) (qs ms : List CxlMsg) → Replies idx qs ms → length ms ≡ length qs
Replies-length idx [] [] r = refl
Replies-length idx [] (m ∷ ms) r = absurd r
Replies-length idx (q ∷ qs) [] r = absurd r
Replies-length idx (q ∷ qs) (m ∷ ms) (same, k, r) = ap suc (Replies-length (idx + 1) qs ms r)

length-reads_of :
    (idx : ℕ) (m : CxlMsg)
    → IsKind idx m
    → ((idx < 33) × (length (reads_of m) ≡ 0)) ⊎ ((33 ≤ idx) × (length (reads_of m) ≡ 1))
length-reads_of idx (CxlMsg.s2m_ndr tg S2mNdrOp.cmp) k = inl (k, refl)
length-reads_of idx (CxlMsg.s2m_drs tg S2mDrsOp.mem_data d) k = inr (k, refl)
length-reads_of idx _ k = absurd k

-- The data responses are those from index 33 on.
pub Replies-reads :
    (idx : ℕ) (qs ms : List CxlMsg)
    → Replies idx qs ms
    → 33 ≤ idx + length ms
    → length (all_reads ms) + (33 - idx) ≡ length ms
Replies-reads idx [] [] r h = omega (arith, h)
Replies-reads idx [] (m ∷ ms) r h = absurd r
Replies-reads idx (q ∷ qs) [] r h = absurd r
Replies-reads idx (q ∷ qs) (m ∷ ms) (same, k, r) h =
    let later = Replies-reads (idx + 1) qs ms r (omega (arith, h)) in
    let split = length-append (reads_of m) (all_reads ms) in
    elim (length-reads_of idx m k) [
      | inl (lo, e) ↦ omega (arith, lo, e, later, split)
      | inr (hi, e) ↦ omega (arith, hi, e, later, split)
    ]
