-- ===== src/Host/QemuType2/Matrix.antt =====
-- The reference product of qemu_type2.rs, and its comparison of matrices.
use slug_arch.Base.{ℕ, ◌≡◌, refl, ap₂, arith, ==_iff, true, both, List, [], ◌∷◌}
use slug_arch.Host.Types.{GemmJob, IsJob, cell}
use slug_arch.Host.Stream.{cell-lt}
use slug_arch.Host.Product.{product, entry, byte_mul}
use slug_arch.Host.QemuType2.{sum_over, four, matmul, same_row, same_matrix}

sum_over-entry :
    (job : GemmJob) (r c : ℕ) → IsJob job → sum_over job r c four 0 ≡ entry job.a job.b r c
unfolding sum_over
sum_over-entry job r c (va, vb) =
    let bound = λ (k : ℕ).
      byte_mul (cell job.a r k) (cell job.b k c) (cell-lt job.a r k va) (cell-lt job.b k c vb) in
    omega (arith, bound 0, bound 1, bound 2, bound 3)

-- The u32 sums do not wrap on bytes: `matmul` is the product.
pub matmul-product : (job : GemmJob) → IsJob job → matmul job ≡ product job.a job.b
unfolding matmul
matmul-product job v =
    let e = λ (r c : ℕ). sum_over-entry job r c v in
    let row = λ (r : ℕ).
      ap₂ (λ x xs. ◌∷◌ x xs) (e r 0)
        (ap₂ (λ x xs. x ∷ xs) (e r 1) (ap₂ (λ x y. x ∷ y ∷ []) (e r 2) (e r 3))) in
    ap₂ (λ x xs. x ∷ xs) (row 0)
      (ap₂ (λ x xs. x ∷ xs) (row 1) (ap₂ (λ x y. x ∷ y ∷ []) (row 2) (row 3)))

same_row_eq : (xs ys : List ℕ) → same_row xs ys ≡ true → xs ≡ ys
same_row_eq [] [] h = refl
same_row_eq [] (y ∷ ys) h = cc (h)
same_row_eq (x ∷ xs) [] h = cc (h)
same_row_eq (x ∷ xs) (y ∷ ys) h =
    let (a, b) = both _ _ h in ap₂ (λ u us. u ∷ us) ((==_iff x y).0 a) (same_row_eq xs ys b)

same_row_refl : (xs : List ℕ) → same_row xs xs ≡ true
same_row_refl [] = refl
same_row_refl (x ∷ xs) = rw ((==_iff x x).1 refl) (same_row_refl xs)

pub same_matrix_eq : (xs ys : List (List ℕ)) → same_matrix xs ys ≡ true → xs ≡ ys
same_matrix_eq [] [] h = refl
same_matrix_eq [] (y ∷ ys) h = cc (h)
same_matrix_eq (x ∷ xs) [] h = cc (h)
same_matrix_eq (x ∷ xs) (y ∷ ys) h =
    let (a, b) = both _ _ h in ap₂ (λ u us. u ∷ us) (same_row_eq x y a) (same_matrix_eq xs ys b)

pub same_matrix_refl : (xs : List (List ℕ)) → same_matrix xs xs ≡ true
same_matrix_refl [] = refl
same_matrix_refl (x ∷ xs) = rw (same_row_refl x) (same_matrix_refl xs)
