-- ===== src/Host/Product.antt =====
-- The accumulators after the loads and the compute step, as a matrix product.
use slug_arch.Base.{ℕ, zero, suc, ◌+◌, ◌*◌, ◌/◌, ◌%◌, ◌^◌, ◌≤◌, ◌<◌, ◌≡◌, ◌≢◌, refl, ◌∙◌, arith}
use slug_arch.Base.{List, [], ◌∷◌, All}
use slug_arch.Host.Types.{IsMatrix, cell}
use slug_arch.Host.Dispatch.{grid}
use slug_arch.Host.Endpoint.{Array, multiply}
use slug_arch.Host.Stream.{store, cell-lt}
use slug_arch.Host.Schedule.{InCorner, load_all}

-- The entry of the product of two 4 by 4 matrices.
abbrev pub entry : List (List ℕ) → List (List ℕ) → ℕ → ℕ → ℕ
entry a b row col =
    cell a row 0 * cell b 0 col
    + cell a row 1 * cell b 1 col
    + cell a row 2 * cell b 2 col
    + cell a row 3 * cell b 3 col

abbrev pub product_row : List (List ℕ) → List (List ℕ) → ℕ → List ℕ
product_row a b row = entry a b row 0 ∷ entry a b row 1 ∷ entry a b row 2 ∷ entry a b row 3 ∷ []

-- The product of two 4 by 4 matrices.
abbrev pub product : List (List ℕ) → List (List ℕ) → List (List ℕ)
product a b = product_row a b 0 ∷ product_row a b 1 ∷ product_row a b 2 ∷ product_row a b 3 ∷ []

-- The first four rows of A are zero beyond the 4 by 4 corner.
abbrev pub IsClean : Array → Type 0
IsClean arr = (row k : ℕ) → row < 4 → 4 ≤ k → k < 16 → arr.a (row * 16 + k) ≡ 0

pub byte_mul : (x y : ℕ) → x < 256 → y < 256 → x * y ≤ 65025
byte_mul x y hx hy = grind arith

pub entry-lt :
    (a b : List (List ℕ)) (row col : ℕ) → IsMatrix a → IsMatrix b → entry a b row col < 2 ^ 24
entry-lt a b row col va vb =
    let bound =
      λ (k : ℕ). byte_mul (cell a row k) (cell b k col) (cell-lt a row k va) (cell-lt b k col vb) in
    omega (arith, bound 0, bound 1, bound 2, bound 3)

pub loaded_a :
    (arr : Array) (m : List (List ℕ)) (row col : ℕ)
    → row < 4
    → col < 4
    → (load_all 0 arr m grid).a (row * 16 + col) ≡ cell m row col
unfolding load_all
loaded_a arr m zero zero hr hc = refl
loaded_a arr m zero (suc zero) hr hc = refl
loaded_a arr m zero (suc (suc zero)) hr hc = refl
loaded_a arr m zero (suc (suc (suc zero))) hr hc = refl
loaded_a arr m (suc zero) zero hr hc = refl
loaded_a arr m (suc zero) (suc zero) hr hc = refl
loaded_a arr m (suc zero) (suc (suc zero)) hr hc = refl
loaded_a arr m (suc zero) (suc (suc (suc zero))) hr hc = refl
loaded_a arr m (suc (suc zero)) zero hr hc = refl
loaded_a arr m (suc (suc zero)) (suc zero) hr hc = refl
loaded_a arr m (suc (suc zero)) (suc (suc zero)) hr hc = refl
loaded_a arr m (suc (suc zero)) (suc (suc (suc zero))) hr hc = refl
loaded_a arr m (suc (suc (suc zero))) zero hr hc = refl
loaded_a arr m (suc (suc (suc zero))) (suc zero) hr hc = refl
loaded_a arr m (suc (suc (suc zero))) (suc (suc zero)) hr hc = refl
loaded_a arr m (suc (suc (suc zero))) (suc (suc (suc zero))) hr hc = refl
loaded_a arr m (suc (suc (suc (suc row)))) col hr hc = absurd (omega arith)
loaded_a arr m row (suc (suc (suc (suc col)))) hr hc = absurd (omega arith)

pub loaded_b :
    (arr : Array) (m : List (List ℕ)) (row col : ℕ)
    → row < 4
    → col < 4
    → (load_all 1 arr m grid).b (row * 16 + col) ≡ cell m row col
unfolding load_all
loaded_b arr m zero zero hr hc = refl
loaded_b arr m zero (suc zero) hr hc = refl
loaded_b arr m zero (suc (suc zero)) hr hc = refl
loaded_b arr m zero (suc (suc (suc zero))) hr hc = refl
loaded_b arr m (suc zero) zero hr hc = refl
loaded_b arr m (suc zero) (suc zero) hr hc = refl
loaded_b arr m (suc zero) (suc (suc zero)) hr hc = refl
loaded_b arr m (suc zero) (suc (suc (suc zero))) hr hc = refl
loaded_b arr m (suc (suc zero)) zero hr hc = refl
loaded_b arr m (suc (suc zero)) (suc zero) hr hc = refl
loaded_b arr m (suc (suc zero)) (suc (suc zero)) hr hc = refl
loaded_b arr m (suc (suc zero)) (suc (suc (suc zero))) hr hc = refl
loaded_b arr m (suc (suc (suc zero))) zero hr hc = refl
loaded_b arr m (suc (suc (suc zero))) (suc zero) hr hc = refl
loaded_b arr m (suc (suc (suc zero))) (suc (suc zero)) hr hc = refl
loaded_b arr m (suc (suc (suc zero))) (suc (suc (suc zero))) hr hc = refl
loaded_b arr m (suc (suc (suc (suc row)))) col hr hc = absurd (omega arith)
loaded_b arr m row (suc (suc (suc (suc col)))) hr hc = absurd (omega arith)

pub b-load_all :
    (arr : Array) (m : List (List ℕ)) (ps : List (ℕ × ℕ)) → (load_all 0 arr m ps).b ≡ arr.b
unfolding load_all
b-load_all arr m [] = refl
b-load_all arr m ((row, col) ∷ ps) = b-load_all (store 0 arr (row * 16 + col) (cell m row col)) m ps

pub a-load_all :
    (arr : Array) (m : List (List ℕ)) (ps : List (ℕ × ℕ)) → (load_all 1 arr m ps).a ≡ arr.a
unfolding load_all
a-load_all arr m [] = refl
a-load_all arr m ((row, col) ∷ ps) = a-load_all (store 1 arr (row * 16 + col) (cell m row col)) m ps

-- A load leaves the other addresses alone.
a-load_all_off :
    (arr : Array) (m : List (List ℕ)) (ps : List (ℕ × ℕ)) (i : ℕ)
    → All InCorner ps
    → ((row col : ℕ) → row < 4 → col < 4 → i ≢ row * 16 + col)
    → (load_all 0 arr m ps).a i ≡ arr.a i
unfolding load_all
a-load_all_off arr m [] i c off = refl
a-load_all_off arr m ((row, col) ∷ ps) i (p, c) off =
    a-load_all_off (store 0 arr (row * 16 + col) (cell m row col)) m ps i c off
    ∙ ground (arith, off row col p.0 p.1)

pub load_all-IsClean :
    (arr : Array) (m : List (List ℕ)) → IsClean arr → IsClean (load_all 0 arr m grid)
load_all-IsClean arr m clean row k hr lo hi =
    a-load_all_off arr m grid (row * 16 + k) (omega arith) (λ r c p q. omega arith)
    ∙ clean row k hr lo hi

pub multiply-entry :
    (a b : ℕ → ℕ) (m n : List (List ℕ)) (row col : ℕ)
    → IsMatrix m
    → IsMatrix n
    → row < 4
    → col < 4
    → ((k : ℕ) → k < 4 → a (row * 16 + k) ≡ cell m row k)
    → ((k : ℕ) → k < 4 → b (16 * k + col) ≡ cell n k col)
    → ((k : ℕ) → 4 ≤ k → k < 16 → a (row * 16 + k) ≡ 0)
    → multiply a b (row * 16 + col) ≡ entry m n row col
unfolding multiply
multiply-entry a b m n row col vm vn hr hc fa fb z =
    let base : (row * 16 + col) / 16 * 16 ≡ row * 16 = omega arith in
    let column : (row * 16 + col) % 16 ≡ col = omega arith in
    rw (base, column)
      (rw
        (
          z 4 (omega arith) (omega arith),
          z 5 (omega arith) (omega arith),
          z 6 (omega arith) (omega arith),
          z 7 (omega arith) (omega arith),
          z 8 (omega arith) (omega arith),
          z 9 (omega arith) (omega arith),
          z 10 (omega arith) (omega arith),
          z 11 (omega arith) (omega arith),
          z 12 (omega arith) (omega arith),
          z 13 (omega arith) (omega arith),
          z 14 (omega arith) (omega arith),
          z 15 (omega arith) (omega arith),
        )
        (rw
          (
            fa 0 (omega arith),
            fa 1 (omega arith),
            fa 2 (omega arith),
            fa 3 (omega arith),
            fb 0 (omega arith),
            fb 1 (omega arith),
            fb 2 (omega arith),
            fb 3 (omega arith),
          )
          (omega (arith, entry-lt m n row col vm vn))))
