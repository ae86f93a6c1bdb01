-- ===== src/Front/Eliminate/Tests.antt =====
-- Elimination over the field of two elements, where it is exact.
use opt_solver.Base.{
  ℕ, ◌≤◌, ◌<◌, ◌≡◌, ◌≢◌, ◌⊎◌, refl, Bool, true, false, not, ◌&&◌, ◌||◌, ◌==◌, arith,
}
use opt_solver.Front.Matrix.{Entries}
use opt_solver.Front.Scalar.{Scalar}
use opt_solver.Front.Eliminate.{apply_pivot_1x1}
use opt_solver.Front.Eliminate.Laws.{IsExact, apply_pivot_1x1_lem, IsSound}

abbrev xor : Bool → Bool → Bool
xor true b = not b
xor false b = b

abbrev same : Bool → Bool
same b = b

abbrev bits : Scalar Bool
bits = record {
  zero_value = false;
  abs = same;
  is_finite = λ a. true;
  lt = λ a b. not a && b;
  le = λ a b. not a || b;
  add = xor;
  sub = xor;
  mul = λ a b. a && b;
  div = λ a b. a;
}

xor_twice : (a b : Bool) → xor (xor a b) b ≡ a
xor_twice true true = refl
xor_twice true false = refl
xor_twice false true = refl
xor_twice false false = refl

bits-IsExact : IsExact bits
bits-IsExact = record { sub_add = xor_twice }

-- All ones below a first row that pairs with the second.
abbrev front : Entries Bool
front i j = not (i == 1 && j == 1)

apply_pivot_1x1_lem_example :
    (apply_pivot_1x1 bits same 4 0 3 front 0 0 ≡ true)
    × ((i : ℕ) → 0 < i → i < 4 → apply_pivot_1x1 bits same 4 0 3 front i 0 ≡ front i 0)
    × ((i j : ℕ)
        → (j < 0) ⊎ (3 ≤ j) × (j ≢ 0)
        → apply_pivot_1x1 bits same 4 0 3 front i j ≡ front i j)
    × ((i j : ℕ)
        → 0 < j
        → j < 3
        → j ≤ i
        → i < 4
        → xor (apply_pivot_1x1 bits same 4 0 3 front i j) (
            apply_pivot_1x1 bits same 4 0 3 front i 0
            && (apply_pivot_1x1 bits same 4 0 3 front 0 0
                && apply_pivot_1x1 bits same 4 0 3 front j 0))
          ≡ front i j)
apply_pivot_1x1_lem_example = apply_pivot_1x1_lem bits same 4 3 0 front bits-IsExact (omega arith)

front-IsSound : IsSound bits same 4 3 0 false front
unfolding opt_solver.Front.Choose.scaled_det_2x2
front-IsSound = refl
