-- ===== src/Front/Choose/Tests.antt =====
-- Pivot choices among whole numbers and among signs.
use opt_solver.Base.{
  ℕ, ◌+◌, ◌-◌, ◌*◌, ◌/◌, ◌≡◌, refl, true, ltb, leb, if◌then◌else◌, ◌==◌, ◌&&◌, arith,
}
use opt_solver.Base.Ints.{pos}
use opt_solver.Front.Matrix.{Entries}
use opt_solver.Front.Scalar.{Scalar, IsOrdered}
use opt_solver.Front.Choose.{one_by_one, choose_pivot}
use opt_solver.Front.Choose.Laws.{Chosen, choose_pivot-Chosen}

abbrev whole : Scalar ℕ
whole = record {
  zero_value = 0;
  abs = λ a. a;
  is_finite = λ a. true;
  lt = ltb;
  le = leb;
  add = λ a b. a + b;
  sub = λ a b. a - b;
  mul = λ a b. a * b;
  div = λ a b. a / b;
}

-- A small diagonal entry at 0 beside a large one below it.
abbrev front : Entries ℕ
front i j = if i == 0 && j == 0 then 1 else if i == j then 50 else 4

choose_large : choose_pivot whole front 4 3 (pos 0) 1 1 ≡ one_by_one 1
unfolding choose_pivot
choose_large = refl

-- The signs, a scalar with negative values.
data Sign : Type 0 where
  minus : Sign
  nought : Sign
  plus : Sign

abbrev rank : Sign → ℕ
rank minus = 0
rank nought = 1
rank plus = 2

abbrev opposite : Sign → Sign
opposite minus = plus
opposite nought = nought
opposite plus = minus

abbrev size_of : Sign → Sign
size_of minus = plus
size_of nought = nought
size_of plus = plus

abbrev times : Sign → Sign → Sign
times minus b = opposite b
times nought b = nought
times plus b = b

abbrev sum_of : Sign → Sign → Sign
sum_of minus b = minus
sum_of nought b = b
sum_of plus b = plus

abbrev signed : Scalar Sign
signed = record {
  zero_value = nought;
  abs = size_of;
  is_finite = λ a. true;
  lt = λ a b. ltb (rank a) (rank b);
  le = λ a b. leb (rank a) (rank b);
  add = sum_of;
  sub = λ a b. sum_of a (opposite b);
  mul = times;
  div = times;
}

signed-mul_mono :
    (u a b : Sign)
    → signed.le nought u ≡ true
    → signed.le a b ≡ true
    → signed.le (times u a) (times u b) ≡ true
signed-mul_mono minus a b h k = absurd (ground arith)
signed-mul_mono nought a b h k = refl
signed-mul_mono plus a b h k = k

signed-IsOrdered : IsOrdered signed
signed-IsOrdered = record {
  le_refl = λ a. ground arith;
  le_trans = λ a b c h k. ground (arith, h, k);
  le_of_lt = λ a b h. ground (arith, h);
  le_of_not_lt = λ a b h. ground (arith, h);
  abs_nonneg = λ a. ground arith;
  mul_zero = λ a. ground arith;
  mul_mono = signed-mul_mono;
}

-- A vanishing diagonal entry at 0, negative entries beside it and on the rest of the diagonal.
abbrev signs : Entries Sign
signs i j =
    if i == 0 && j == 0 then nought else if i == j then minus else if i == 1 then nought else minus

choose_pivot-Chosen_example :
    Chosen signed signs 4 3 0 plus (choose_pivot signed signs 4 3 (pos 0) plus plus)
choose_pivot-Chosen_example =
    choose_pivot-Chosen signed signs 4 3 0 plus plus signed-IsOrdered refl (omega arith)

choose_signed : choose_pivot signed signs 4 3 (pos 0) plus plus ≡ one_by_one 2
unfolding choose_pivot
choose_signed = refl
