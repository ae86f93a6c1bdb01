-- ===== src/Matrix/Csc.antt =====
-- solver/src/csc_matrix.cpp, solver/include/smf/csc_matrix.hpp and error.hpp: the lower-triangular
-- compressed column format and its shape check. `V` stands for `double`. A read out of range is
-- undefined in the source: here it is a fault, `none`.
pub mod Shape
pub mod Loops
pub mod Verdict
mod Tests
use opt_solver.Base.{
  Holds, ◌≡◌, refl, ℕ, zero, suc, ◌+◌, ◌-◌, Bool, true, false, not, ◌||◌, List, map, ltb, ◌==◌,
  if◌then◌else◌, length, get_elem?, get_or, Option, some, none,
}
use opt_solver.Base.Ints.{ℤ, pos, negsuc, pos_part, neg_part, ltz, eqz, succ_z, difference}

pub data ErrorCode : Type 0 where
  success not_initialised allocation_error illegal_value singular_matrix : ErrorCode
  not_positive_definite max_iterations ordering_failed feature_not_available : ErrorCode
  inertia_exceeded work_limit_exceeded internal_error : ErrorCode

pub record CscLower (V : Type 0) : Type 0 where
  pub n : ℤ
  pub col_ptr : List ℤ
  pub row_idx : List ℤ
  pub values : List V

-- What the same record holds once its shape has been checked: no number is negative.
pub record Lower (V : Type 0) : Type 0 where
  pub n : ℕ
  pub col_ptr : List ℕ
  pub row_idx : List ℕ
  pub values : List V

abbrev pub to_csc : {V : Type 0} → Lower V → CscLower V
to_csc l = record {
  n = pos l.n;
  col_ptr = map pos l.col_ptr;
  row_idx = map pos l.row_idx;
  values = l.values;
}

-- nnz()
unfoldable pub nnz : {V : Type 0} → Lower V → ℕ
nnz l = if length l.col_ptr == 0 then 0 else get_or l.col_ptr (length l.col_ptr - 1) 0

infixl 5 ◌>>=◌
abbrev pub ◌>>=◌ : {A B : Type 0} → Option A → (A → Option B) → Option B
none >>= f = none
some a >>= f = f a

pub Holds-bind :
    {A B : Type 0} (P : B → Type 0) (o : Option A) (f : A → Option B)
    → ((a : A) → o ≡ some a → Holds P (f a))
    → Holds P (o >>= f)
Holds-bind P none f h = tt
Holds-bind P (some a) f h = h a refl

-- v[i] at a signed index.
abbrev pub read : List ℤ → ℤ → Option ℤ
read v (pos i) = get_elem? v i
read v (negsuc i) = none

-- size == static_cast<std::size_t>(k): a negative k converts to more than any vector's size.
abbrev pub is_size : ℕ → ℤ → Bool
is_size size (pos k) = size == k
is_size size (negsuc k) = false

-- The loop over j that checks col_ptr[j + 1] >= col_ptr[j].
unfoldable pub monotone_from : List ℤ → ℕ → ℕ → Option Bool
monotone_from col_ptr zero j = some true
monotone_from col_ptr (suc rounds) j =
    let rest = monotone_from col_ptr rounds (j + 1) in
    do b ← get_elem? col_ptr (j + 1); a ← get_elem? col_ptr j; if ltz b a then some false else rest

-- The inner loop over the entries of column j.
unfoldable pub rows_from : List ℤ → ℤ → ℕ → ℕ → ℤ → Option Bool
rows_from row_idx n j zero k = some true
rows_from row_idx n j (suc rounds) k =
    let rest = rows_from row_idx n j rounds (succ_z k) in
    do row ← read row_idx k; if ltz row (pos j) || not (ltz row n) then some false else rest

-- The outer loop over the columns.
unfoldable pub columns_from : List ℤ → List ℤ → ℤ → ℕ → ℕ → Option Bool
unfolding rows_from
columns_from col_ptr row_idx n zero j = some true
columns_from col_ptr row_idx n (suc rounds) j =
    let rest = columns_from col_ptr row_idx n rounds (j + 1) in
    do
      a ← get_elem? col_ptr j
      b ← get_elem? col_ptr (j + 1)
      ok ← rows_from row_idx n j (difference b a) a
      if ok then rest else some false

-- CscLower::validate_shape
unfoldable pub validate_shape : {V : Type 0} → CscLower V → Option ErrorCode
unfolding monotone_from columns_from
validate_shape a =
    if not (is_size (length a.col_ptr) (succ_z a.n)) then some ErrorCode.illegal_value else do
      first ← get_elem? a.col_ptr 0
      if not (eqz first (pos 0)) then some ErrorCode.illegal_value else do
        monotone ← monotone_from a.col_ptr (pos_part a.n) 0
        if not monotone then some ErrorCode.illegal_value else do
          count ← read a.col_ptr a.n
          if not (is_size (length a.row_idx) count) || not (is_size (length a.values) count)
              then some ErrorCode.illegal_value
              else do
                lower ← columns_from a.col_ptr a.row_idx a.n (pos_part a.n) 0
                some (if lower then ErrorCode.success else ErrorCode.illegal_value)
