-- ===== src/Dispatch/Certify.antt =====
-- solver/src/dispatch_policy.cpp: certify_quasi_definite, on a matrix that validate_shape has accepted. `add`,
-- `is_finite` and `is_positive` are the floating point operations, `is_small v` says that |v| is below
-- min_abs_diag. A sign is `true` for 1 and `false` for -1.
pub mod Transitions
pub mod Laws
mod Tests
use opt_solver.Base.{
  ℕ, zero, suc, ◌+◌, ◌-◌, Bool, true, false, not, ◌&&◌, ◌||◌, ltb, leb, ◌==◌, if◌then◌else◌, get_or,
  Option, some, none, List, [], ◌∷◌,
}
use opt_solver.Matrix.Csc.{Lower}
use opt_solver.Matrix.Csc.Shape.{col_start, row}

-- The counters of the loop; prev_sign is none for 0.
pub record Signs : Type 0 where
  pub transitions : ℕ
  pub prev : Option Bool
  pub pos_count : ℕ
  pub neg_count : ℕ

abbrev pub differs : Option Bool → Bool → Bool
differs none sign = false
differs (some true) sign = not sign
differs (some false) sign = sign

unfoldable pub next_sign : Signs → Bool → Signs
next_sign s sign = record {
  transitions = if differs s.prev sign then s.transitions + 1 else s.transitions;
  prev = some sign;
  pos_count = if sign then s.pos_count + 1 else s.pos_count;
  neg_count = if sign then s.neg_count else s.neg_count + 1;
}

module _ {V : Type 0} (zero_value : V) (add : V → V → V)
    (is_finite is_positive is_small : V → Bool) where
  abbrev pub or_zero : Option V → V
  or_zero none = zero_value
  or_zero (some v) = v

  -- diag_val after the places p, p + 1, ... of column j, none while found_diag is false
  unfoldable pub diagonal : Lower V → ℕ → ℕ → ℕ → Option V → Option V
  diagonal a j zero p found = found
  diagonal a j (suc rounds) p found =
      diagonal a j rounds (suc p)
        (if row a p == j then some (add (or_zero found) (get_or a.values p zero_value)) else found)

  -- The sign of a diagonal entry that is accepted.
  abbrev pub accepted : Option V → Option Bool
  accepted none = none
  accepted (some v) = if not (is_finite v) || is_small v then none else some (is_positive v)

  unfoldable pub sign_of : Lower V → ℕ → Option Bool
  unfolding diagonal
  sign_of a j = accepted (diagonal a j (col_start a (suc j) - col_start a j) (col_start a j) none)

  unfoldable pub sign_columns : Lower V → ℕ → ℕ → Signs → Option Signs
  unfolding sign_of next_sign
  sign_columns a zero j s = some s
  sign_columns a (suc rounds) j s = elim (sign_of a j) [
    | none ↦ none
    | some sign ↦ sign_columns a rounds (suc j) (next_sign s sign)
  ]

  unfoldable pub certify_quasi_definite : Lower V → Bool
  unfolding sign_columns
  certify_quasi_definite a =
      if a.n == 0
      then false
      else (elim (sign_columns a a.n 0
          (record { transitions = 0; prev = none; pos_count = 0; neg_count = 0 })) [
            | none ↦ false
            | some s ↦ ltb 0 s.pos_count && (ltb 0 s.neg_count && leb s.transitions 1)
          ])
