-- ===== src/Dispatch/Certify/Tests.antt =====
-- solver/src/dispatch_policy.cpp: certify_quasi_definite on two matrices, where a value is a magnitude and
-- an odd one is negative.
use opt_solver.Base.{ℕ, ◌+◌, ◌%◌, ◌<◌, ◌≡◌, refl, Bool, true, false, [], ◌∷◌, ◌==◌, ltb}
use opt_solver.Matrix.Csc.{Lower}
use opt_solver.Dispatch.Certify.{diagonal, next_sign, sign_of, sign_columns, certify_quasi_definite}
use opt_solver.Dispatch.Certify.Laws.{IsSigned, certify_quasi_definite-IsSigned}

abbrev is_even : ℕ → Bool
is_even v = v % 2 == 0

abbrev kkt : Lower ℕ
kkt = record {
  n = 3;
  col_ptr = 0 ∷ 2 ∷ 3 ∷ 4 ∷ [];
  row_idx = 0 ∷ 2 ∷ 1 ∷ 2 ∷ [];
  values = 4 ∷ 9 ∷ 6 ∷ 5 ∷ [];
}

abbrev alternating : Lower ℕ
alternating = record {
  n = 3;
  col_ptr = 0 ∷ 1 ∷ 2 ∷ 3 ∷ [];
  row_idx = 0 ∷ 1 ∷ 2 ∷ [];
  values = 4 ∷ 5 ∷ 6 ∷ [];
}

kkt_certified :
    certify_quasi_definite 0 (λ x y. x + y) (λ v. true) is_even (λ v. ltb v 1) kkt ≡ true
unfolding certify_quasi_definite sign_columns sign_of next_sign diagonal
kkt_certified = refl

alternating_refused :
    certify_quasi_definite 0 (λ x y. x + y) (λ v. true) is_even (λ v. ltb v 1) alternating ≡ false
unfolding certify_quasi_definite sign_columns sign_of next_sign diagonal
alternating_refused = refl

certify_quasi_definite-IsSigned_example :
    (0 < 3) × IsSigned 0 (λ x y. x + y) (λ v. true) is_even (λ v. ltb v 1) kkt
certify_quasi_definite-IsSigned_example =
    certify_quasi_definite-IsSigned 0 (λ x y. x + y) (λ v. true) is_even (λ v. ltb v 1) kkt
      kkt_certified
