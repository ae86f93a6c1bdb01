-- ===== src/Etree/Left.antt =====
-- solver/src/etree.cpp: the entries of a row left of the diagonal.
use opt_solver.Base.{ℕ, ◌<◌, inl, inr, List, [], ◌∷◌, ltb, arith, if_both}
use opt_solver.Etree.{left_of}
use opt_solver.Etree.Rows.{IsLeft}
use opt_solver.Etree.Entries.{IsListed}
use mathlib.Core.List.{Memᴰ}
use mathlib.Core.List.Memᴰ
use mathlib.Core.List.Memᴰ.{head, tail}

IsLeft-cons : {k x : ℕ} {rs : List ℕ} → x < k → IsLeft k rs → IsLeft k (x ∷ rs)
IsLeft-cons lt left r (head q) = omega arith
IsLeft-cons lt left r (tail m) = left r m

pub left_of-IsLeft : (k : ℕ) (rs : List ℕ) → IsLeft k (left_of k rs)
unfolding left_of
left_of-IsLeft k [] = λ r m. elim m [ ]
left_of-IsLeft k (x ∷ rs) =
    let rest : IsLeft k (left_of k rs) = left_of-IsLeft k rs in
    if_both (IsLeft k) (ltb x k) (x ∷ left_of k rs) (left_of k rs)
      (λ e. IsLeft-cons (ground arith) rest) (λ e. rest)

pub left_of-to : (k : ℕ) (rs : List ℕ) (r : ℕ) → Memᴰ r (left_of k rs) → Memᴰ r rs
unfolding left_of
left_of-to k [] = λ r m. m
left_of-to k (x ∷ rs) =
    let rest : (r : ℕ) → Memᴰ r (left_of k rs) → Memᴰ r rs = left_of-to k rs in
    if_both (λ l. (r : ℕ) → Memᴰ r l → Memᴰ r (x ∷ rs)) (ltb x k) (x ∷ left_of k rs) (left_of k rs)
      (λ e r m. elim (Memᴰ.cases_cons m) [ inl q ↦ head q | inr m' ↦ tail (rest r m') ])
      (λ e r m. tail (rest r m))

pub left_of-from : (k : ℕ) (rs : List ℕ) (r : ℕ) → r < k → Memᴰ r rs → Memᴰ r (left_of k rs)
unfolding left_of
left_of-from k [] = λ r lt m. m
left_of-from k (x ∷ rs) =
    let rest : (r : ℕ) → r < k → Memᴰ r rs → Memᴰ r (left_of k rs) = left_of-from k rs in
    if_both (λ l. (r : ℕ) → r < k → Memᴰ r (x ∷ rs) → Memᴰ r l) (ltb x k) (x ∷ left_of k rs)
      (left_of k rs)
      (λ e r lt m. elim (Memᴰ.cases_cons m) [ inl q ↦ head q | inr m' ↦ tail (rest r lt m') ])
      (λ e r lt m. elim (Memᴰ.cases_cons m) [
        | inl q ↦ absurd (ground arith)
        | inr m' ↦ rest r lt m'
      ])

pub left_of-IsListed :
    {e : ℕ → Type 0} {l : List ℕ} (k : ℕ)
    → IsListed e l
    → IsListed (λ r. (r < k) × e r) (left_of k l)
left_of-IsListed {l} k (to, from) = (
  λ r m. (left_of-IsLeft k l r m, to r (left_of-to k l r m)),
  λ r (lt, h). left_of-from k l r lt (from r h),
)
