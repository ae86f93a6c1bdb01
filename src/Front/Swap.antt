-- ===== src/Front/Swap.antt =====
-- solver/src/pivoting.cpp: sym_swap_front.
pub mod Laws
mod Tests
use opt_solver.Base.{ℕ, zero, suc, ◌+◌, ◌-◌, min, max, ◌==◌, if◌then◌else◌}
use opt_solver.Front.Matrix.{Entries, swap_entries}

-- for m: swap(F.at(p, m), F.at(q, m))
unfoldable pub swap_rows : {V : Type 0} → ℕ → ℕ → ℕ → ℕ → Entries V → Entries V
swap_rows p q zero m f = f
swap_rows p q (suc rounds) m f = swap_rows p q rounds (suc m) (swap_entries f p m q m)

-- for m: swap(F.at(m, p), F.at(q, m))
unfoldable pub swap_cross : {V : Type 0} → ℕ → ℕ → ℕ → ℕ → Entries V → Entries V
swap_cross p q zero m f = f
swap_cross p q (suc rounds) m f = swap_cross p q rounds (suc m) (swap_entries f m p q m)

-- for m: swap(F.at(m, p), F.at(m, q))
unfoldable pub swap_columns : {V : Type 0} → ℕ → ℕ → ℕ → ℕ → Entries V → Entries V
swap_columns p q zero m f = f
swap_columns p q (suc rounds) m f = swap_columns p q rounds (suc m) (swap_entries f m p m q)

unfoldable pub swap_sorted : {V : Type 0} → ℕ → ℕ → ℕ → ℕ → Entries V → Entries V
unfolding swap_rows swap_cross swap_columns
swap_sorted front_size p q num_fs f =
    let diagonal = swap_entries f p p q q in
    let left = swap_rows p q p 0 diagonal in
    let between = swap_cross p q (q - (p + 1)) (p + 1) left in
    let below = swap_columns p q (num_fs - (q + 1)) (q + 1) between in
    swap_columns p q (front_size - num_fs) num_fs below

unfoldable pub sym_swap_front : {V : Type 0} → ℕ → ℕ → ℕ → ℕ → Entries V → Entries V
unfolding swap_sorted
sym_swap_front front_size p q num_fs f =
    let swapped = swap_sorted front_size (min p q) (max p q) num_fs f in
    if p == q then f else swapped
