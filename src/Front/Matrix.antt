-- ===== src/Front/Matrix.antt =====
-- solver/include/smf/frontal_matrix.hpp: the entries of a FrontalMatrix, `at(row, col)`. The entry
-- (row, col) has its own place in the column-major array as long as row is below the front size.
use opt_solver.Base.{ℕ, ◌&&◌, ◌==◌, ltb, if◌then◌else◌}

abbrev pub Entries : Type 0 → Type 0
Entries V = ℕ → ℕ → V

-- F.at(i, j) = v
abbrev pub put : {V : Type 0} → Entries V → ℕ → ℕ → V → Entries V
put f i j v = λ a b. if a == i && b == j then v else f a b

-- std::swap(F.at(i, j), F.at(k, l))
abbrev pub swap_entries : {V : Type 0} → Entries V → ℕ → ℕ → ℕ → ℕ → Entries V
swap_entries f i j k l = put (put f i j (f k l)) k l (f i j)

-- The symmetric matrix whose lower triangle is stored.
abbrev pub full : {V : Type 0} → Entries V → ℕ → ℕ → V
full f i j = if ltb i j then f j i else f i j
