-- ===== src/Memory/ContribPool/Tests.antt =====
-- Runs of the buffer pool, and its theorems at a concrete pool.
use opt_solver.Base.{ℕ, ◌≡◌, refl, false, [], ◌∷◌, arith}
use opt_solver.Memory.ContribPool.{Vector, ContribPool, acquire_contrib}
use opt_solver.Memory.ContribPool.Laws.{Acquired, acquire_contrib-Acquired}

abbrev vector : ℕ → Vector ℕ
vector n = record { capacity = n; contents = [] }

abbrev sample : ContribPool ℕ
sample = record {
  contrib_pool = vector 2 ∷ vector 7 ∷ vector 5 ∷ [];
  contrib_pool_bytes = 112;
  peak_pool_bytes = 200;
}

-- The buffer of seven is the first that holds four; the buffer of five takes its place.
first_fit_run : acquire_contrib 0 (λ n. n) sample 4 ≡ (
  record sample { contrib_pool = vector 2 ∷ vector 5 ∷ []; contrib_pool_bytes = 56 },
  record { capacity = 7; contents = 0 ∷ 0 ∷ 0 ∷ 0 ∷ [] },
  false,
)
unfolding acquire_contrib
first_fit_run = refl

acquire_contrib-Acquired_example :
    Acquired 0
      (λ n. n)
      (λ n. omega arith)
      sample
      (acquire_contrib 0 (λ n. n) sample 4).0
      (acquire_contrib 0 (λ n. n) sample 4).1
      4
acquire_contrib-Acquired_example =
    acquire_contrib-Acquired 0 (λ n. n) (λ n. omega arith) sample 4 (omega arith)
