-- ===== src/Memory/FactorStack/Tests.antt =====
-- Runs of the contribution stack, and its theorems at concrete stacks.
use opt_solver.Base.{
  ℕ, ◌+◌, ◌*◌, ◌≡◌, refl, ◌<◌, ◌⊎◌, max, List, replicate, length-replicate, some, none,
}
use opt_solver.Memory.FactorStack.{
  FactorStack, active_buf, idle_buf, live_bytes, new_capacity, grow, factor_stack, alloc, free_top,
}
use opt_solver.Memory.FactorStack.Laws.{
  IsValid, Pushed, live, factor_stack-IsValid, alloc-IsValid, alloc-Pushed, free_top-alloc,
  free_top_lem, live_bytes-alloc,
}

abbrev zeros : ℕ → List ℕ
zeros k = replicate k 0

sample : FactorStack ℕ
unfolding factor_stack alloc
sample = (alloc zeros (factor_stack zeros 20) 2).0

sample_capacity : ((active_buf sample).capacity_bytes ≡ 24) × (live_bytes sample ≡ 16)
unfolding sample live_bytes
sample_capacity = (refl, refl)

-- The third double fits; the two after it make the buffer grow to max(36, 40) bytes.
sample_growth :
    ((alloc zeros sample 1).0.growth_count ≡ 0)
    × ((alloc zeros sample 3).0.growth_count ≡ 1)
    × ((active_buf (alloc zeros sample 3).0).capacity_bytes ≡ 40)
unfolding sample alloc grow new_capacity
sample_growth = (refl, refl, refl)

sample-IsValid : IsValid sample
unfolding sample
sample-IsValid =
    alloc-IsValid zeros (λ k. length-replicate k 0) (factor_stack zeros 20) 2
      (factor_stack-IsValid zeros (λ k. length-replicate k 0) 20).0

alloc-IsValid_example : IsValid (alloc zeros sample 3).0
alloc-IsValid_example = alloc-IsValid zeros (λ k. length-replicate k 0) sample 3 sample-IsValid

alloc-Pushed_example : Pushed sample (alloc zeros sample 3).0 (alloc zeros sample 3).1 3
alloc-Pushed_example = alloc-Pushed zeros (λ k. length-replicate k 0) sample 3 sample-IsValid

live_bytes-alloc_example :
    (live_bytes (alloc zeros sample 3).0 ≡ live_bytes sample + 3 * 8)
    × ((alloc zeros sample 3).0.hwm_total ≡ max sample.hwm_total (live_bytes sample + 3 * 8))
live_bytes-alloc_example =
    live_bytes-alloc zeros (λ k. length-replicate k 0) sample 3 sample-IsValid

free_top-alloc_example :
    (t : FactorStack ℕ) × (free_top (alloc zeros sample 3).0 3 ≡ some t)
    × IsValid t
    × (live (active_buf t) ≡ live (active_buf sample))
    × (idle_buf t ≡ idle_buf sample)
    × (live_bytes t ≡ live_bytes sample)
free_top-alloc_example = free_top-alloc zeros (λ k. length-replicate k 0) sample 3 sample-IsValid

free_top_lem_example :
    ((active_buf sample).top_bytes < 3 * 8) × (free_top sample 3 ≡ none)
    ⊎ (t : FactorStack ℕ) × (free_top sample 3 ≡ some t)
      × IsValid t
      × (live_bytes t + 3 * 8 ≡ live_bytes sample)
      × (t.hwm_total ≡ sample.hwm_total)
free_top_lem_example = free_top_lem sample 3 sample-IsValid
