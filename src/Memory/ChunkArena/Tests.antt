-- ===== src/Memory/ChunkArena/Tests.antt =====
-- Runs of the chunk arena, and its theorems at concrete arenas.
use opt_solver.Base.{true, length, ◌<◌, ℕ, ◌≤◌, ◌≡◌, refl, [], ◌∷◌, false, some, arith}
use opt_solver.Memory.ChunkArena.{ChunkArena, Block, bump, own, take_big, take, held}
use opt_solver.Memory.ChunkArena.Scan.{big_or}
use opt_solver.Memory.ChunkArena.Blocks.{Takes}
use opt_solver.Memory.ChunkArena.Laws.{take-Takes, take_big-best_fit}

-- Chunks of four; a block of three is live, and two own-size chunks wait, and
-- one is taken.
abbrev sample : ChunkArena
sample = record {
  chunk = 4;
  chunks = 1;
  cur = 0;
  used = 3;
  big =
      record { size = 9; taken = false }
      ∷ record { size = 6; taken = false }
      ∷ record { size = 5; taken = true }
      ∷ [];
  growths = 3;
}

-- Two does not fit the rest of the chunk, so the chain grows.
take_two :
    take sample 2 ≡ some (record sample { chunks = 2; cur = 1; used = 2; growths = 4 }, bump 1 0 2)
unfolding take
take_two = refl

-- Five goes to the own-size chunk of six.
take_five : (take_big sample 5).1 ≡ own 1 5
unfolding take_big
take_five = refl

take-Takes_example : (r : ChunkArena × Block) × (take sample 2 ≡ some r) × Takes sample r.0 r.1 2
take-Takes_example = take-Takes sample 2 (omega arith)

take_big-best_fit_example :
    (i : ℕ) × ((take_big sample 5).1 ≡ own i 5)
    × (i < length sample.big)
    × ((big_or sample.big i).taken ≡ false)
    × (5 ≤ (big_or sample.big i).size)
    × ((big_or sample.big i).size ≤ (big_or sample.big 1).size)
    × ((take_big sample 5).0.growths ≡ sample.growths)
    × (held (take_big sample 5).0 ≡ held sample)
take_big-best_fit_example = take_big-best_fit sample 5 1 (omega arith) refl (omega arith)
