-- ===== src/Memory/ChunkArena.antt =====
-- solver/src/parallel/chunk_arena.hpp: bump allocation from chunks kept across factorizations. The
-- contents of the chunks play no part: the arena is its counters, a pointer is the place it points
-- to. The lock makes each call one step, so a call is a function of the state.
pub mod Scan
pub mod Blocks
pub mod Laws
mod Tests
use opt_solver.Base.{
  ℕ, zero, suc, ◌+◌, ◌≤◌, Bool, true, false, not, ◌&&◌, ◌||◌, List, [], ◌∷◌, ◌++◌, ltb, leb, ◌==◌,
  if◌then◌else◌, length, set, max, Option, some, none, map,
}

-- An own-size chunk: how many elements it has, and whether a live block holds it.
pub record Big : Type 0 where
  pub size : ℕ
  pub taken : Bool

-- `chunks` counts the chunks of the bump chain, of `chunk` elements each.
pub record ChunkArena : Type 0 where
  pub chunk : ℕ
  pub chunks : ℕ
  pub cur : ℕ
  pub used : ℕ
  pub big : List Big
  pub growths : ℕ

-- Where a block of `n` elements lies: at an offset of a chunk of the chain, or in an own-size chunk.
pub data Block : Type 0 where
  bump : (chunk offset n : ℕ) → Block
  own : (index n : ℕ) → Block

unfoldable pub chunk_arena : ℕ → ChunkArena
chunk_arena chunk = record {
  chunk = max 1 chunk;
  chunks = 0;
  cur = 0;
  used = 0;
  big = [];
  growths = 0;
}

abbrev pub release_big : Big → Big
release_big b = record b { taken = false }

unfoldable pub reset : ChunkArena → ChunkArena
reset a = record a { cur = 0; used = 0; big = map release_big a.big }

-- The test that `at` is unset, or its size is above `size`.
abbrev pub none_or_above : Option (ℕ × ℕ) → ℕ → Bool
none_or_above none size = true
none_or_above (some (i, s)) size = ltb size s

abbrev pub none_or_below : Option (ℕ × ℕ) → ℕ → Bool
none_or_below none size = true
none_or_below (some (i, s)) size = ltb s size

-- The updates of take_big's two choices at the chunk `b` of index `i`.
abbrev pub next_best : ℕ → ℕ → Big → Option (ℕ × ℕ) → Option (ℕ × ℕ)
next_best n i b best =
    if not b.taken && (leb n b.size && none_or_above best b.size) then some (i, b.size) else best

abbrev pub next_largest : ℕ → Big → Option (ℕ × ℕ) → Option (ℕ × ℕ)
next_largest i b largest =
    if not b.taken && none_or_below largest b.size then some (i, b.size) else largest

-- The loop of take_big over the own-size chunks from index `i` on: the smallest free one that holds
-- n elements, and the largest free one, each with its size.
unfoldable pub scan :
    ℕ → List Big → ℕ → Option (ℕ × ℕ) → Option (ℕ × ℕ) → Option (ℕ × ℕ) × Option (ℕ × ℕ)
scan n [] i best largest = (best, largest)
scan n (b ∷ bs) i best largest = scan n bs (suc i) (next_best n i b best) (next_largest i b largest)

abbrev pub taken_of_size : ℕ → Big
taken_of_size n = record { size = n; taken = true }

-- What take_big does with the two chunks it found.
unfoldable pub place_big : ChunkArena → ℕ → Option (ℕ × ℕ) → Option (ℕ × ℕ) → ChunkArena × Block
place_big a n (some (i, size)) largest =
    (record a { big = set a.big i (taken_of_size size) }, own i n)
place_big a n none (some (i, size)) =
    (record a { big = set a.big i (taken_of_size n); growths = a.growths + 1 }, own i n)
place_big a n none none = (
  record a { big = a.big ++ taken_of_size n ∷ []; growths = a.growths + 1 },
  own (length a.big) n,
)

unfoldable pub take_big : ChunkArena → ℕ → ChunkArena × Block
unfolding scan place_big
take_big a n = let found = scan n a.big 0 none none in place_big a n found.0 found.1

-- Appends a chunk when the chain is used up.
unfoldable pub ensure_chunk : ChunkArena → ChunkArena
ensure_chunk a =
    if a.cur == a.chunks then record a { chunks = a.chunks + 1; growths = a.growths + 1 } else a

-- The loop of take over the chain; `none` means that the fuel ran out.
unfoldable pub take_bump : ℕ → ChunkArena → ℕ → Option (ChunkArena × Block)
unfolding ensure_chunk
take_bump zero a n = none
take_bump (suc fuel) a n =
    let e = ensure_chunk a in
    let next = take_bump fuel (record e { cur = e.cur + 1; used = 0 }) n in
    if leb (e.used + n) e.chunk
    then some (record e { used = e.used + n }, bump e.cur e.used n)
    else next

-- A block of at most `chunk` elements fits the current chunk or the next: two rounds.
unfoldable pub take : ChunkArena → ℕ → Option (ChunkArena × Block)
unfolding take_big take_bump
take a n = if ltb a.chunk n then some (take_big a n) else take_bump 2 a n

-- chunks()
unfoldable pub held : ChunkArena → ℕ
held a = a.chunks + length a.big
