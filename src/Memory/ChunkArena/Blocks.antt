-- ===== src/Memory/ChunkArena/Blocks.antt =====
-- The blocks that a chunk arena holds, and what taking an own-size chunk does to them.
use opt_solver.Base.{
  ℕ, ◌+◌, ◌≤◌, ◌<◌, ◌≡◌, ◌≢◌, refl, ap, ◌⊎◌, true, false, [], ◌∷◌, ◌++◌, length, set, Option, some,
  none, arith, length-append, length-set,
}
use opt_solver.Memory.ChunkArena.{ChunkArena, Block, bump, own, taken_of_size, place_big}
use opt_solver.Memory.ChunkArena.Scan.{big_or, big_or-set, big_or-append, Chosen}

-- The counters are in range.
pub record IsValid (a : ChunkArena) : Type 0 where
  pub positive : 0 < a.chunk
  pub current : a.cur ≤ a.chunks
  pub filled : a.used ≤ a.chunk
  pub unopened : a.cur ≡ a.chunks → a.used ≡ 0

-- The arena holds the block: it lies in the used part of the chain, or in a taken own-size chunk.
abbrev pub Owns : ChunkArena → Block → Type 0
Owns a (bump c offset n) =
    (c < a.chunks) × (offset + n ≤ a.chunk) × ((c < a.cur) ⊎ (c ≡ a.cur) × (offset + n ≤ a.used))
Owns a (own i n) =
    (i < length a.big) × ((big_or a.big i).taken ≡ true) × (n ≤ (big_or a.big i).size)

-- Two blocks share no element.
abbrev pub Disjoint : Block → Block → Type 0
Disjoint (bump c offset n) (bump d offset' m) =
    (c ≢ d) ⊎ (offset + n ≤ offset') ⊎ (offset' + m ≤ offset)
Disjoint (own i n) (own j m) = i ≢ j
Disjoint (bump c offset n) (own j m) = Unit
Disjoint (own i n) (bump d offset m) = Unit

abbrev pub elements : Block → ℕ
elements (bump c offset n) = n
elements (own i n) = n

-- What one take does to an arena and the blocks it holds: the new block is held, it shares nothing
-- with a block held before, and every such block is still held.
pub record Takes (a a' : ChunkArena) (new : Block) (n : ℕ) : Type 0 where
  pub asked : elements new ≡ n
  pub valid : IsValid a'
  pub owned : Owns a' new
  pub kept : (b : Block) → Owns a b → Owns a' b
  pub apart : (b : Block) → Owns a b → Disjoint b new

-- A write of a taken chunk over a free one.
module _ (a : ChunkArena) (v : IsValid a) (i size n g : ℕ) (inside : i < length a.big)
    (free : (big_or a.big i).taken ≡ false) (holds : n ≤ size) where
  abbrev taken_at : ChunkArena
  taken_at = record a { big = set a.big i (taken_of_size size); growths = g }

  taken_at-kept : (b : Block) → Owns a b → Owns taken_at b
  taken_at-kept (bump c offset m) o = o
  taken_at-kept (own j m) o = (
    omega (arith, o.0, length-set a.big i (taken_of_size size)),
    ground (arith, big_or-set a.big i j (taken_of_size size), o.1),
    ground (arith, big_or-set a.big i j (taken_of_size size), o.1),
  )

  taken_at-apart : (b : Block) → Owns a b → Disjoint b (own i n)
  taken_at-apart (bump c offset m) o = tt
  taken_at-apart (own j m) o = λ e. cc (ap (λ k. (big_or a.big k).taken) e)

  taken_at-Takes : Takes a taken_at (own i n) n
  taken_at-Takes = record {
    asked = refl;
    valid = record {
      positive = v.positive;
      current = v.current;
      filled = v.filled;
      unopened = v.unopened;
    };
    owned = (
      omega (arith, length-set a.big i (taken_of_size size)),
      ground (arith, big_or-set a.big i i (taken_of_size size)),
      ground (arith, big_or-set a.big i i (taken_of_size size)),
    );
    kept = taken_at-kept;
    apart = taken_at-apart;
  }

-- A new own-size chunk at the end.
module _ (a : ChunkArena) (v : IsValid a) (n : ℕ) where
  abbrev appended : ChunkArena
  appended = record a { big = a.big ++ taken_of_size n ∷ []; growths = a.growths + 1 }

  appended-kept : (b : Block) → Owns a b → Owns appended b
  appended-kept (bump c offset m) o = o
  appended-kept (own j m) o = (
    omega (arith, o.0, length-append a.big (taken_of_size n ∷ [])),
    ground (arith, big_or-append a.big (taken_of_size n) j, o.0, o.1),
    ground (arith, big_or-append a.big (taken_of_size n) j, o.0, o.2),
  )

  appended-apart : (b : Block) → Owns a b → Disjoint b (own (length a.big) n)
  appended-apart (bump c offset m) o = tt
  appended-apart (own j m) o = λ e. omega arith

  appended-Takes : Takes a appended (own (length a.big) n) n
  appended-Takes = record {
    asked = refl;
    valid = record {
      positive = v.positive;
      current = v.current;
      filled = v.filled;
      unopened = v.unopened;
    };
    owned = (
      omega (arith, length-append a.big (taken_of_size n ∷ [])),
      ground (arith, big_or-append a.big (taken_of_size n) (length a.big)),
      ground (arith, big_or-append a.big (taken_of_size n) (length a.big)),
    );
    kept = appended-kept;
    apart = appended-apart;
  }

pub place_big-Takes :
    (a : ChunkArena) (n : ℕ) (best largest : Option (ℕ × ℕ))
    → IsValid a
    → Chosen n a.big (length a.big) best largest
    → Takes a (place_big a n best largest).0 (place_big a n best largest).1 n
unfolding place_big
place_big-Takes a n (some (i, size)) largest v c =
    taken_at-Takes a v i size n a.growths c.best_free.0 c.best_free.1 c.best_holds
place_big-Takes a n none (some (i, size)) v c =
    taken_at-Takes a v i n n (a.growths + 1) c.largest_free.0 c.largest_free.1 (omega arith)
place_big-Takes a n none none v c = appended-Takes a v n
