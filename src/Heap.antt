-- ===== src/Heap.antt =====
-- solver/src/indexed_min_heap.hpp: IndexedMinHeap, the addressable 4-ary heap of the matching. An entry of
-- pos_ is pos k for the place k and negative for an id that is not in the heap. The loop of sift_up runs on
-- its place k, the loop of sift_down on the places below it: each round moves further. Calls that need an
-- entry are `none` on an empty heap.
pub mod Rank
pub mod Slots
pub mod Hand
pub mod Up
pub mod Down
pub mod Push
pub mod Top
pub mod Pop
pub mod Clear
pub mod Queue
mod Tests
use opt_solver.Base.{
  ℕ, zero, suc, ◌+◌, ◌-◌, ◌*◌, ◌/◌, Bool, true, false, ◌&&◌, ◌||◌, List, [], ◌∷◌, ◌++◌, ltb, leb,
  ◌==◌, if◌then◌else◌, length, get_or, set, take, replicate, Option, some, none, min, is_empty,
}
use opt_solver.Base.Ints.{ℤ, pos, negsuc}

pub record Entry (K : Type 0) : Type 0 where
  pub key : K
  pub id : ℕ

-- heap_ and pos_
pub record Heap (K : Type 0) : Type 0 where
  pub entries : List (Entry K)
  pub places : List ℤ

-- The comparisons of keys, and the entry that a read out of range would give.
pub record Keys (K : Type 0) : Type 0 where
  pub less : K → K → Bool
  pub equal : K → K → Bool
  pub outside : Entry K

unfoldable pub reset : {K : Type 0} → ℕ → Heap K
reset n = record { entries = []; places = replicate n (negsuc 0) }

abbrev pub size : {K : Type 0} → Heap K → ℕ
size h = length h.entries

abbrev pub is_place : ℤ → Bool
is_place (pos k) = true
is_place (negsuc k) = false

unfoldable pub contains : {K : Type 0} → Heap K → ℕ → Bool
contains h id = is_place (get_or h.places id (negsuc 0))

unfoldable pub place : {K : Type 0} → Heap K → ℕ → Entry K → Heap K
place h k e = record { entries = set h.entries k e; places = set h.places e.id (pos k) }

abbrev pub up_of : ℕ → ℕ
up_of k = (k - 1) / 4

unfoldable pub clear_places : {K : Type 0} → List (Entry K) → List ℤ → List ℤ
clear_places [] places = places
clear_places (e ∷ es) places = clear_places es (set places e.id (negsuc 0))

unfoldable pub clear : {K : Type 0} → Heap K → Heap K
unfolding clear_places
clear h = record { entries = []; places = clear_places h.entries h.places }

module _ {K : Type 0} (o : Keys K) where
  unfoldable pub before : Entry K → Entry K → Bool
  before a b = o.less a.key b.key || (o.equal a.key b.key && ltb a.id b.id)

  abbrev pub entry_at : Heap K → ℕ → Entry K
  entry_at h k = get_or h.entries k o.outside

  unfoldable pub top : Heap K → Option (Entry K)
  top h = if is_empty h.entries then none else some (entry_at h 0)

  -- The loop of sift_up with x in hand, on at least k rounds.
  unfoldable pub up_loop : ℕ → Heap K → ℕ → Entry K → Heap K
  unfolding before place
  up_loop zero h k x = place h k x
  up_loop (suc rounds) h k x =
      let moved = up_loop rounds (place h k (entry_at h (up_of k))) (up_of k) x in
      if k == 0 then place h k x else if before x (entry_at h (up_of k)) then moved else place h k x

  unfoldable pub sift_up : Heap K → ℕ → Heap K
  unfolding up_loop
  sift_up h k = up_loop k h k (entry_at h k)

  -- The first least of `best` and the entries c, c + 1, ...
  unfoldable pub best_of : Heap K → ℕ → ℕ → ℕ → ℕ
  unfolding before
  best_of h best c zero = best
  best_of h best c (suc count) =
      best_of h (if before (entry_at h c) (entry_at h best) then c else best) (suc c) count

  abbrev pub best_child : Heap K → ℕ → ℕ
  best_child h k = best_of h (4 * k + 1) (4 * k + 2) (min (4 * k + 5) (size h) - (4 * k + 2))

  -- The loop of sift_down with x in hand, on at least size - k rounds.
  unfoldable pub down_loop : ℕ → Heap K → ℕ → Entry K → Heap K
  unfolding before place best_of
  down_loop zero h k x = place h k x
  down_loop (suc rounds) h k x =
      let best = best_child h k in
      let moved = down_loop rounds (place h k (entry_at h best)) best x in
      if leb (size h) (4 * k + 1)
      then place h k x
      else if before (entry_at h best) x
      then moved
      else place h k x

  unfoldable pub sift_down : Heap K → Entry K → Heap K
  unfolding down_loop
  sift_down h x = down_loop (size h) h 0 x

  unfoldable pub push_at : Heap K → ℕ → K → ℤ → Heap K
  unfolding sift_up
  push_at h id key (negsuc p) =
      sift_up (record h { entries = h.entries ++ record { key = key; id = id } ∷ [] }) (size h)
  push_at h id key (pos p) =
      sift_up (record h { entries = set h.entries p (record (entry_at h p) { key = key }) }) p

  unfoldable pub push_or_decrease : Heap K → ℕ → K → Heap K
  unfolding push_at
  push_or_decrease h id key = push_at h id key (get_or h.places id (negsuc 0))

  -- What follows the removal of the last entry.
  unfoldable pub refill : Heap K → Entry K → Heap K
  unfolding sift_down
  refill h last = if is_empty h.entries then h else sift_down h last

  unfoldable pub pop : Heap K → Option (Heap K)
  unfolding refill
  pop h =
      let last = entry_at h (size h - 1) in
      let rest : Heap K = record {
        entries = take (size h - 1) h.entries;
        places = set h.places (entry_at h 0).id (negsuc 0);
      } in
      if is_empty h.entries then none else some (refill rest last)
