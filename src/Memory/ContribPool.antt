-- ===== src/Memory/ContribPool.antt =====
-- solver/src/workspace.cpp, NumericWorkspace::acquire_contrib and release_contrib: the bounded pool
-- of contribution buffers. A buffer is its capacity and its contents; `zero` is 0.0, and `room n` the
-- capacity the standard library gives a vector that has to grow to n elements.
pub mod Laws
mod Tests
use opt_solver.Base.{
  ℕ, zero, suc, ◌+◌, ◌-◌, ◌*◌, Bool, true, false, ◌||◌, List, [], ◌∷◌, ◌++◌, ltb, leb, ◌==◌,
  if◌then◌else◌, length, set, get_or, replicate, Option, some, none,
}

pub record Vector (V : Type 0) : Type 0 where
  pub capacity : ℕ
  pub contents : List V

pub record ContribPool (V : Type 0) : Type 0 where
  pub contrib_pool : List (Vector V)
  pub contrib_pool_bytes : ℕ
  pub peak_pool_bytes : ℕ

abbrev pub max_pooled_buffers : ℕ
max_pooled_buffers = 64

-- buf.capacity() * sizeof(double)
abbrev pub bytes : {V : Type 0} → Vector V → ℕ
bytes b = b.capacity * 8

-- An empty vector; a read out of range is not made, and stands for it.
abbrev pub no_vector : {V : Type 0} → Vector V
no_vector = record { capacity = 0; contents = [] }

-- pop_back()
unfoldable pub pop_back : {V : Type 0} → List (Vector V) → List (Vector V)
pop_back [] = []
pop_back (b ∷ []) = []
pop_back (b ∷ c ∷ bs) = b ∷ pop_back (c ∷ bs)

-- The index of the first buffer that holds `elems` elements.
unfoldable pub first_fit : {V : Type 0} → ℕ → List (Vector V) → Option ℕ
first_fit elems [] = none
first_fit elems (b ∷ bs) = elim (leb elems b.capacity) [
  | true ↦ some 0
  | false ↦ elim (first_fit elems bs) [ none ↦ none | some i ↦ some (suc i) ]
]

-- Moves the buffer at `i` out: the last one takes its place.
unfoldable pub move_out : {V : Type 0} → ContribPool V → ℕ → ContribPool V × Vector V
unfolding pop_back
move_out p i =
    let bs = p.contrib_pool in
    let b = get_or bs i no_vector in
    let last = get_or bs (length bs - 1) no_vector in
    (
      record p {
        contrib_pool = pop_back (set bs i last);
        contrib_pool_bytes = p.contrib_pool_bytes - bytes b;
      },
      b,
    )

module _ {V : Type 0} (zero_value : V) (room : ℕ → ℕ) where
  -- buf.assign(elems, 0.0)
  unfoldable pub assign : Vector V → ℕ → Vector V
  assign b elems = record {
    capacity = if leb elems b.capacity then b.capacity else room elems;
    contents = replicate elems zero_value;
  }

  -- The pool, the buffer, and `allocated_new`, after the search for a buffer that fits.
  unfoldable pub acquire_found : ContribPool V → ℕ → Option ℕ → ContribPool V × Vector V × Bool
  unfolding move_out assign
  acquire_found p elems (some i) = let (q, b) = move_out p i in (q, assign b elems, false)
  acquire_found p elems none =
      if length p.contrib_pool == 0
      then (p, assign no_vector elems, ltb 0 elems)
      else (let (q, b) = move_out p (length p.contrib_pool - 1) in (q, assign b elems, true))

  unfoldable pub acquire_contrib : ContribPool V → ℕ → ContribPool V × Vector V × Bool
  unfolding first_fit acquire_found
  acquire_contrib p elems = acquire_found p elems (first_fit elems p.contrib_pool)

unfoldable pub release_contrib : {V : Type 0} → ContribPool V → Vector V → ContribPool V
release_contrib p b =
    if b.capacity == 0 || leb max_pooled_buffers (length p.contrib_pool)
    then p
    else (let total = p.contrib_pool_bytes + bytes b in
        record {
          contrib_pool = p.contrib_pool ++ record b { contents = [] } ∷ [];
          contrib_pool_bytes = total;
          peak_pool_bytes = if ltb p.peak_pool_bytes total then total else p.peak_pool_bytes;
        })
