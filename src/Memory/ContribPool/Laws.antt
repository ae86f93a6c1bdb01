-- ===== src/Memory/ContribPool/Laws.antt =====
-- The buffer pool: its byte count is exact, it is bounded, and an acquired buffer is zeroed and
-- large enough.
use opt_solver.Base.{
  ℕ, zero, suc, ◌+◌, ◌-◌, ◌≤◌, ◌<◌, ◌≡◌, refl, ◌∙◌, ap, get_or-set, inl, inr, ◌||◌, List, [], ◌∷◌,
  ◌++◌, leb, ◌==◌, if◌then◌else◌, length, set, get_or, replicate, Option, some, none, arith,
  Bool-cases, length-append, length-set,
}
use opt_solver.Memory.ContribPool.{
  Vector, ContribPool, bytes, first_fit, pop_back, no_vector, assign, move_out, acquire_found,
  acquire_contrib, release_contrib,
}

-- The bytes of a list of buffers.
abbrev pub total_bytes : {V : Type 0} → List (Vector V) → ℕ
total_bytes [] = 0
total_bytes (b ∷ bs) = bytes b + total_bytes bs

-- The running count is the pooled capacity, the pool is bounded, and the peak has been kept up.
pub record IsValid {V : Type 0} (p : ContribPool V) : Type 0 where
  pub counted : p.contrib_pool_bytes ≡ total_bytes p.contrib_pool
  pub bounded : length p.contrib_pool ≤ 64
  pub peaked : p.contrib_pool_bytes ≤ p.peak_pool_bytes

total_bytes-append :
    {V : Type 0} (xs ys : List (Vector V))
    → total_bytes (xs ++ ys) ≡ total_bytes xs + total_bytes ys
total_bytes-append [] ys = omega arith
total_bytes-append (x ∷ xs) ys = omega (arith, total_bytes-append xs ys)

abbrev at : {V : Type 0} → List (Vector V) → ℕ → Vector V
at bs i = get_or bs i no_vector

total_bytes-set :
    {V : Type 0} (bs : List (Vector V)) (i : ℕ) (b : Vector V)
    → i < length bs
    → total_bytes (set bs i b) + bytes (at bs i) ≡ total_bytes bs + bytes b
total_bytes-set [] i b h = absurd (omega arith)
total_bytes-set (x ∷ bs) zero b h = omega arith
total_bytes-set (x ∷ bs) (suc i) b h = omega (arith, total_bytes-set bs i b (omega arith))

pop_back_lem :
    {V : Type 0} (bs : List (Vector V)) (k : ℕ)
    → length bs ≡ suc k
    → (length (pop_back bs) ≡ k) × (total_bytes (pop_back bs) + bytes (at bs k) ≡ total_bytes bs)
unfolding pop_back
pop_back_lem [] k h = absurd (omega arith)
pop_back_lem (b ∷ []) zero h = (refl, omega arith)
pop_back_lem (b ∷ []) (suc k) h = absurd (omega arith)
pop_back_lem (b ∷ c ∷ bs) zero h = absurd (omega arith)
pop_back_lem (b ∷ c ∷ bs) (suc k) h =
    let r = pop_back_lem (c ∷ bs) k (omega arith) in (omega (arith, r.0), omega (arith, r.1))

first_fit_lem :
    {V : Type 0} (elems : ℕ) (bs : List (Vector V)) (i : ℕ)
    → first_fit elems bs ≡ some i
    → (i < length bs) × (elems ≤ (at bs i).capacity)
unfolding first_fit
first_fit_lem elems [] i e = cc
first_fit_lem elems (b ∷ bs) zero e = ground arith
first_fit_lem elems (b ∷ bs) (suc i) e = ground (arith, first_fit_lem elems bs i)

-- Moving a buffer out of the pool keeps the count exact: what is left and the buffer make the old
-- pool.
module _ {V : Type 0} (p : ContribPool V) (i k : ℕ) (size : length p.contrib_pool ≡ suc k)
    (inside : i < length p.contrib_pool) where
  move_out-bytes :
      (total_bytes (move_out p i).0.contrib_pool + bytes (at p.contrib_pool i)
        ≡ total_bytes p.contrib_pool)
      × (length (move_out p i).0.contrib_pool ≡ k)
  unfolding move_out
  move_out-bytes =
      let bs = p.contrib_pool in
      let last = at bs k in
      let index : length bs - 1 ≡ k = omega arith in
      let kept : at (set bs i last) k ≡ last =
        ground (arith, get_or-set bs i k last no_vector inside) in
      let popped = pop_back_lem (set bs i last) k (length-set bs i last ∙ size) in
      let counted = ap bytes kept in
      rw index (omega (arith, popped.1, counted, total_bytes-set bs i last inside), popped.0)

module _ {V : Type 0} (zero_value : V) (room : ℕ → ℕ) (grows : (n : ℕ) → n ≤ room n) where
  -- An acquired buffer is `elems` zeros with room for them; the pool stays valid, and gives up at
  -- most one buffer.
  pub record Acquired (p q : ContribPool V) (b : Vector V) (elems : ℕ) : Type 0 where
    pub valid : IsValid q
    pub zeroed : b.contents ≡ replicate elems zero_value
    pub roomy : elems ≤ b.capacity
    pub taken : length p.contrib_pool ≤ length q.contrib_pool + 1

  assign_lem :
      (b : Vector V) (elems : ℕ)
      → ((assign zero_value room b elems).contents ≡ replicate elems zero_value)
        × (elems ≤ (assign zero_value room b elems).capacity)
  unfolding assign
  assign_lem b elems = (refl, ground (arith, grows elems))

  move_out-IsValid :
      (p : ContribPool V) (i : ℕ) → IsValid p → i < length p.contrib_pool → IsValid (move_out p i).0
  move_out-IsValid p i v h =
      let r = move_out-bytes p i (length p.contrib_pool - 1) (omega arith) h in
      record {
        counted = unfold move_out in omega (arith, v.counted, r.0);
        bounded = omega (arith, v.bounded, r.1);
        peaked = unfold move_out in omega (arith, v.peaked);
      }

  module _ (p : ContribPool V) (elems : ℕ) (v : IsValid p) where
    acquired :
        (q : ContribPool V) (b : Vector V)
        → IsValid q
        → length p.contrib_pool ≤ length q.contrib_pool + 1
        → Acquired p q (assign zero_value room b elems) elems
    acquired q b w h =
        let a = assign_lem b elems in record { valid = w; zeroed = a.0; roomy = a.1; taken = h }

    moved :
        (i : ℕ)
        → i < length p.contrib_pool
        → Acquired p (move_out p i).0 (assign zero_value room (move_out p i).1 elems) elems
    moved i h =
        acquired (move_out p i).0 (move_out p i).1 (move_out-IsValid p i v h)
          (omega (arith, move_out-bytes p i (length p.contrib_pool - 1) (omega arith) h))

    acquire_found-Acquired :
        (found : Option ℕ)
        → ((i : ℕ) → found ≡ some i → i < length p.contrib_pool)
        → Acquired p
            (acquire_found zero_value room p elems found).0
            (acquire_found zero_value room p elems found).1
            elems
    unfolding acquire_found
    acquire_found-Acquired (some i) h = moved i (h i refl)
    acquire_found-Acquired none h = elim (Bool-cases (length p.contrib_pool == 0)) [
      | inl empty ↦ rw empty (acquired p no_vector v (omega arith))
      | inr pooled ↦ rw pooled (moved (length p.contrib_pool - 1) (ground arith))
    ]

    -- Acquiring from a valid pool: the buffer is `elems` zeros with room for them, whether it was
    -- pooled or new; the pool stays valid and gives up at most one buffer.
    pub acquire_contrib-Acquired :
        Acquired p
          (acquire_contrib zero_value room p elems).0
          (acquire_contrib zero_value room p elems).1
          elems
    unfolding acquire_contrib
    acquire_contrib-Acquired =
        acquire_found-Acquired (first_fit elems p.contrib_pool)
          (λ i e. (first_fit_lem elems p.contrib_pool i e).0)

-- Releasing keeps the pool valid and never lowers the peak; it adds one buffer, unless the pool holds
-- 64 or the buffer has no capacity.
release_contrib_lem :
    {V : Type 0} (p : ContribPool V) (b : Vector V)
    → IsValid p
    → IsValid (release_contrib p b)
      × (p.peak_pool_bytes ≤ (release_contrib p b).peak_pool_bytes)
      × (length (release_contrib p b).contrib_pool
          ≡ length p.contrib_pool
            + (if b.capacity == 0 || leb 64 (length p.contrib_pool) then 0 else 1))
unfolding release_contrib
release_contrib_lem p b v =
    let bs = p.contrib_pool in
    let cleared = record b { contents = [] } in
    let l = length-append bs (cleared ∷ []) in
    let t = total_bytes-append bs (cleared ∷ []) in
    (ground (arith, l, t), ground arith, ground (arith, l))
