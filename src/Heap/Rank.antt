-- ===== src/Heap/Rank.antt =====
-- solver/src/indexed_min_heap.hpp: the order of the entries as an order of numbers, and the heap
-- property with one entry out of place.
use native.Mathlib.Nat.{mul-le-mul_right}
use opt_solver.Base.{
  ℕ, ◌+◌, ◌*◌, ◌≤◌, ◌<◌, ◌≡◌, ◌≢◌, ap, ◌∙◌, ◌⊎◌, ◌&&◌, ◌||◌, ltb, ◌==◌, arith, dec_lt, ℕ_discrete,
}
use opt_solver.Heap.{Entry, Keys, size, up_of, before}

-- Keys that are not NaN: their comparisons are those of numbers. `n` bounds the ids.
pub record IsRanked {K : Type 0} (o : Keys K) (rank : K → ℕ) : Type 0 where
  pub less : (a b : K) → o.less a b ≡ ltb (rank a) (rank b)
  pub equal : (a b : K) → o.equal a b ≡ (rank a == rank b)

abbrev pub weight : {K : Type 0} → (K → ℕ) → ℕ → Entry K → ℕ
weight rank n e = rank e.key * n + e.id

row_le : (a b n : ℕ) → a < b → a * n + n ≤ b * n
row_le a b n h = let m : (a + 1) * n ≤ b * n = mul-le-mul_right n (omega arith) in omega arith

lexicographic :
    (a b i j n : ℕ) → i < n → j < n → (ltb a b || (a == b && ltb i j)) ≡ ltb (a * n + i) (b * n + j)
lexicographic a b i j n h k = elim (dec_lt a b) [
  | yes lt ↦ let m = row_le a b n lt in ground arith
  | no ge ↦ elim (ℕ_discrete a b) [
    | yes e ↦ let m : a * n ≡ b * n = ap (λ z. z * n) e in ground arith
    | no ne ↦ let m = row_le b a n (omega arith) in ground arith
  ]
]

pub before-weight :
    {K : Type 0} (o : Keys K) (rank : K → ℕ) (n : ℕ) (a b : Entry K)
    → IsRanked o rank
    → a.id < n
    → b.id < n
    → before o a b ≡ ltb (weight rank n a) (weight rank n b)
unfolding before
before-weight o rank n a b r h k =
    ap (λ z. z || (o.equal a.key b.key && ltb a.id b.id)) (r.less a.key b.key)
    ∙ ap (λ z. ltb (rank a.key) (rank b.key) || (z && ltb a.id b.id)) (r.equal a.key b.key)
    ∙ lexicographic (rank a.key) (rank b.key) a.id b.id n h k

-- Each place holds at least what its parent holds.
abbrev pub IsOrdered : ℕ → (ℕ → ℕ) → Type 0
IsOrdered size w = (c : ℕ) → 0 < c → c < size → w (up_of c) ≤ w c

-- The children of k hold at least what the parent of k holds.
abbrev pub IsBridged : ℕ → (ℕ → ℕ) → ℕ → Type 0
IsBridged size w k = (c : ℕ) → 0 < c → c < size → up_of c ≡ k → 0 < k → w (up_of k) ≤ w c

-- Only place k may hold less than its parent.
pub record IsRising (size : ℕ) (w : ℕ → ℕ) (k : ℕ) : Type 0 where
  pub edges : (c : ℕ) → 0 < c → c < size → c ≢ k → w (up_of c) ≤ w c
  pub bridged : IsBridged size w k

-- Only place k may hold more than its children.
pub record IsSinking (size : ℕ) (w : ℕ → ℕ) (k : ℕ) : Type 0 where
  pub edges : (c : ℕ) → 0 < c → c < size → up_of c ≢ k → w (up_of c) ≤ w c
  pub bridged : IsBridged size w k

-- w' is w with the values at k and c exchanged.
pub record IsSwapped (w w' : ℕ → ℕ) (k c : ℕ) : Type 0 where
  pub at_k : w' k ≡ w c
  pub at_c : w' c ≡ w k
  pub elsewhere : (i : ℕ) → i ≢ k → i ≢ c → w' i ≡ w i

pub IsRising-swap :
    (size : ℕ) (w w' : ℕ → ℕ) (k : ℕ)
    → 0 < k
    → k < size
    → IsSwapped w w' k (up_of k)
    → w k < w (up_of k)
    → IsRising size w k
    → IsRising size w' (up_of k)
IsRising-swap size w w' k h lt s less v = record {
  edges = λ c p q ne. ground (
    arith,
    s.at_k,
    s.at_c,
    s.elsewhere c,
    s.elsewhere (up_of c),
    v.edges c,
    v.edges (up_of k),
    v.bridged c,
  );
  bridged = λ c p q e u. ground (
    arith,
    s.at_k,
    s.at_c,
    s.elsewhere c,
    s.elsewhere (up_of (up_of k)),
    v.edges c,
    v.edges (up_of k),
  );
}

pub IsRising-settled :
    (size : ℕ) (w : ℕ → ℕ) (k : ℕ)
    → (k ≡ 0) ⊎ (w (up_of k) ≤ w k)
    → IsRising size w k
    → IsOrdered size w
IsRising-settled size w k h v c p q = ground (arith, v.edges c)

pub IsSinking-swap :
    (size : ℕ) (w w' : ℕ → ℕ) (k c : ℕ)
    → up_of c ≡ k
    → 0 < c
    → c < size
    → IsSwapped w w' k c
    → w c < w k
    → ((i : ℕ) → 0 < i → i < size → up_of i ≡ k → w c ≤ w i)
    → IsSinking size w k
    → IsSinking size w' c
IsSinking-swap size w w' k c e h lt s less least v = record {
  edges = λ i p q ne. ground (
    arith,
    s.at_k,
    s.at_c,
    s.elsewhere i,
    s.elsewhere (up_of i),
    v.edges i,
    v.bridged c,
    least i,
  );
  bridged = λ i p q f u. ground (arith, s.at_k, s.elsewhere i, v.edges i);
}

pub IsSinking-settled :
    (size : ℕ) (w : ℕ → ℕ) (k : ℕ)
    → ((i : ℕ) → 0 < i → i < size → up_of i ≡ k → w k ≤ w i)
    → IsSinking size w k
    → IsOrdered size w
IsSinking-settled size w k h v c p q = ground (arith, v.edges c, h c)
