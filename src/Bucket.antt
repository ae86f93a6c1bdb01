-- ===== src/Bucket.antt =====
-- The two-pass counting sort that coo_to_lower_csc, etree_postorder, build_symmetric_adjacency and
-- build_elimination_tree share: count the items of each bucket, add the counts up to the buckets'
-- starts, then write each item at its bucket's cursor.
pub mod Counts
pub mod Laws
use opt_solver.Base.{
  ℕ, zero, suc, ◌+◌, List, [], ◌∷◌, ◌==◌, if◌then◌else◌, length, get_or, set, replicate,
}

module _ {A : Type 0} (key : A → ℕ) where
  -- The items of bucket j, in order: what the sort is to put there.
  unfoldable pub bucket : ℕ → List A → List A
  bucket j [] = []
  bucket j (x ∷ xs) = let rest = bucket j xs in if key x == j then x ∷ rest else rest

  -- for each item ++count[key]
  unfoldable pub counts : List A → List ℕ → List ℕ
  counts [] count = count
  counts (x ∷ xs) count = counts xs (set count (key x) (get_or count (key x) 0 + 1))

  -- for each item out[cursor[key]++] = item
  unfoldable pub scatter : List A → List A → List ℕ → List A
  scatter [] out cursor = out
  scatter (x ∷ xs) out cursor =
      let at = get_or cursor (key x) 0 in scatter xs (set out at x) (set cursor (key x) (at + 1))

-- ptr[0] = start, and ptr[j + 1] = ptr[j] + count[j]
unfoldable pub prefix_sums : ℕ → List ℕ → List ℕ
prefix_sums start [] = start ∷ []
prefix_sums start (c ∷ count) = start ∷ prefix_sums (start + c) count

-- The starts of n buckets, and the end of the last.
unfoldable pub bucket_ptr : {A : Type 0} (key : A → ℕ) → ℕ → List A → List ℕ
unfolding counts prefix_sums
bucket_ptr key n items = prefix_sums 0 (counts key items (replicate n 0))

-- The whole sort; `d` fills the array before it is written.
unfoldable pub sort_by_key : {A : Type 0} (key : A → ℕ) → A → ℕ → List A → List A
sort_by_key key d n items =
    let ptr = bucket_ptr key n items in scatter key items (replicate (get_or ptr n 0) d) ptr
