-- ===== src/Heap/Top.antt =====
-- solver/src/indexed_min_heap.hpp: top_key and top_id.
use opt_solver.Base.{
  ℕ, zero, suc, ◌≤◌, ◌<◌, ◌≡◌, refl, sym, ap, subst, ◌∙◌, inl, inr, true, false, List, [], ◌∷◌,
  length, get_or, some, none, is_empty, if_true, if_false, Bool-cases, arith, some_inj,
}
use opt_solver.Base.Ints.{ℤ, pos, negsuc}
use opt_solver.Heap.{Entry, Heap, Keys, size, up_of, before, entry_at, top}
use opt_solver.Heap.Rank.{IsRanked, before-weight, IsOrdered}
use opt_solver.Heap.Slots.{key_at, lookup}
use opt_solver.Heap.Hand.{weights}
use opt_solver.Heap.Push.{IsHeap}

-- The value at the root is the least.
root_least :
    (size : ℕ) (w : ℕ → ℕ) → IsOrdered size w → (fuel j : ℕ) → j < fuel → j < size → w 0 ≤ w j
root_least size w v zero j f lt = absurd (omega arith)
root_least size w v (suc fuel) zero f lt = omega arith
root_least size w v (suc fuel) (suc j) f lt = omega (
  arith,
  v (suc j) (omega arith) lt,
  root_least size w v fuel (up_of (suc j)) (omega arith) (omega arith),
)

nonempty : {A : Type 0} (xs : List A) → 0 < length xs → is_empty xs ≡ false
nonempty [] h = absurd (omega arith)
nonempty (x ∷ xs) h = refl

pub empty_length : {A : Type 0} (xs : List A) → is_empty xs ≡ true → length xs ≡ 0
empty_length [] e = refl
empty_length (x ∷ xs) e = absurd (ground arith)

pub nonempty_length : {A : Type 0} (xs : List A) → is_empty xs ≡ false → 0 < length xs
nonempty_length [] e = absurd (ground arith)
nonempty_length (x ∷ xs) e = omega arith

pub no_entry : {A : Type 0} {a : A} → none ≡ some a → ⊥
no_entry e = ground arith

module _ {K : Type 0} (o : Keys K) (rank : K → ℕ) (n : ℕ) (ranked : IsRanked o rank) {h : Heap K}
    (v : IsHeap o rank n h) where
  open v.indexed use {wide, placed, named}

  abbrev first : Entry K
  first = entry_at o h 0

  place_of :
      (i : ℕ) (key : K) (z : ℤ)
      → get_or h.places i (negsuc 0) ≡ z
      → key_at o h z ≡ some key
      → (j : ℕ) × (j < size h) × (entry_at o h j ≡ record { key = key; id = i })
  place_of i key (negsuc j) e f = absurd (ground arith)
  place_of i key (pos j) e f = let (lt, same) = named i j e in (j, lt, cc (same, some_inj f))

  found :
      (i : ℕ) (key : K)
      → lookup o h i ≡ some key
      → (j : ℕ) × (j < size h) × (entry_at o h j ≡ record { key = key; id = i })
  unfolding lookup
  found i key e = place_of i key (get_or h.places i (negsuc 0)) refl e

  pub lookup_at : (j : ℕ) → j < size h → lookup o h (entry_at o h j).id ≡ some (entry_at o h j).key
  unfolding lookup
  lookup_at j lt = ap (key_at o h) (placed j lt)

  not_before_first : (j : ℕ) → j < size h → before o (entry_at o h j) first ≡ false
  not_before_first j lt =
      let least = root_least (size h) (weights o rank n h) v.ordered (suc j) j (omega arith) lt in
      let e =
        before-weight o rank n (entry_at o h j) first ranked (v.indexed.inside j lt)
          (v.indexed.inside 0 (omega arith)) in
      ground arith

  -- While some id has a key, there is a top: an entry of the heap before which no entry comes, where the keys
  -- are ordered like numbers.
  pub top_least :
      (i : ℕ) (key : K)
      → lookup o h i ≡ some key
      → (t : Entry K) × (top o h ≡ some t)
        × (lookup o h t.id ≡ some t.key)
        × (before o (record { key = key; id = i }) t ≡ false)
  unfolding top
  top_least i key e =
      let (j, lt, at) : (j : ℕ) × (j < size h) × (entry_at o h j ≡ record { key = key; id = i }) =
        found i key e in
      (
        first,
        if_false (is_empty h.entries) _ _ (nonempty h.entries (omega arith)),
        lookup_at 0 (omega arith),
        subst (λ y. before o y first ≡ false) at (not_before_first j lt),
      )

  pub top-lookup : (t : Entry K) → top o h ≡ some t → lookup o h t.id ≡ some t.key
  unfolding top
  top-lookup t e = elim (Bool-cases (is_empty h.entries)) [
    | inl empty ↦ absurd (no_entry (sym (if_true (is_empty h.entries) _ _ empty) ∙ e))
    | inr full ↦
        subst (λ z. lookup o h z.id ≡ some z.key)
          (some_inj (sym (if_false (is_empty h.entries) _ _ full) ∙ e))
          (lookup_at 0 (nonempty_length h.entries full))
  ]
