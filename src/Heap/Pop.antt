-- ===== src/Heap/Pop.antt =====
-- solver/src/indexed_min_heap.hpp: pop.
use opt_solver.Base.{
  ℕ, ◌-◌, ◌<◌, ◌≡◌, ◌≢◌, refl, sym, ap, subst, ◌∙◌, inl, inr, ◌==◌, if◌then◌else◌, get_or, set,
  take, some, none, is_empty, if_true, if_false, Bool-cases, arith, if_both, dec_lt, ℕ_discrete,
  get_or-set_ne, get_or-set_same, length-set, length-take, get_or-take, some_inj,
}
use opt_solver.Base.Ints.{pos_inj, not_both, ℤ, pos, negsuc}
use opt_solver.Heap.{Entry, Heap, Keys, size, up_of, entry_at, top, sift_down, refill, pop}
use opt_solver.Heap.Rank.{IsRanked, weight, IsSinking}
use opt_solver.Heap.Slots.{key_at, lookup, lookup_with, IsLoose}
use opt_solver.Heap.Hand.{weights, hand, hand_other}
use opt_solver.Heap.Down.{down_loop-IsSifted}
use opt_solver.Heap.Push.{IsHeap, IsHeap-sifted}
use opt_solver.Heap.Top.{empty_length, nonempty_length, no_entry, lookup_at}

module _ {K : Type 0} (o : Keys K) (rank : K → ℕ) (n : ℕ) (ranked : IsRanked o rank) {h : Heap K}
    (v : IsHeap o rank n h) where
  open v.indexed use {wide, placed, named}

  abbrev first : Entry K
  first = entry_at o h 0

  module _ (some_entry : 0 < size h) where
    abbrev last : Entry K
    last = entry_at o h (size h - 1)

    abbrev shorter : Heap K
    shorter = record {
      entries = take (size h - 1) h.entries;
      places = set h.places first.id (negsuc 0);
    }

    size-shorter : size shorter ≡ size h - 1
    size-shorter = omega (arith, length-take (size h - 1) h.entries)

    entry-shorter : (j : ℕ) → j < size h - 1 → entry_at o shorter j ≡ entry_at o h j
    entry-shorter j lt = get_or-take (size h - 1) h.entries j o.outside lt

    places-shorter :
        (i : ℕ) → i ≢ first.id → get_or shorter.places i (negsuc 0) ≡ get_or h.places i (negsuc 0)
    places-shorter i ne = get_or-set_ne h.places first.id i (negsuc 0) (negsuc 0) (λ e. ne (sym e))

    places-shorter_first : get_or shorter.places first.id (negsuc 0) ≡ negsuc 0
    places-shorter_first =
        get_or-set_same h.places first.id (negsuc 0) (negsuc 0)
          (omega (arith, v.indexed.inside 0 some_entry, wide))

    other_id :
        (i j : ℕ) → i < size h → j < size h → i ≢ j → (entry_at o h i).id ≢ (entry_at o h j).id
    other_id i j p q ne e =
        ne (pos_inj (sym (placed i p) ∙ ap (λ z. get_or h.places z (negsuc 0)) e ∙ placed j q))

    -- An id that the shorter heap places was placed there, and is not the first one's.
    kept :
        (i j : ℕ)
        → get_or shorter.places i (negsuc 0) ≡ pos j
        → (i ≢ first.id) × (j < size h) × ((entry_at o h j).id ≡ i) × (j ≢ 0)
    kept i j e =
        let apart : i ≢ first.id =
          λ f. not_both (ap (λ z. get_or shorter.places z (negsuc 0)) f ∙ places-shorter_first) e in
        let (lt, same) = named i j (sym (places-shorter i apart) ∙ e) in
        (apart, lt, same, λ q. apart (sym same ∙ ap (λ z. (entry_at o h z).id) q))

    below : (j : ℕ) → j < size h → j ≢ size h - 1 → j < size h - 1
    below j lt ne = elim (dec_lt j (size h - 1)) [ yes p ↦ p | no ge ↦ absurd (ne (omega arith)) ]

    lookup-shorter : (i : ℕ) → i ≢ first.id → i ≢ last.id → lookup o shorter i ≡ lookup o h i
    unfolding lookup
    lookup-shorter i ne nl =
        ap (key_at o shorter) (places-shorter i ne)
        ∙ key_at-shorter (get_or h.places i (negsuc 0)) refl
      where
        key_at-shorter :
            (z : ℤ) → get_or h.places i (negsuc 0) ≡ z → key_at o shorter z ≡ key_at o h z
        key_at-shorter (negsuc j) e = refl
        key_at-shorter (pos j) e =
            let (lt, same) = named i j e in
            let apart : j ≢ size h - 1 = λ q. nl (sym same ∙ ap (λ z. (entry_at o h z).id) q) in
            ap (λ y. some y.key) (entry-shorter j (below j lt apart))

    lookup-shorter_first : lookup o shorter first.id ≡ none
    unfolding lookup
    lookup-shorter_first = ap (key_at o shorter) places-shorter_first

    -- The first id loses its key, the others keep theirs.
    abbrev pub IsRemoved : Heap K → Type 0
    IsRemoved r =
        IsHeap o rank n r
        × ((i : ℕ) → lookup o r i ≡ (if i == first.id then none else lookup o h i))

    -- The last entry was the only one.
    module _ (single : size shorter ≡ 0) where
      single_id : (i j : ℕ) → get_or h.places i (negsuc 0) ≡ pos j → i ≡ first.id
      single_id i j e =
          let (lt, same) = named i j e in
          let zero_place : j ≡ 0 = omega (arith, size-shorter) in
          sym same ∙ ap (λ z. (entry_at o h z).id) zero_place

      nothing_kept : (i j : ℕ) → get_or shorter.places i (negsuc 0) ≡ pos j → ⊥
      nothing_kept i j e =
          let k = kept i j e in k.0 (single_id i j (sym (places-shorter i k.0) ∙ e))

      IsHeap-single : IsHeap o rank n shorter
      IsHeap-single = record {
        indexed = record {
          wide = length-set h.places first.id (negsuc 0) ∙ wide;
          inside = λ j lt. absurd (omega arith);
          placed = λ j lt. absurd (omega arith);
          named = λ i j e. absurd (nothing_kept i j e);
        };
        ordered = λ c p q. absurd (omega arith);
      }

      lookup-single : (i : ℕ) → lookup o shorter i ≡ (if i == first.id then none else lookup o h i)
      lookup-single i = elim (ℕ_discrete i first.id) [
        | yes e ↦
            ap (lookup o shorter) e
            ∙ lookup-shorter_first
            ∙ sym (if_true (i == first.id) _ _ (ground arith))
        | no ne ↦
            lookup-shorter i ne (λ e. ne (e ∙ ap (λ z. (entry_at o h z).id) only))
            ∙ sym (if_false (i == first.id) _ _ (ground arith))
      ]
        where
          only : size h - 1 ≡ 0
          only = omega (arith, size-shorter)

      IsRemoved-single : IsRemoved shorter
      IsRemoved-single = (IsHeap-single, lookup-single)

    -- The last entry goes to the root.
    module _ (more : 0 < size shorter) where
      ends_differ : size h - 1 ≢ 0
      ends_differ e = absurd (omega (arith, size-shorter))

      last_not_first : last.id ≢ first.id
      last_not_first = other_id (size h - 1) 0 (omega arith) some_entry ends_differ

      within : (j : ℕ) → j < size shorter → (j < size h - 1) × (j < size h)
      within j lt = (omega (arith, size-shorter), omega (arith, size-shorter))

      IsLoose-shorter : IsLoose o n shorter 0 last
      IsLoose-shorter = record {
        here = more;
        own = v.indexed.inside (size h - 1) (omega arith);
        wide = length-set h.places first.id (negsuc 0) ∙ wide;
        inside = λ j lt ne.
            subst (λ e. e.id < n) (sym (entry-shorter j (within j lt).0))
              (v.indexed.inside j (within j lt).1);
        apart = λ j lt ne e.
            other_id j (size h - 1) (within j lt).1 (omega arith)
              (λ q. absurd (omega (arith, size-shorter)))
              (sym (ap (λ y. y.id) (entry-shorter j (within j lt).0)) ∙ e);
        placed = λ j lt ne.
            ap (λ e. get_or shorter.places e.id (negsuc 0)) (entry-shorter j (within j lt).0)
            ∙ places-shorter (entry_at o h j).id (other_id j 0 (within j lt).1 some_entry ne)
            ∙ placed j (within j lt).1;
        named = λ i j ne e.
            let (apart, lt, same, nonzero) = kept i j e in
            let inner = below j lt (λ q. ne (sym same ∙ ap (λ z. (entry_at o h z).id) q)) in
            (omega (arith, size-shorter), nonzero, ap (λ y. y.id) (entry-shorter j inner) ∙ same);
      }

      weights-shorter :
          (i : ℕ) → i ≢ 0 → i < size shorter → hand o rank n shorter 0 last i ≡ weights o rank n h i
      weights-shorter i ne lt =
          hand_other o rank n shorter 0 last i ne
          ∙ ap (weight rank n) (entry-shorter i (within i lt).0)

      IsSinking-shorter : IsSinking (size shorter) (hand o rank n shorter 0 last) 0
      IsSinking-shorter = record {
        edges = λ c p lt ne. omega (
          arith,
          weights-shorter c (λ q. absurd (omega arith)) lt,
          weights-shorter (up_of c) ne (omega arith),
          v.ordered c p (within c lt).1,
        );
        bridged = λ c p lt e u. absurd (omega arith);
      }

      lookup_with-shorter :
          (i : ℕ) → lookup_with o shorter last i ≡ (if i == first.id then none else lookup o h i)
      lookup_with-shorter i = elim (ℕ_discrete i last.id) [
        | yes e ↦
            let apart : i ≢ first.id = λ f. last_not_first (sym e ∙ f) in
            if_true (i == last.id) _ _ (ground arith)
            ∙ sym (lookup_at o rank n ranked v (size h - 1) (omega arith))
            ∙ ap (lookup o h) (sym e)
            ∙ sym (if_false (i == first.id) _ _ (ground arith))
        | no nl ↦ if_false (i == last.id) _ _ (ground arith) ∙ (elim (ℕ_discrete i first.id) [
          | yes e ↦
              ap (lookup o shorter) e
              ∙ lookup-shorter_first
              ∙ sym (if_true (i == first.id) _ _ (ground arith))
          | no ne ↦ lookup-shorter i ne nl ∙ sym (if_false (i == first.id) _ _ (ground arith))
        ])
      ]

      IsRemoved-sifted : IsRemoved (sift_down o shorter last)
      unfolding sift_down
      IsRemoved-sifted =
          let s =
            down_loop-IsSifted o rank n ranked (size shorter) shorter 0 last (omega arith)
              IsLoose-shorter IsSinking-shorter in
          (IsHeap-sifted o rank n _ s, λ i. s.seen i ∙ lookup_with-shorter i)

    IsRemoved-refill : IsRemoved (refill o shorter last)
    unfolding refill
    IsRemoved-refill =
        if_both IsRemoved (is_empty shorter.entries) shorter (sift_down o shorter last)
          (λ e. IsRemoved-single (empty_length shorter.entries e))
          (λ e. IsRemoved-sifted (nonempty_length shorter.entries e))

  -- pop of a heap with an entry removes the id of the top alone and keeps the heap, where the keys are
  -- ordered like numbers.
  pub pop-IsRemoved :
      (t : Entry K)
      → top o h ≡ some t
      → (r : Heap K) × (pop o h ≡ some r)
        × IsHeap o rank n r
        × ((i : ℕ) → lookup o r i ≡ (if i == t.id then none else lookup o h i))
  unfolding top pop
  pop-IsRemoved t e = elim (Bool-cases (is_empty h.entries)) [
    | inl empty ↦ absurd (no_entry (sym (if_true (is_empty h.entries) _ _ empty) ∙ e))
    | inr full ↦
        let some_entry = nonempty_length h.entries full in
        let same : first ≡ t = some_inj (sym (if_false (is_empty h.entries) _ _ full) ∙ e) in
        let rest : Heap K = refill o (shorter some_entry) (last some_entry) in
        let r = IsRemoved-refill some_entry in
        (
          rest,
          if_false (is_empty h.entries) _ _ full,
          r.0,
          subst (λ z. (i : ℕ) → lookup o rest i ≡ (if i == z.id then none else lookup o h i)) same
              r.1,
        )
  ]
