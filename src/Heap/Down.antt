-- ===== src/Heap/Down.antt =====
-- solver/src/indexed_min_heap.hpp: sift_down puts an entry that may be more than its children in its
-- place, moving the least child up.
use opt_solver.Base.{
  ℕ, zero, suc, ◌+◌, ◌-◌, ◌*◌, ◌≤◌, ◌<◌, ◌≡◌, ◌≢◌, refl, sym, subst, ◌⊎◌, inl, inr, leb, min, arith,
  if_both, ℕ_discrete,
}
use opt_solver.Heap.{
  Entry, Heap, Keys, size, place, up_of, before, entry_at, best_of, best_child, down_loop,
}
use opt_solver.Heap.Rank.{IsRanked, before-weight, IsSinking, IsSinking-swap, IsSinking-settled}
use opt_solver.Heap.Slots.{IsLoose, IsLoose-move, size-place}
use opt_solver.Heap.Hand.{
  weights, hand, hand_other, IsSifted, IsSwapped-hand, IsSifted-settle, IsSifted-move, before-hand,
}
use opt_solver.Heap.Up.{less_of, least_of}

-- `b` is `best` or one of the places c, c + 1, ..., and no more than any of them.
record IsBest (w : ℕ → ℕ) (best c count b : ℕ) : Type 0 where
  range : (b ≡ best) ⊎ ((c ≤ b) × (b < c + count))
  first : w b ≤ w best
  rest : (i : ℕ) → c ≤ i → i < c + count → w b ≤ w i

IsBest-step :
    (w : ℕ → ℕ) (best c count b next : ℕ)
    → (next ≡ best) ⊎ (next ≡ c)
    → w next ≤ w best
    → w next ≤ w c
    → IsBest w next (suc c) count b
    → IsBest w best c (suc count) b
IsBest-step w best c count b next e h k s = record {
  range = ground (arith, s.range);
  first = omega (arith, s.first);
  rest = λ i p q. elim (ℕ_discrete i c) [
    | yes f ↦ subst (λ z. w b ≤ w z) (sym f) (omega (arith, s.first))
    | no d ↦ s.rest i (omega arith) (omega arith)
  ];
}

module _ {K : Type 0} (o : Keys K) (rank : K → ℕ) (n : ℕ) (ranked : IsRanked o rank) where
  best_of-IsBest :
      (h : Heap K) (k : ℕ)
      → ((j : ℕ) → j < size h → j ≢ k → (entry_at o h j).id < n)
      → (count best c : ℕ) → best < size h
      → best ≢ k
      → k < c
      → c + count ≤ size h
      → IsBest (weights o rank n h) best c count (best_of o h best c count)
  unfolding best_of
  best_of-IsBest h k ids zero best c lt ne above inside = record {
    range = inl refl;
    first = omega arith;
    rest = λ i p q. absurd (omega arith);
  }
  best_of-IsBest h k ids (suc count) best c lt ne above inside =
      let nc : c ≢ k = λ e. absurd (omega arith) in
      let e =
        before-weight o rank n (entry_at o h c) (entry_at o h best) ranked (ids c (omega arith) nc)
          (ids best lt ne) in
      if_both
        (λ next. IsBest (weights o rank n h) best c (suc count) (best_of o h next (suc c) count))
        (before o (entry_at o h c) (entry_at o h best)) c best
        (λ less.
          let b = less_of _ _ _ e less in
          IsBest-step (weights o rank n h) best c count _ c (inr refl) (omega arith) (omega arith)
            (best_of-IsBest h k ids count c (suc c) (omega arith) nc (omega arith) (omega arith)))
        (λ more.
          let b = least_of _ _ _ e more in
          IsBest-step (weights o rank n h) best c count _ best (inl refl) (omega arith)
            (omega arith)
            (best_of-IsBest h k ids count best (suc c) lt ne (omega arith) (omega arith)))

  -- The least child of a place that has one.
  record IsLeastChild (h : Heap K) (k b : ℕ) : Type 0 where
    child : up_of b ≡ k
    later : k < b
    inside : b < size h
    least : (i : ℕ) → 0 < i → i < size h → up_of i ≡ k → weights o rank n h b ≤ weights o rank n h i

  IsLeastChild-of :
      (h : Heap K) (k b : ℕ)
      → 4 * k + 1 < size h
      → IsBest
          (weights o rank n h)
          (4 * k + 1)
          (4 * k + 2)
          (min (4 * k + 5) (size h) - (4 * k + 2))
          b
      → IsLeastChild h k b
  IsLeastChild-of h k b lt s = record {
    child = ground (arith, s.range);
    later = ground (arith, s.range);
    inside = ground (arith, s.range);
    least = λ i p q e. elim (ℕ_discrete i (4 * k + 1)) [
      | yes f ↦ subst (λ z. weights o rank n h b ≤ weights o rank n h z) (sym f) s.first
      | no d ↦ s.rest i (omega arith) (omega arith)
    ];
  }

  best_child-IsLeastChild :
      (h : Heap K) (k : ℕ)
      → ((j : ℕ) → j < size h → j ≢ k → (entry_at o h j).id < n)
      → 4 * k + 1 < size h
      → IsLeastChild h k (best_child o h k)
  best_child-IsLeastChild h k ids lt = IsLeastChild-of h k (best_child o h k) lt (
      best_of-IsBest h k ids (min (4 * k + 5) (size h) - (4 * k + 2)) (4 * k + 1) (4 * k + 2) lt
        (λ e. absurd (omega arith)) (omega arith) (omega arith))

  pub down_loop-IsSifted :
      (rounds : ℕ) (h : Heap K) (k : ℕ) (x : Entry K)
      → size h - k ≤ rounds
      → IsLoose o n h k x
      → IsSinking (size h) (hand o rank n h k x) k
      → IsSifted o rank n h x (down_loop o rounds h k x)
  unfolding down_loop
  down_loop-IsSifted zero h k x le l v = absurd (omega (arith, l.here))
  down_loop-IsSifted (suc rounds) h k x le l v =
      let best = best_child o h k in
      if_both (IsSifted o rank n h x) (leb (size h) (4 * k + 1)) (place h k x) _
        (λ e.
          IsSifted-settle o rank n l (
            IsSinking-settled (size h) (hand o rank n h k x) k (λ i p q f. absurd (ground arith))
              v))
        (λ e.
          let c = best_child-IsLeastChild h k l.inside (ground arith) in
          let ne : best ≢ k = λ q. absurd (omega (arith, c.later)) in
          let b = before-hand o rank n l ranked best c.inside ne in
          let least : (i : ℕ)
              → 0 < i
              → i < size h
              → up_of i ≡ k
              → hand o rank n h k x best ≤ hand o rank n h k x i =
            λ i p q f. omega (
              arith,
              c.least i p q f,
              hand_other o rank n h k x best ne,
              hand_other o rank n h k x i (λ g. absurd (omega arith)),
            ) in
          if_both (IsSifted o rank n h x) (before o (entry_at o h best) x) _ (place h k x)
            (λ less. IsSifted-move o rank n l best _ c.inside ne (
              down_loop-IsSifted rounds (place h k (entry_at o h best)) best x
                (omega (arith, c.later, size-place o h k (entry_at o h best)))
                (IsLoose-move o l best c.inside ne)
                (subst
                  (λ z. IsSinking z (hand o rank n (place h k (entry_at o h best)) best x) best)
                  (sym (size-place o h k (entry_at o h best)))
                  (IsSinking-swap (size h) (hand o rank n h k x)
                    (hand o rank n (place h k (entry_at o h best)) best x) k best c.child
                    (omega (arith, c.later)) c.inside (IsSwapped-hand o rank n l best c.inside ne)
                    (less_of _ _ _ b.1 less) least v))))
            (λ more. IsSifted-settle o rank n l (
              IsSinking-settled (size h) (hand o rank n h k x) k
                (λ i p q f. omega (arith, least i p q f, least_of _ _ _ b.1 more)) v)))
