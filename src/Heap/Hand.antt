-- ===== src/Heap/Hand.antt =====
-- solver/src/indexed_min_heap.hpp: the numbers in a heap with one entry in hand, and what a sift ends with.
use opt_solver.Base.{
  ℕ, ◌<◌, ◌≡◌, ◌≢◌, sym, ap, ◌∙◌, ltb, ◌==◌, if◌then◌else◌, if_true, if_false, arith, ℕ_discrete,
}
use opt_solver.Heap.{Entry, Heap, Keys, size, place, up_of, before, entry_at}
use opt_solver.Heap.Rank.{IsRanked, weight, before-weight, IsOrdered, IsSwapped}
use opt_solver.Heap.Slots.{
  lookup, lookup_with, IsIndexed, IsLoose, size-place, lookup_with-move, IsIndexed-settle,
  lookup-settle, entry-moved, entry-moved_k, entry-settled, entry-settled_k,
}

module _ {K : Type 0} (o : Keys K) (rank : K → ℕ) (n : ℕ) where
  abbrev pub weights : Heap K → ℕ → ℕ
  weights h i = weight rank n (entry_at o h i)

  -- The weights with x at place k.
  abbrev pub hand : Heap K → ℕ → Entry K → ℕ → ℕ
  hand h k x i = if i == k then weight rank n x else weights h i

  pub hand_here : (h : Heap K) (k : ℕ) (x : Entry K) → hand h k x k ≡ weight rank n x
  hand_here h k x = if_true (k == k) _ _ (ground arith)

  pub hand_other : (h : Heap K) (k : ℕ) (x : Entry K) (i : ℕ) → i ≢ k → hand h k x i ≡ weights h i
  hand_other h k x i d = if_false (i == k) _ _ (ground arith)

  -- A sift of x has ended with the heap r.
  pub record IsSifted (h : Heap K) (x : Entry K) (r : Heap K) : Type 0 where
    pub sized : size r ≡ size h
    pub indexed : IsIndexed o n r
    pub ordered : IsOrdered (size r) (weights r)
    pub seen : (i : ℕ) → lookup o r i ≡ lookup_with o h x i

  module _ {h : Heap K} {k : ℕ} {x : Entry K} (l : IsLoose o n h k x) where
    pub IsSwapped-hand :
        (c : ℕ)
        → c < size h
        → c ≢ k
        → IsSwapped (hand h k x) (hand (place h k (entry_at o h c)) c x) k c
    IsSwapped-hand c lt ne = record {
      at_k =
          hand_other (place h k (entry_at o h c)) c x k (λ e. ne (sym e))
          ∙ ap (weight rank n) (entry-moved_k o l c lt ne)
          ∙ sym (hand_other h k x c ne);
      at_c = hand_here (place h k (entry_at o h c)) c x ∙ sym (hand_here h k x);
      elsewhere = λ i p q.
          hand_other (place h k (entry_at o h c)) c x i q
          ∙ ap (weight rank n) (entry-moved o l c lt ne i p)
          ∙ sym (hand_other h k x i p);
    }

    weights-settled : (i : ℕ) → weights (place h k x) i ≡ hand h k x i
    weights-settled i = elim (ℕ_discrete i k) [
      | yes e ↦
          ap (weights (place h k x)) e
          ∙ ap (weight rank n) (entry-settled_k o l)
          ∙ sym (if_true (i == k) _ _ (ground arith))
      | no d ↦ ap (weight rank n) (entry-settled o l i d) ∙ sym (hand_other h k x i d)
    ]

    pub IsSifted-settle : IsOrdered (size h) (hand h k x) → IsSifted h x (place h k x)
    IsSifted-settle ordered = record {
      sized = size-place o h k x;
      indexed = IsIndexed-settle o l;
      ordered = λ c p q. omega (
        arith,
        weights-settled c,
        weights-settled (up_of c),
        ordered c p (omega (arith, size-place o h k x)),
      );
      seen = lookup-settle o l;
    }

    pub IsSifted-move :
        (c : ℕ) (r : Heap K)
        → c < size h
        → c ≢ k
        → IsSifted (place h k (entry_at o h c)) x r
        → IsSifted h x r
    IsSifted-move c r lt ne s = record {
      sized = s.sized ∙ size-place o h k (entry_at o h c);
      indexed = s.indexed;
      ordered = s.ordered;
      seen = λ i. s.seen i ∙ lookup_with-move o l c lt ne i;
    }

    -- The comparison of an entry with the one in hand.
    pub before-hand :
        IsRanked o rank
        → (c : ℕ) → c < size h
        → c ≢ k
        → (before o x (entry_at o h c) ≡ ltb (hand h k x k) (hand h k x c))
          × (before o (entry_at o h c) x ≡ ltb (hand h k x c) (hand h k x k))
    before-hand ranked c lt ne =
        let here = hand_here h k x in
        let other = hand_other h k x c ne in
        (
          before-weight o rank n x (entry_at o h c) ranked l.own (l.inside c lt ne)
              ∙ ap (λ z. ltb z (weights h c)) (sym here)
              ∙ ap (ltb (hand h k x k)) (sym other),
          before-weight o rank n (entry_at o h c) x ranked (l.inside c lt ne) l.own
              ∙ ap (λ z. ltb z (weight rank n x)) (sym other)
              ∙ ap (ltb (hand h k x c)) (sym here),
        )
