-- ===== src/Heap/Up.antt =====
-- solver/src/indexed_min_heap.hpp: sift_up puts an entry that may be less than its parent in its place.
use opt_solver.Base.{
  ℕ, zero, suc, ◌≤◌, ◌<◌, ◌≡◌, ◌≢◌, sym, subst, inl, inr, Bool, true, false, ltb, ◌==◌, arith,
  if_both,
}
use opt_solver.Heap.{Entry, Heap, Keys, size, place, up_of, before, entry_at, up_loop}
use opt_solver.Heap.Rank.{IsRanked, IsRising, IsRising-swap, IsRising-settled}
use opt_solver.Heap.Slots.{IsLoose, IsLoose-move, size-place}
use opt_solver.Heap.Hand.{
  hand, IsSifted, IsSwapped-hand, IsSifted-settle, IsSifted-move, before-hand,
}

up_less : (k : ℕ) → (k == 0) ≡ false → (0 < k) × (up_of k < k)
up_less k e = ground arith

pub less_of : (a b : ℕ) (t : Bool) → t ≡ ltb a b → t ≡ true → a < b
less_of a b t e h = ground arith

pub least_of : (a b : ℕ) (t : Bool) → t ≡ ltb a b → t ≡ false → b ≤ a
least_of a b t e h = ground arith

module _ {K : Type 0} (o : Keys K) (rank : K → ℕ) (n : ℕ) (ranked : IsRanked o rank) where
  pub up_loop-IsSifted :
      (rounds : ℕ) (h : Heap K) (k : ℕ) (x : Entry K)
      → k ≤ rounds
      → IsLoose o n h k x
      → IsRising (size h) (hand o rank n h k x) k
      → IsSifted o rank n h x (up_loop o rounds h k x)
  unfolding up_loop
  up_loop-IsSifted zero h k x le l v =
      IsSifted-settle o rank n l
        (IsRising-settled (size h) (hand o rank n h k x) k (inl (omega arith)) v)
  up_loop-IsSifted (suc rounds) h k x le l v =
      if_both (IsSifted o rank n h x) (k == 0) (place h k x) _
        (λ e.
          IsSifted-settle o rank n l
            (IsRising-settled (size h) (hand o rank n h k x) k (inl (ground arith)) v))
        (λ e.
          let up = up_less k e in
          let lt : up_of k < size h = omega (arith, l.here) in
          let ne : up_of k ≢ k = λ q. absurd (omega (arith, up.1)) in
          let b = before-hand o rank n l ranked (up_of k) lt ne in
          if_both (IsSifted o rank n h x) (before o x (entry_at o h (up_of k))) _ (place h k x)
            (λ less. IsSifted-move o rank n l (up_of k) _ lt ne (
              up_loop-IsSifted rounds (place h k (entry_at o h (up_of k))) (up_of k) x
                (omega (arith, up.1)) (IsLoose-move o l (up_of k) lt ne)
                (subst
                  (λ z.
                    IsRising z (hand o rank n (place h k (entry_at o h (up_of k))) (up_of k) x)
                      (up_of k))
                  (sym (size-place o h k (entry_at o h (up_of k))))
                  (IsRising-swap (size h) (hand o rank n h k x)
                    (hand o rank n (place h k (entry_at o h (up_of k))) (up_of k) x) k up.0 l.here
                    (IsSwapped-hand o rank n l (up_of k) lt ne) (less_of _ _ _ b.0 less) v))))
            (λ more. IsSifted-settle o rank n l (
              IsRising-settled (size h) (hand o rank n h k x) k (inr (least_of _ _ _ b.0 more)) v)))
