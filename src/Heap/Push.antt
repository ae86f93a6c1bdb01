-- ===== src/Heap/Push.antt =====
-- solver/src/indexed_min_heap.hpp: push_or_decrease.
use opt_solver.Base.{
  ℕ, ◌+◌, ◌*◌, ◌≤◌, ◌<◌, ◌≡◌, ◌≢◌, refl, sym, ap, subst, ◌∙◌, false, List, [], ◌∷◌, ◌++◌, ltb, ◌==◌,
  if◌then◌else◌, length, get_or, set, some, if_true, if_false, arith, dec_lt, ℕ_discrete,
  get_or-set_ne, get_or-set_same, length-set, get_or-append, length-append, length-replicate,
  get_or-replicate,
}
use opt_solver.Base.Ints.{pos_inj, not_both, ℤ, pos, negsuc}
use opt_solver.Heap.{
  Entry, Heap, Keys, reset, size, up_of, entry_at, up_loop, sift_up, push_at, push_or_decrease,
}
use native.Mathlib.Nat.{mul-le-mul_right}
use opt_solver.Heap.Rank.{IsRanked, weight, IsOrdered, IsRising}
use opt_solver.Heap.Slots.{key_at, lookup, IsIndexed, IsLoose}
use opt_solver.Heap.Hand.{weights, hand, hand_here, hand_other, IsSifted}
use opt_solver.Heap.Up.{up_loop-IsSifted}

last_of : {A : Type 0} (xs : List A) (x d : A) → get_or (xs ++ x ∷ []) (length xs) d ≡ x
last_of [] x d = refl
last_of (y ∷ xs) x d = last_of xs x d

module _ {K : Type 0} (o : Keys K) (rank : K → ℕ) (n : ℕ) where
  -- pos_ and heap_ agree, and no entry is less than its parent.
  pub record IsHeap (h : Heap K) : Type 0 where
    pub indexed : IsIndexed o n h
    pub ordered : IsOrdered (size h) (weights o rank n h)

  pub IsHeap-sifted : {h : Heap K} {x : Entry K} (r : Heap K) → IsSifted o rank n h x r → IsHeap r
  IsHeap-sifted r s = record { indexed = s.indexed; ordered = s.ordered }

  -- An empty heap over the ids below n.
  pub IsHeap-reset : IsHeap (reset n)
  unfolding reset
  IsHeap-reset = record {
    indexed = record {
      wide = length-replicate n (negsuc 0);
      inside = λ j lt. absurd (omega arith);
      placed = λ j lt. absurd (omega arith);
      named = λ i j e. absurd (not_both (get_or-replicate n i (negsuc 0)) e);
    };
    ordered = λ c p q. absurd (omega arith);
  }

  module _ (ranked : IsRanked o rank) {h : Heap K} (v : IsHeap h) (id : ℕ) (inside : id < n)
      (key : K) where
    open v.indexed use {wide, placed, named}

    abbrev x : Entry K
    x = record { key = key; id = id }

    -- A new entry at the end.
    module _ (p : ℕ) (absent : get_or h.places id (negsuc 0) ≡ negsuc p) where
      abbrev longer : Heap K
      longer = record h { entries = h.entries ++ x ∷ [] }

      size-longer : size longer ≡ size h + 1
      size-longer = length-append h.entries (x ∷ [])

      entry-longer : (j : ℕ) → j < size h → entry_at o longer j ≡ entry_at o h j
      entry-longer j lt =
          get_or-append h.entries (x ∷ []) j o.outside ∙ if_true (ltb j (size h)) _ _ (ground arith)

      entry-longer_last : entry_at o longer (size h) ≡ x
      entry-longer_last = last_of h.entries x o.outside

      old : (j : ℕ) → j < size longer → j ≢ size h → j < size h
      old j lt ne = elim (dec_lt j (size h)) [
        | yes p ↦ p
        | no ge ↦ absurd (ne (omega (arith, size-longer)))
      ]

      IsLoose-longer : IsLoose o n longer (size h) x
      IsLoose-longer = record {
        here = omega (arith, size-longer);
        own = inside;
        wide = wide;
        inside = λ j lt ne.
            subst (λ e. e.id < n) (sym (entry-longer j (old j lt ne)))
              (v.indexed.inside j (old j lt ne));
        apart = λ j lt ne e. not_both absent (
            ap (λ z. get_or h.places z (negsuc 0))
              (sym e ∙ ap (λ y. y.id) (entry-longer j (old j lt ne)))
            ∙ placed j (old j lt ne));
        placed = λ j lt ne.
            ap (λ e. get_or h.places e.id (negsuc 0)) (entry-longer j (old j lt ne))
            ∙ placed j (old j lt ne);
        named = λ i j ne e.
            let (lt, same) = named i j e in
            (
              omega (arith, size-longer),
              λ q. absurd (omega arith),
              ap (λ y. y.id) (entry-longer j lt) ∙ same,
            );
      }

      weights-longer :
          (i : ℕ) → i < size h → hand o rank n longer (size h) x i ≡ weights o rank n h i
      weights-longer i lt =
          hand_other o rank n longer (size h) x i (λ e. absurd (omega arith))
          ∙ ap (weight rank n) (entry-longer i lt)

      IsRising-longer : IsRising (size longer) (hand o rank n longer (size h) x) (size h)
      IsRising-longer = record {
        edges = λ c p q ne.
            let lt = old c q ne in
            omega (
              arith,
              weights-longer c lt,
              weights-longer (up_of c) (omega arith),
              v.ordered c p lt,
            );
        bridged = λ c p q e u. absurd (omega (arith, size-longer));
      }

      lookup-longer : (i : ℕ) → lookup o longer i ≡ lookup o h i
      unfolding lookup
      lookup-longer i = key_at-longer (get_or h.places i (negsuc 0)) refl
        where
          key_at-longer :
              (z : ℤ) → get_or h.places i (negsuc 0) ≡ z → key_at o longer z ≡ key_at o h z
          key_at-longer (negsuc j) e = refl
          key_at-longer (pos j) e = ap (λ y. some y.key) (entry-longer j (named i j e).0)

    -- A lower key for the entry at p.
    module _ (p : ℕ) (present : get_or h.places id (negsuc 0) ≡ pos p)
        (lower : rank key ≤ rank (entry_at o h p).key) where
      abbrev lowered : Heap K
      lowered = record h { entries = set h.entries p (record (entry_at o h p) { key = key }) }

      size-lowered : size lowered ≡ size h
      size-lowered = length-set h.entries p (record (entry_at o h p) { key = key })

      at_p : (p < size h) × ((entry_at o h p).id ≡ id)
      at_p = named id p present

      entry-lowered : (j : ℕ) → j ≢ p → entry_at o lowered j ≡ entry_at o h j
      entry-lowered j ne =
          get_or-set_ne h.entries p j (record (entry_at o h p) { key = key }) o.outside
            (λ e. ne (sym e))

      entry-lowered_p : entry_at o lowered p ≡ x
      entry-lowered_p =
          get_or-set_same h.entries p (record (entry_at o h p) { key = key }) o.outside at_p.0
          ∙ ap (λ z. record { key = key; id = z }) at_p.1

      IsLoose-lowered : IsLoose o n lowered p x
      IsLoose-lowered = record {
        here = omega (arith, size-lowered, at_p.0);
        own = inside;
        wide = wide;
        inside = λ j lt ne.
            subst (λ e. e.id < n) (sym (entry-lowered j ne))
              (v.indexed.inside j (omega (arith, size-lowered)));
        apart = λ j lt ne e. ne (
            pos_inj (
              sym (placed j (omega (arith, size-lowered)))
              ∙ ap (λ z. get_or h.places z (negsuc 0))
                  (sym (ap (λ y. y.id) (entry-lowered j ne)) ∙ e)
              ∙ present));
        placed = λ j lt ne.
            ap (λ e. get_or h.places e.id (negsuc 0)) (entry-lowered j ne)
            ∙ placed j (omega (arith, size-lowered));
        named = λ i j ne e.
            let (lt, same) = named i j e in
            let apart : j ≢ p = λ q. ne (sym same ∙ ap (λ z. (entry_at o h z).id) q ∙ at_p.1) in
            (omega (arith, size-lowered), apart, ap (λ y. y.id) (entry-lowered j apart) ∙ same);
      }

      weights-lowered : (i : ℕ) → i ≢ p → hand o rank n lowered p x i ≡ weights o rank n h i
      weights-lowered i ne =
          hand_other o rank n lowered p x i ne ∙ ap (weight rank n) (entry-lowered i ne)

      weights-lowered_p : hand o rank n lowered p x p ≤ weights o rank n h p
      weights-lowered_p =
          let same = at_p.1 in
          let m : rank key * n ≤ rank (entry_at o h p).key * n = mul-le-mul_right n lower in
          omega (arith, hand_here o rank n lowered p x)

      hand_le : (i : ℕ) → hand o rank n lowered p x i ≤ weights o rank n h i
      hand_le i = elim (ℕ_discrete i p) [
        | yes e ↦
            subst (λ z. hand o rank n lowered p x z ≤ weights o rank n h z) (sym e)
              weights-lowered_p
        | no ne ↦ omega (arith, weights-lowered i ne)
      ]

      IsRising-lowered : IsRising (size lowered) (hand o rank n lowered p x) p
      IsRising-lowered = record {
        edges = λ c q lt ne. omega (
          arith,
          hand_le (up_of c),
          weights-lowered c ne,
          v.ordered c q (omega (arith, size-lowered)),
        );
        bridged = λ c q lt e u.
            let ne : c ≢ p = λ f. absurd (omega arith) in
            let up : weights o rank n h (up_of c) ≡ weights o rank n h p =
              ap (weights o rank n h) e in
            omega (
              arith,
              hand_le (up_of p),
              weights-lowered c ne,
              v.ordered c q (omega (arith, size-lowered)),
              v.ordered p u at_p.0,
            );
      }

      lookup-lowered : (i : ℕ) → i ≢ id → lookup o lowered i ≡ lookup o h i
      unfolding lookup
      lookup-lowered i ne = key_at-lowered (get_or h.places i (negsuc 0)) refl
        where
          key_at-lowered :
              (z : ℤ) → get_or h.places i (negsuc 0) ≡ z → key_at o lowered z ≡ key_at o h z
          key_at-lowered (negsuc j) e = refl
          key_at-lowered (pos j) e =
              ap (λ y. some y.key)
                (entry-lowered j
                  (λ q. ne (sym (named i j e).1 ∙ ap (λ z. (entry_at o h z).id) q ∙ at_p.1)))

    -- What an operation that gives `id` the key makes of the heap.
    abbrev pub IsUpdated : Heap K → Type 0
    IsUpdated r = IsHeap r × ((i : ℕ) → lookup o r i ≡ (if i == id then some key else lookup o h i))

    sifted_at :
        (g : Heap K) (k : ℕ)
        → entry_at o g k ≡ x
        → IsLoose o n g k x
        → IsRising (size g) (hand o rank n g k x) k
        → ((i : ℕ) → i ≢ id → lookup o g i ≡ lookup o h i)
        → IsUpdated (sift_up o g k)
    unfolding sift_up
    sifted_at g k e l r same =
        let s : IsSifted o rank n g x (up_loop o k g k (entry_at o g k)) =
          subst (λ y. IsSifted o rank n g x (up_loop o k g k y)) (sym e)
            (up_loop-IsSifted o rank n ranked k g k x (omega arith) l r) in
        (
          IsHeap-sifted _ s,
          λ i. s.seen i ∙ (elim (ℕ_discrete i id) [
            | yes f ↦
                if_true (i == id) _ _ (ground arith) ∙ sym (if_true (i == id) _ _ (ground arith))
            | no ne ↦
                if_false (i == id) _ _ (ground arith)
                ∙ same i ne
                ∙ sym (if_false (i == id) _ _ (ground arith))
          ]),
        )

    IsUpdated-at :
        (z : ℤ)
        → get_or h.places id (negsuc 0) ≡ z
        → ((old : K) → key_at o h z ≡ some old → rank key ≤ rank old)
        → IsUpdated (push_at o h id key z)
    unfolding push_at
    IsUpdated-at (negsuc p) e lower =
        sifted_at (longer p e) (size h) (entry-longer_last p e) (IsLoose-longer p e)
          (IsRising-longer p e) (λ i ne. lookup-longer p e i)
    IsUpdated-at (pos p) e lower =
        let less = lower (entry_at o h p).key refl in
        sifted_at (lowered p e less) p (entry-lowered_p p e less) (IsLoose-lowered p e less)
          (IsRising-lowered p e less) (lookup-lowered p e less)

    -- Pushing a key for an id below n that is not in the heap, or lowering its key, keeps the heap and changes the key of
    -- that id alone; the keys are ordered like numbers.
    pub push_or_decrease-IsUpdated :
        ((old : K) → lookup o h id ≡ some old → o.less old key ≡ false)
        → IsUpdated (push_or_decrease o h id key)
    unfolding push_or_decrease lookup
    push_or_decrease-IsUpdated lower =
        IsUpdated-at (get_or h.places id (negsuc 0)) refl
          (λ old e. let f = sym (ranked.less old key) ∙ lower old e in ground arith)
