-- ===== src/Heap/Slots.antt =====
-- solver/src/indexed_min_heap.hpp: the places of the ids, with one entry in hand and its place free, and the
-- heap as a map from ids to keys.
use opt_solver.Base.{
  ℕ, ◌<◌, ◌≡◌, ◌≢◌, refl, sym, ap, subst, ◌∙◌, ◌==◌, if◌then◌else◌, length, get_or, Option, some,
  none, if_true, if_false, arith, ℕ_discrete, get_or-set_ne, get_or-set_same, length-set,
}
use opt_solver.Base.Ints.{pos_inj, ℤ, pos, negsuc}
use opt_solver.Heap.{Entry, Heap, Keys, size, place, entry_at}

module _ {K : Type 0} (o : Keys K) where
  -- The key of an id, the abstract view of the heap.
  abbrev pub key_at : Heap K → ℤ → Option K
  key_at h (pos k) = some (entry_at o h k).key
  key_at h (negsuc k) = none

  unfoldable pub lookup : Heap K → ℕ → Option K
  lookup h id = key_at h (get_or h.places id (negsuc 0))

  -- pos_ gives the place of each entry, and only that.
  pub record IsIndexed (n : ℕ) (h : Heap K) : Type 0 where
    pub wide : length h.places ≡ n
    pub inside : (j : ℕ) → j < size h → (entry_at o h j).id < n
    pub placed : (j : ℕ) → j < size h → get_or h.places (entry_at o h j).id (negsuc 0) ≡ pos j
    pub named :
        (i j : ℕ) → get_or h.places i (negsuc 0) ≡ pos j → (j < size h) × ((entry_at o h j).id ≡ i)

  -- The same with x in hand and place k free.
  pub record IsLoose (n : ℕ) (h : Heap K) (k : ℕ) (x : Entry K) : Type 0 where
    pub here : k < size h
    pub own : x.id < n
    pub wide : length h.places ≡ n
    pub inside : (j : ℕ) → j < size h → j ≢ k → (entry_at o h j).id < n
    pub apart : (j : ℕ) → j < size h → j ≢ k → (entry_at o h j).id ≢ x.id
    pub placed :
        (j : ℕ) → j < size h → j ≢ k → get_or h.places (entry_at o h j).id (negsuc 0) ≡ pos j
    pub named :
        (i j : ℕ)
        → i ≢ x.id
        → get_or h.places i (negsuc 0) ≡ pos j
        → (j < size h) × (j ≢ k) × ((entry_at o h j).id ≡ i)

  abbrev pub lookup_with : Heap K → Entry K → ℕ → Option K
  lookup_with h x i = if i == x.id then some x.key else lookup h i

  pub size-place : (h : Heap K) (k : ℕ) (e : Entry K) → size (place h k e) ≡ size h
  unfolding place
  size-place h k e = length-set h.entries k e

  wide-place : (h : Heap K) (k : ℕ) (e : Entry K) → length (place h k e).places ≡ length h.places
  unfolding place
  wide-place h k e = length-set h.places e.id (pos k)

  module _ {n : ℕ} {h : Heap K} {k : ℕ} {x : Entry K} (l : IsLoose n h k x) where
    module _ (c : ℕ) (lt : c < size h) (ne : c ≢ k) where
      abbrev moved : Heap K
      moved = place h k (entry_at o h c)

      pub entry-moved : (j : ℕ) → j ≢ k → entry_at o moved j ≡ entry_at o h j
      unfolding place
      entry-moved j d = get_or-set_ne h.entries k j (entry_at o h c) o.outside (λ e. d (sym e))

      pub entry-moved_k : entry_at o moved k ≡ entry_at o h c
      unfolding place
      entry-moved_k = get_or-set_same h.entries k (entry_at o h c) o.outside l.here

      places-moved :
          (i : ℕ)
          → i ≢ (entry_at o h c).id
          → get_or moved.places i (negsuc 0) ≡ get_or h.places i (negsuc 0)
      unfolding place
      places-moved i d =
          get_or-set_ne h.places (entry_at o h c).id i (pos k) (negsuc 0) (λ e. d (sym e))

      places-moved_c : get_or moved.places (entry_at o h c).id (negsuc 0) ≡ pos k
      unfolding place
      places-moved_c =
          get_or-set_same h.places (entry_at o h c).id (pos k) (negsuc 0)
            (omega (arith, l.inside c lt ne, l.wide))

      -- Another entry has another id.
      other_id : (j : ℕ) → j < size h → j ≢ k → j ≢ c → (entry_at o h j).id ≢ (entry_at o h c).id
      other_id j p q d e = d (
          pos_inj
            (sym (l.placed j p q) ∙ ap (λ i. get_or h.places i (negsuc 0)) e ∙ l.placed c lt ne))

      -- Every entry but the one at c, which is now at k.
      moved_cases :
          (P : ℕ → Entry K → Type 0)
          → P k (entry_at o h c)
          → ((j : ℕ) → j < size h → j ≢ k → j ≢ c → P j (entry_at o h j))
          → (j : ℕ) → j < size moved
          → j ≢ c
          → P j (entry_at o moved j)
      moved_cases P first rest j p d = elim (ℕ_discrete j k) [
        | yes e ↦
            subst (λ z. P z (entry_at o moved z)) (sym e) (subst (P k) (sym entry-moved_k) first)
        | no q ↦
            subst (P j) (sym (entry-moved j q))
              (rest j (omega (arith, size-place h k (entry_at o h c))) q d)
      ]

      moved_named :
          (i j : ℕ)
          → i ≢ x.id
          → get_or moved.places i (negsuc 0) ≡ pos j
          → (j < size moved) × (j ≢ c) × ((entry_at o moved j).id ≡ i)
      moved_named i j d e = elim (ℕ_discrete i (entry_at o h c).id) [
        | yes f ↦
            let jk : k ≡ j =
              pos_inj
                (sym places-moved_c ∙ sym (ap (λ z. get_or moved.places z (negsuc 0)) f) ∙ e) in
            subst (λ z. (z < size moved) × (z ≢ c) × ((entry_at o moved z).id ≡ i)) jk
              (
                omega (arith, l.here, size-place h k (entry_at o h c)),
                λ q. ne (sym q),
                ap (λ y. y.id) entry-moved_k ∙ sym f,
              )
        | no f ↦
            let (p, q, g) : (j < size h) × (j ≢ k) × ((entry_at o h j).id ≡ i) =
              l.named i j d (sym (places-moved i f) ∙ e) in
            (
              omega (arith, size-place h k (entry_at o h c)),
              λ y. f (sym g ∙ ap (λ z. (entry_at o h z).id) y),
              ap (λ y. y.id) (entry-moved j q) ∙ g,
            )
      ]

      pub IsLoose-move : IsLoose n moved c x
      IsLoose-move = record {
        here = omega (arith, size-place h k (entry_at o h c));
        own = l.own;
        wide = wide-place h k (entry_at o h c) ∙ l.wide;
        inside = moved_cases (λ j e. e.id < n) (l.inside c lt ne) (λ j p q d. l.inside j p q);
        apart = moved_cases (λ j e. e.id ≢ x.id) (l.apart c lt ne) (λ j p q d. l.apart j p q);
        placed =
            moved_cases (λ j e. get_or moved.places e.id (negsuc 0) ≡ pos j) places-moved_c
              (λ j p q d. places-moved (entry_at o h j).id (other_id j p q d) ∙ l.placed j p q);
        named = moved_named;
      }

      key_at-moved :
          (i : ℕ) (z : ℤ)
          → i ≢ x.id
          → get_or h.places i (negsuc 0) ≡ z
          → key_at moved z ≡ key_at h z
      key_at-moved i (negsuc j) d e = refl
      key_at-moved i (pos j) d e = ap (λ y. some y.key) (entry-moved j (l.named i j d e).1)

      lookup-moved : (i : ℕ) → i ≢ x.id → lookup moved i ≡ lookup h i
      unfolding lookup
      lookup-moved i d = elim (ℕ_discrete i (entry_at o h c).id) [
        | yes f ↦
            ap (λ z. key_at moved (get_or moved.places z (negsuc 0))) f
            ∙ ap (key_at moved) places-moved_c
            ∙ ap (λ y. some y.key) entry-moved_k
            ∙ ap (key_at h) (sym (l.placed c lt ne))
            ∙ ap (λ z. key_at h (get_or h.places z (negsuc 0))) (sym f)
        | no f ↦
            ap (key_at moved) (places-moved i f)
            ∙ key_at-moved i (get_or h.places i (negsuc 0)) d refl
      ]

      pub lookup_with-move : (i : ℕ) → lookup_with moved x i ≡ lookup_with h x i
      lookup_with-move i = elim (ℕ_discrete i x.id) [
        | yes e ↦
            if_true (i == x.id) _ _ (ground arith) ∙ sym (if_true (i == x.id) _ _ (ground arith))
        | no d ↦
            if_false (i == x.id) _ _ (ground arith)
            ∙ lookup-moved i d
            ∙ sym (if_false (i == x.id) _ _ (ground arith))
      ]

    abbrev settled : Heap K
    settled = place h k x

    pub entry-settled : (j : ℕ) → j ≢ k → entry_at o settled j ≡ entry_at o h j
    unfolding place
    entry-settled j d = get_or-set_ne h.entries k j x o.outside (λ e. d (sym e))

    pub entry-settled_k : entry_at o settled k ≡ x
    unfolding place
    entry-settled_k = get_or-set_same h.entries k x o.outside l.here

    places-settled :
        (i : ℕ) → i ≢ x.id → get_or settled.places i (negsuc 0) ≡ get_or h.places i (negsuc 0)
    unfolding place
    places-settled i d = get_or-set_ne h.places x.id i (pos k) (negsuc 0) (λ e. d (sym e))

    places-settled_x : get_or settled.places x.id (negsuc 0) ≡ pos k
    unfolding place
    places-settled_x =
        get_or-set_same h.places x.id (pos k) (negsuc 0) (omega (arith, l.own, l.wide))

    settled_cases :
        (P : ℕ → Entry K → Type 0)
        → P k x
        → ((j : ℕ) → j < size h → j ≢ k → P j (entry_at o h j))
        → (j : ℕ) → j < size settled
        → P j (entry_at o settled j)
    settled_cases P first rest j p = elim (ℕ_discrete j k) [
      | yes e ↦
          subst (λ z. P z (entry_at o settled z)) (sym e) (subst (P k) (sym entry-settled_k) first)
      | no q ↦ subst (P j) (sym (entry-settled j q)) (rest j (omega (arith, size-place h k x)) q)
    ]

    settled_named :
        (i j : ℕ)
        → get_or settled.places i (negsuc 0) ≡ pos j
        → (j < size settled) × ((entry_at o settled j).id ≡ i)
    settled_named i j e = elim (ℕ_discrete i x.id) [
      | yes f ↦
          let jk : k ≡ j =
            pos_inj
              (sym places-settled_x ∙ sym (ap (λ z. get_or settled.places z (negsuc 0)) f) ∙ e) in
          subst (λ z. (z < size settled) × ((entry_at o settled z).id ≡ i)) jk
            (omega (arith, l.here, size-place h k x), ap (λ y. y.id) entry-settled_k ∙ sym f)
      | no d ↦
          let (p, q, g) : (j < size h) × (j ≢ k) × ((entry_at o h j).id ≡ i) =
            l.named i j d (sym (places-settled i d) ∙ e) in
          (omega (arith, size-place h k x), ap (λ y. y.id) (entry-settled j q) ∙ g)
    ]

    pub IsIndexed-settle : IsIndexed n settled
    IsIndexed-settle = record {
      wide = wide-place h k x ∙ l.wide;
      inside = settled_cases (λ j e. e.id < n) l.own (λ j p q. l.inside j p q);
      placed =
          settled_cases (λ j e. get_or settled.places e.id (negsuc 0) ≡ pos j) places-settled_x
            (λ j p q. places-settled (entry_at o h j).id (l.apart j p q) ∙ l.placed j p q);
      named = settled_named;
    }

    key_at-settled :
        (i : ℕ) (z : ℤ)
        → i ≢ x.id
        → get_or h.places i (negsuc 0) ≡ z
        → key_at settled z ≡ key_at h z
    key_at-settled i (negsuc j) d e = refl
    key_at-settled i (pos j) d e = ap (λ y. some y.key) (entry-settled j (l.named i j d e).1)

    pub lookup-settle : (i : ℕ) → lookup settled i ≡ lookup_with h x i
    unfolding lookup
    lookup-settle i = elim (ℕ_discrete i x.id) [
      | yes e ↦
          ap (λ z. key_at settled (get_or settled.places z (negsuc 0))) e
          ∙ ap (key_at settled) places-settled_x
          ∙ ap (λ y. some y.key) entry-settled_k
          ∙ sym (if_true (i == x.id) _ _ (ground arith))
      | no d ↦
          ap (key_at settled) (places-settled i d)
          ∙ key_at-settled i (get_or h.places i (negsuc 0)) d refl
          ∙ sym (if_false (i == x.id) _ _ (ground arith))
    ]
