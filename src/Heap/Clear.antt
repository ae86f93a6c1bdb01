-- ===== src/Heap/Clear.antt =====
-- solver/src/indexed_min_heap.hpp: clear.
use opt_solver.Base.{
  ℕ, zero, suc, ◌<◌, ◌≡◌, ◌≢◌, refl, sym, subst, ◌∙◌, List, [], ◌∷◌, length, get_or, set, none,
  arith, dec_lt, ℕ_discrete, get_or-set_ne, get_or-set_same, length-set, get_or-out,
}
use opt_solver.Base.Ints.{not_both, ℤ, pos, negsuc}
use opt_solver.Heap.{Entry, Heap, Keys, clear_places, clear}
use opt_solver.Heap.Slots.{lookup, key_at}
use opt_solver.Heap.Push.{IsHeap}

length-clear_places :
    {K : Type 0} (es : List (Entry K)) (places : List ℤ)
    → length (clear_places es places) ≡ length places
unfolding clear_places
length-clear_places [] places = refl
length-clear_places (e ∷ es) places =
    length-clear_places es (set places e.id (negsuc 0)) ∙ length-set places e.id (negsuc 0)

cleared :
    (places : List ℤ) (i j : ℕ) → i ≡ j → get_or (set places i (negsuc 0)) j (negsuc 0) ≡ negsuc 0
cleared places i j e = elim (dec_lt i (length places)) [
  | yes lt ↦
      subst (λ z. get_or (set places i (negsuc 0)) z (negsuc 0) ≡ negsuc 0) e
        (get_or-set_same places i (negsuc 0) (negsuc 0) lt)
  | no ge ↦
      get_or-out (set places i (negsuc 0)) j (negsuc 0)
        (omega (arith, length-set places i (negsuc 0)))
]

nowhere :
    {K : Type 0} (es : List (Entry K)) (i : ℕ) (d x : Entry K)
    → x.id ≢ i
    → ((k : ℕ) → k < length es → (get_or es k d).id ≢ i)
    → (k : ℕ) → k < length (x ∷ es)
    → (get_or (x ∷ es) k d).id ≢ i
nowhere es i d x ne h zero lt = ne
nowhere es i d x ne h (suc k) lt = h k (omega arith)

-- An id that still has a place had it before, and no entry has that id.
clear_places-get :
    {K : Type 0} (es : List (Entry K)) (places : List ℤ) (i j : ℕ) (d : Entry K)
    → get_or (clear_places es places) i (negsuc 0) ≡ pos j
    → (get_or places i (negsuc 0) ≡ pos j) × ((k : ℕ) → k < length es → (get_or es k d).id ≢ i)
unfolding clear_places
clear_places-get [] places i j d e = (e, λ k lt. absurd (omega arith))
clear_places-get (x ∷ es) places i j d e =
    let (p, q) = clear_places-get es (set places x.id (negsuc 0)) i j d e in
    elim (ℕ_discrete x.id i) [
      | yes same ↦ absurd (not_both (cleared places x.id i same) p)
      | no ne ↦
          (sym (get_or-set_ne places x.id i (negsuc 0) (negsuc 0) ne) ∙ p, nowhere es i d x ne q)
    ]

module _ {K : Type 0} (o : Keys K) (rank : K → ℕ) (n : ℕ) {h : Heap K} (v : IsHeap o rank n h) where
  nothing_placed : (i j : ℕ) → get_or (clear_places h.entries h.places) i (negsuc 0) ≡ pos j → ⊥
  nothing_placed i j e =
      let (p, q) = clear_places-get h.entries h.places i j o.outside e in
      let (lt, same) = v.indexed.named i j p in q j lt same

  -- clear leaves an empty heap over the same ids.
  clear-IsHeap : IsHeap o rank n (clear h) × ((i : ℕ) → lookup o (clear h) i ≡ none)
  unfolding clear lookup
  clear-IsHeap = (
    record {
      indexed = record {
        wide = length-clear_places h.entries h.places ∙ v.indexed.wide;
        inside = λ j lt. absurd (omega arith);
        placed = λ j lt. absurd (omega arith);
        named = λ i j e. absurd (nothing_placed i j e);
      };
      ordered = λ c p q. absurd (omega arith);
    },
    λ i.
        key_at-nothing (get_or (clear_places h.entries h.places) i (negsuc 0))
          (λ j e. nothing_placed i j e),
  )
    where
      key_at-nothing :
          (z : ℤ)
          → ((j : ℕ) → z ≡ pos j → ⊥)
          → key_at o (record { entries = []; places = clear_places h.entries h.places }) z ≡ none
      key_at-nothing (pos j) f = absurd (f j refl)
      key_at-nothing (negsuc j) f = refl
