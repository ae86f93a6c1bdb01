-- ===== src/Heap/Queue.antt =====
-- solver/src/indexed_min_heap.hpp: the heap as a priority map. Its users see a function from ids to keys.
use opt_solver.Base.{
  ℕ, ◌<◌, ◌≡◌, sym, ap, subst, ◌∙◌, false, List, [], ◌∷◌, Option, some, none, if◌then◌else◌, ◌==◌,
  some_inj, arith,
}
use opt_solver.Heap.{Entry, Heap, Keys, before, top, push_or_decrease, pop}
use mathlib.Core.Path.{fun_ext}
use opt_solver.Heap.Rank.{IsRanked}
use opt_solver.Heap.Slots.{lookup}
use opt_solver.Heap.Push.{IsHeap, push_or_decrease-IsUpdated}
use opt_solver.Heap.Pop.{pop-IsRemoved}
use opt_solver.Heap.Top.{top_least, top-lookup}

pub data Event (K : Type 0) : Type 0 where
  pushed : ℕ → K → Event K
  popped : Entry K → Event K

module _ {K : Type 0} (o : Keys K) where
  abbrev pub update : (ℕ → Option K) → ℕ → Option K → ℕ → Option K
  update m id w i = if i == id then w else m i

  -- What a priority map promises: a push gives an id below n a key that is not above its old one, a pop
  -- takes an id with its key before which no other comes.
  pub data Promise (n : ℕ) : (ℕ → Option K) → Event K → (ℕ → Option K) → Type 0 where
    push :
        {m : ℕ → Option K} (id : ℕ) (key : K)
        → id < n
        → ((old : K) → m id ≡ some old → o.less old key ≡ false)
        → Promise n m (pushed id key) (update m id (some key))
    take :
        {m : ℕ → Option K} (t : Entry K)
        → m t.id ≡ some t.key
        → ((i : ℕ) (key : K) → m i ≡ some key → before o (record { key = key; id = i }) t ≡ false)
        → Promise n m (popped t) (update m t.id none)

  -- The calls on the heap: an admitted push_or_decrease, and top with pop while there is an entry.
  pub data Call (n : ℕ) : Heap K → Event K → Heap K → Type 0 where
    push :
        {h : Heap K} (id : ℕ) (key : K)
        → id < n
        → ((old : K) → lookup o h id ≡ some old → o.less old key ≡ false)
        → Call n h (pushed id key) (push_or_decrease o h id key)
    take :
        {h r : Heap K} (t : Entry K) → top o h ≡ some t → pop o h ≡ some r → Call n h (popped t) r

  -- A sequence of steps of either kind.
  pub data Run {S : Type 0} (step : S → Event K → S → Type 0)
      : S → List (Event K) → S → Type 0 where
    stop : {s : S} → Run step s [] s
    next :
        {s t u : S} {e : Event K} {es : List (Event K)}
        → step s e t
        → Run step t es u
        → Run step s (e ∷ es) u

  module _ (rank : K → ℕ) (ranked : IsRanked o rank) (n : ℕ) where
    IsHeap-call :
        {h r : Heap K} {e : Event K}
        → IsHeap o rank n h
        → Call n h e r
        → IsHeap o rank n r × Promise n (lookup o h) e (lookup o r)
    IsHeap-call v (push id key lt lower) =
        let u = push_or_decrease-IsUpdated o rank n ranked v id lt key lower in
        (
          u.0,
          subst (Promise n (lookup o _) (pushed id key)) (sym (fun_ext u.1)) (push id key lt lower),
        )
    IsHeap-call {h} {r} v (take t e f) =
        let (r', g, w, same) : (r : Heap K) × (pop o h ≡ some r)
            × IsHeap o rank n r
            × ((i : ℕ) → lookup o r i ≡ update (lookup o h) t.id none i) =
          pop-IsRemoved o rank n ranked v t e in
        let least : (i : ℕ) (key : K)
            → lookup o h i ≡ some key
            → before o (record { key = key; id = i }) t ≡ false =
          λ i key k.
            let (t', p, q, l) = top_least o rank n ranked v i key k in
            subst (λ z. before o (record { key = key; id = i }) z ≡ false) (some_inj (sym p ∙ e))
              l in
        let here : r' ≡ r = some_inj (sym g ∙ f) in
        (
          subst (IsHeap o rank n) here w,
          subst (Promise n (lookup o h) (popped t)) (sym (fun_ext same) ∙ ap (lookup o) here)
              (take t (top-lookup o rank n ranked v t e) least),
        )

    -- Every sequence of admitted calls on a heap is, seen as a function from ids to keys, one that a priority map
    -- promises, and it ends with a heap; the keys are ordered like numbers.
    pub calls-refine :
        (h r : Heap K) (es : List (Event K))
        → IsHeap o rank n h
        → Run (Call n) h es r
        → IsHeap o rank n r × Run (Promise n) (lookup o h) es (lookup o r)
    calls-refine h r es v stop = (v, stop)
    calls-refine h r es v (next {t} {es = rest} c run) =
        let (w, p) = IsHeap-call v c in let (x, q) = calls-refine t r rest w run in (x, next p q)

    same_id : (a b : Entry K) → before o a b ≡ false → before o b a ≡ false → a.id ≡ b.id
    unfolding before
    same_id a b p q =
        let la = ranked.less a.key b.key in
        let lb = ranked.less b.key a.key in
        let ea = ranked.equal a.key b.key in let eb = ranked.equal b.key a.key in ground arith

    taken :
        {m : ℕ → Option K} {t : Entry K} {m' : ℕ → Option K}
        → Promise n m (popped t) m'
        → (m t.id ≡ some t.key)
          × ((i : ℕ) (key : K) → m i ≡ some key → before o (record { key = key; id = i }) t ≡ false)
    taken (take t e least) = (e, least)

    -- What a pop takes is determined by the keys that the ids have: two promised pops of one map take the same
    -- entry; the keys are ordered like numbers.
    popped_unique :
        (m a b : ℕ → Option K) (t u : Entry K)
        → Promise n m (popped t) a
        → Promise n m (popped u) b
        → t ≡ u
    popped_unique m a b t u p q =
        let (e, least) = taken p in
        let (f, lower) = taken q in
        let id = same_id t u (lower t.id t.key e) (least u.id u.key f) in
        let key : t.key ≡ u.key = some_inj (sym e ∙ ap m id ∙ f) in cc (key, id)
