-- ===== src/Memory/ChunkArena/Laws.antt =====
-- The chunk arena: blocks that live at once never overlap, and it holds no more own-size chunks
-- than it has to.
use opt_solver.Base.{
  ℕ, zero, suc, ◌+◌, ◌≤◌, ◌<◌, ◌≡◌, refl, ◌⊎◌, inl, inr, true, false, List, [], ◌∷◌, ltb, leb,
  length, Option, some, none, map, arith, Bool-cases, leb→le, length-set, length-map,
}
use opt_solver.Memory.ChunkArena.{
  Big, ChunkArena, Block, bump, own, release_big, reset, taken_of_size, place_big, take_big,
  ensure_chunk, take_bump, take, held,
}
use opt_solver.Memory.ChunkArena.Scan.{big_or, Chosen, Chosen-all}
use opt_solver.Memory.ChunkArena.Blocks.{IsValid, Owns, Disjoint, elements, Takes, place_big-Takes}

-- A take on the chain, once the block fits the current chunk.
bump-Takes :
    (a : ChunkArena) (n : ℕ)
    → IsValid a
    → a.cur < a.chunks
    → a.used + n ≤ a.chunk
    → Takes a (record a { used = a.used + n }) (bump a.cur a.used n) n
bump-Takes a n v opened fits = record {
  asked = refl;
  valid = omega (arith, v);
  owned = (omega arith, omega arith, inr (refl, omega arith));
  kept = kept;
  apart = apart;
}
  where
    kept : (b : Block) → Owns a b → Owns (record a { used = a.used + n }) b
    kept (bump c offset m) o = ground (arith, o.2)
    kept (own j m) o = o

    apart : (b : Block) → Owns a b → Disjoint b (bump a.cur a.used n)
    apart (bump c offset m) o = elim o.2 [
      | inl before ↦ inl (omega arith)
      | inr same ↦ inr (inl same.1)
    ]
    apart (own j m) o = tt

Takes-after :
    {a b c : ChunkArena} {new : Block} {n : ℕ}
    → ((x : Block) → Owns a x → Owns b x)
    → Takes b c new n
    → Takes a c new n
Takes-after keep t = record {
  asked = t.asked;
  valid = t.valid;
  owned = t.owned;
  kept = λ x o. t.kept x (keep x o);
  apart = λ x o. t.apart x (keep x o);
}

ensure_chunk_lem :
    (a : ChunkArena)
    → IsValid a
    → IsValid (ensure_chunk a)
      × ((ensure_chunk a).cur < (ensure_chunk a).chunks)
      × ((x : Block) → Owns a x → Owns (ensure_chunk a) x)
unfolding ensure_chunk
ensure_chunk_lem a v = (ground arith, ground arith, kept)
  where
    kept : (x : Block) → Owns a x → Owns (ensure_chunk a) x
    kept (bump c offset m) o = ground (arith, o.2)
    kept (own j m) o = ground (arith, o)

-- The next chunk of the chain, from its start.
abbrev advance : ChunkArena → ChunkArena
advance a = record a { cur = a.cur + 1; used = 0 }

advance-kept : (a : ChunkArena) (x : Block) → Owns a x → Owns (advance a) x
advance-kept a (bump c offset m) o =
    (o.0, o.1, inl (elim o.2 [ inl before ↦ omega arith | inr same ↦ omega arith ]))
advance-kept a (own j m) o = o

ensure_chunk-counters :
    (a : ChunkArena)
    → ((ensure_chunk a).used ≡ a.used)
      × ((ensure_chunk a).chunk ≡ a.chunk)
      × ((ensure_chunk a).cur ≡ a.cur)
unfolding ensure_chunk
ensure_chunk-counters a = ground arith

-- A run of the loop that finds room returns a block as `Takes` says.
abbrev Succeeds : ChunkArena → ℕ → Option (ChunkArena × Block) → Type 0
Succeeds a n r = (p : ChunkArena × Block) × (r ≡ some p) × Takes a p.0 p.1 n

take_bump_fits :
    (fuel : ℕ) (a : ChunkArena) (n : ℕ)
    → IsValid a
    → a.used + n ≤ a.chunk
    → Succeeds a n (take_bump (suc fuel) a n)
unfolding take_bump
take_bump_fits fuel a n v h =
    let (w, opened, keep) = ensure_chunk_lem a v in
    let k = ensure_chunk-counters a in
    let e = ensure_chunk a in
    let fits : e.used + n ≤ e.chunk = omega (arith, k) in
    (
      (record e { used = e.used + n }, bump e.cur e.used n),
      ground (arith, fits),
      Takes-after keep (bump-Takes e n w opened fits),
    )

take_bump_lem : (a : ChunkArena) (n : ℕ) → IsValid a → n ≤ a.chunk → Succeeds a n (take_bump 2 a n)
unfolding take_bump
take_bump_lem a n v h =
    let e = ensure_chunk a in
    let (w, opened, keep) = ensure_chunk_lem a v in
    let k = ensure_chunk-counters a in
    elim (Bool-cases (leb (e.used + n) e.chunk)) [
      | inl fits ↦ take_bump_fits 1 a n v (omega (arith, leb→le _ _ fits, k))
      | inr full ↦
          let w' : IsValid (advance e) = omega (arith, w) in
          let (p, q, t) = take_bump_fits 0 (advance e) n w' (omega (arith, k)) in
          (p, rw full q, Takes-after (λ x o. advance-kept e x (keep x o)) t)
    ]

-- In a valid arena every take of any size returns: a block of the asked size that the arena holds
-- and that shares no element with a block held before; those all stay held.
pub take-Takes :
    (a : ChunkArena) (n : ℕ)
    → IsValid a
    → (r : ChunkArena × Block) × (take a n ≡ some r) × Takes a r.0 r.1 n
unfolding take take_big
take-Takes a n v = elim (Bool-cases (ltb a.chunk n)) [
  | inl over ↦ (take_big a n, rw over, place_big-Takes a n _ _ v (Chosen-all n a.big))
  | inr fits ↦ rw fits (take_bump_lem a n v (ground arith))
]

-- A reset keeps every chunk, and ends the life of every block that holds an element.
reset_lem :
    (a : ChunkArena)
    → IsValid a
    → IsValid (reset a)
      × (held (reset a) ≡ held a)
      × ((b : Block) → 0 < elements b → ¬ Owns (reset a) b)
unfolding reset held
reset_lem a v = (omega (arith, v.positive), ground (arith, length-map a.big release_big), dead)
  where
    free : (bs : List Big) (i : ℕ) → (big_or (map release_big bs) i).taken ≡ false
    free [] i = refl
    free (b ∷ bs) zero = refl
    free (b ∷ bs) (suc i) = free bs i

    dead : (b : Block) → 0 < elements b → ¬ Owns (reset a) b
    dead (bump c offset n) h o = omega (arith, o.2)
    dead (own j m) h o = cc (o.1, free a.big j)

-- A block larger than a chunk takes a new own-size chunk only if every such chunk is taken: there
-- are never more of them than oversized blocks live at once.
take_big-appends :
    (a : ChunkArena) (n : ℕ)
    → (length (take_big a n).0.big ≡ length a.big)
      ⊎ ((j : ℕ) → j < length a.big → (big_or a.big j).taken ≡ true)
unfolding take_big
take_big-appends a n = go _ _ (Chosen-all n a.big)
  where
    go :
        (best largest : Option (ℕ × ℕ))
        → Chosen n a.big (length a.big) best largest
        → (length (place_big a n best largest).0.big ≡ length a.big)
          ⊎ ((j : ℕ) → j < length a.big → (big_or a.big j).taken ≡ true)
    go (some (i, size)) largest c = inl (length-set a.big i _)
    go none (some (i, size)) c = inl (length-set a.big i _)
    go none none c = inr (λ j h. elim (Bool-cases (big_or a.big j).taken) [
      | inl t ↦ t
      | inr f ↦ absurd (c.greatest j h f)
    ])

-- If some free own-size chunk holds the block, the smallest such chunk is handed out, and nothing is
-- allocated.
pub take_big-best_fit :
    (a : ChunkArena) (n j : ℕ)
    → j < length a.big
    → (big_or a.big j).taken ≡ false
    → n ≤ (big_or a.big j).size
    → (i : ℕ) × ((take_big a n).1 ≡ own i n)
      × (i < length a.big)
      × ((big_or a.big i).taken ≡ false)
      × (n ≤ (big_or a.big i).size)
      × ((big_or a.big i).size ≤ (big_or a.big j).size)
      × ((take_big a n).0.growths ≡ a.growths)
      × (held (take_big a n).0 ≡ held a)
unfolding take_big held
take_big-best_fit a n j h free holds = go _ _ (Chosen-all n a.big)
  where
    go :
        (best largest : Option (ℕ × ℕ))
        → Chosen n a.big (length a.big) best largest
        → (i : ℕ) × ((place_big a n best largest).1 ≡ own i n)
          × (i < length a.big)
          × ((big_or a.big i).taken ≡ false)
          × (n ≤ (big_or a.big i).size)
          × ((big_or a.big i).size ≤ (big_or a.big j).size)
          × ((place_big a n best largest).0.growths ≡ a.growths)
          × (held (place_big a n best largest).0 ≡ held a)
    go none largest c = absurd (c.smallest j h free holds)
    go (some (i, size)) largest c = (
      i,
      refl,
      c.best_free.0,
      c.best_free.1,
      omega (arith, c.best_free.2, c.best_holds),
      omega (arith, c.best_free.2, c.smallest j h free holds),
      refl,
      omega (arith, length-set a.big i (taken_of_size size)),
    )
