-- ===== src/Memory/FactorStack/Laws.antt =====
-- The contribution stack: its invariant, what an allocation keeps, and its use as a stack.
use opt_solver.Base.{
  ℕ, suc, zero, ◌+◌, ◌-◌, ◌*◌, ◌/◌, ◌%◌, ◌≤◌, ◌<◌, ◌≡◌, refl, ap, List, ◌++◌, [], ◌∷◌, ◌⊎◌, ltb,
  leb, length, take, drop, length-append, length-take, length-drop, some, none, arith, max,
  Bool-cases, inl, inr,
}
use opt_solver.Memory.FactorStack.{
  Buffer, FactorStack, round_up, active_buf, idle_buf, live_bytes, put_active, init, new_capacity,
  grow, factor_stack, with_room, alloc, free_top, flip,
}

-- A buffer's live part lies in its storage, and all counts are whole doubles.
pub record IsSound {V : Type 0} (b : Buffer V) : Type 0 where
  pub within : b.top_bytes ≤ b.capacity_bytes
  pub storage : length b.cells * 8 ≡ b.capacity_bytes
  pub aligned : b.top_bytes % 8 ≡ 0

-- Both buffers are sound, and the high-water mark has been kept up.
pub record IsValid {V : Type 0} (s : FactorStack V) : Type 0 where
  pub sound0 : IsSound s.buf0
  pub sound1 : IsSound s.buf1
  pub marked : s.buf0.top_bytes + s.buf1.top_bytes ≤ s.hwm_total

-- The doubles of a buffer that are live.
abbrev pub live : {V : Type 0} → Buffer V → List V
live b = take (b.top_bytes / 8) b.cells

take-append_self {ℓ} :
    {A : Type ℓ} (n : ℕ) (xs ys : List A) → n ≤ length xs → take n (take n xs ++ ys) ≡ take n xs
take-append_self zero xs ys h = refl
take-append_self (suc n) [] ys h = absurd (omega arith)
take-append_self (suc n) (x ∷ xs) ys h = ap (◌∷◌ x) (take-append_self n xs ys (omega arith))

round_up_bounds : (k : ℕ) → (k ≤ round_up k) × (round_up k < k + 8) × (round_up k % 8 ≡ 0)
unfolding round_up
round_up_bounds k = omega arith

new_capacity_bounds :
    (cap need : ℕ)
    → (need ≤ new_capacity cap need)
      × (cap ≤ new_capacity cap need)
      × (new_capacity cap need % 8 ≡ 0)
unfolding new_capacity
new_capacity_bounds cap need = ground (arith, round_up_bounds need, round_up_bounds (cap + cap / 2))

-- The three properties of a pushed allocation that a client relies on.
pub record Pushed {V : Type 0} (s t : FactorStack V) (offset n_doubles : ℕ) : Type 0 where
  pub at_top : offset ≡ (active_buf s).top_bytes
  pub inside : offset + n_doubles * 8 ≤ (active_buf t).capacity_bytes
  pub next_top : (active_buf t).top_bytes ≡ offset + n_doubles * 8
  pub kept : take (offset / 8) (active_buf t).cells ≡ live (active_buf s)
  pub idle : idle_buf t ≡ idle_buf s
  pub same_side : t.active ≡ s.active

module _ {V : Type 0} (uninit : ℕ → List V) (sized : (k : ℕ) → length (uninit k) ≡ k) where
  init-IsSound : (bytes : ℕ) → bytes % 8 ≡ 0 → IsSound (init uninit bytes)
  unfolding init
  init-IsSound bytes h = omega (arith, sized (bytes / 8))

  -- A stack starts valid and empty, with capacity for what was asked.
  pub factor_stack-IsValid :
      (k : ℕ)
      → IsValid (factor_stack uninit k)
        × (live_bytes (factor_stack uninit k) ≡ 0)
        × (k ≤ (active_buf (factor_stack uninit k)).capacity_bytes)
  unfolding factor_stack
  factor_stack-IsValid k =
      let b = round_up_bounds k in
      let s = init-IsSound (round_up k) b.2 in
      (
        record { sound0 = s; sound1 = s; marked = unfold init in omega arith },
        unfold live_bytes init in refl,
        unfold init in b.0,
      )

  module _ (b : Buffer V) (v : IsSound b) (need : ℕ) where
    grow-cells : length (grow uninit b need).cells * 8 ≡ (grow uninit b need).capacity_bytes
    unfolding grow
    grow-cells =
        let cap = new_capacity b.capacity_bytes need in
        let n = b.top_bytes / 8 in
        omega (
          arith,
          v,
          new_capacity_bounds b.capacity_bytes need,
          length-append (take n b.cells) (drop n (uninit (cap / 8))),
          length-take n b.cells,
          length-drop n (uninit (cap / 8)),
          sized (cap / 8),
        )

    grow-IsSound : IsSound (grow uninit b need)
    grow-IsSound = record {
      within = unfold grow in omega (arith, v.within, new_capacity_bounds b.capacity_bytes need);
      storage = grow-cells;
      aligned = unfold grow in v.aligned;
    }

    grow-live : live (grow uninit b need) ≡ live b
    unfolding grow
    grow-live = take-append_self (b.top_bytes / 8) b.cells _ (omega (arith, v.within, v.storage))

  -- The buffer an allocation pushes on: sound, large enough, with the live part it had.
  with_room_lem :
      (b : Buffer V) (n_bytes : ℕ)
      → IsSound b
      → IsSound (with_room uninit b n_bytes)
        × (b.top_bytes + n_bytes ≤ (with_room uninit b n_bytes).capacity_bytes)
        × ((with_room uninit b n_bytes).top_bytes ≡ b.top_bytes)
        × (live (with_room uninit b n_bytes) ≡ live b)
  unfolding with_room
  with_room_lem b n_bytes v = elim (Bool-cases (ltb b.capacity_bytes (b.top_bytes + n_bytes))) [
    | inl small ↦ rw small (
      grow-IsSound b v (b.top_bytes + n_bytes),
      unfold grow in omega (arith, new_capacity_bounds b.capacity_bytes (b.top_bytes + n_bytes)),
      unfold grow in refl,
      grow-live b v (b.top_bytes + n_bytes),
    )
    | inr fits ↦ rw fits (v, ground arith, refl, refl)
  ]

  active_buf-IsSound : (s : FactorStack V) → IsValid s → IsSound (active_buf s)
  active_buf-IsSound s v = ground arith

  -- An allocation keeps the stack valid.
  pub alloc-IsValid : (s : FactorStack V) (n : ℕ) → IsValid s → IsValid (alloc uninit s n).0
  unfolding alloc live_bytes
  alloc-IsValid s n v =
      let r = with_room_lem (active_buf s) (n * 8) (active_buf-IsSound s v) in
      ground (arith, r.0, r.1, r.2)

  -- An allocation hands out the doubles above the live part of the active buffer, within its
  -- capacity, and keeps that live part and the idle buffer.
  pub alloc-Pushed :
      (s : FactorStack V) (n : ℕ) → IsValid s → Pushed s (alloc uninit s n).0 (alloc uninit s n).1 n
  unfolding alloc live_bytes
  alloc-Pushed s n v =
      let r = with_room_lem (active_buf s) (n * 8) (active_buf-IsSound s v) in
      record {
        at_top = refl;
        inside = ground (arith, r.1);
        next_top = ground (arith, r.2);
        kept = ground (arith, r.2, r.3);
        idle = ground arith;
        same_side = refl;
      }

  -- An allocation adds its bytes to the live ones, and the high-water mark covers them.
  pub live_bytes-alloc :
      (s : FactorStack V) (n : ℕ)
      → IsValid s
      → (live_bytes (alloc uninit s n).0 ≡ live_bytes s + n * 8)
        × ((alloc uninit s n).0.hwm_total ≡ max s.hwm_total (live_bytes s + n * 8))
  unfolding alloc live_bytes
  live_bytes-alloc s n v =
      let r = with_room_lem (active_buf s) (n * 8) (active_buf-IsSound s v) in
      (ground (arith, r.2), ground (arith, r.2))

  -- Freeing the block that was pushed last succeeds and leaves the live bytes, the live doubles of
  -- the active buffer and the idle buffer as they were before the allocation.
  pub free_top-alloc :
      (s : FactorStack V) (n : ℕ)
      → IsValid s
      → (t : FactorStack V) × (free_top (alloc uninit s n).0 n ≡ some t)
        × IsValid t
        × (live (active_buf t) ≡ live (active_buf s))
        × (idle_buf t ≡ idle_buf s)
        × (live_bytes t ≡ live_bytes s)
  unfolding free_top live_bytes
  free_top-alloc s n v =
      let a = (alloc uninit s n).0 in
      let p = alloc-Pushed s n v in
      let w = alloc-IsValid s n v in
      let b = active_buf a in
      (
        put_active a (record b { top_bytes = b.top_bytes - n * 8 }),
        ground (arith, p.next_top),
        ground (arith, w, p.next_top),
        ground (arith, p.next_top, p.at_top, p.kept),
        ground (arith, p.idle),
        ground (arith, live_bytes-alloc s n v, p.next_top),
      )

-- A free of more than the active buffer holds is the assertion failure; any other keeps the stack
-- valid, lowers the live bytes by the block and moves no mark.
pub free_top_lem :
    {V : Type 0} (s : FactorStack V) (n : ℕ)
    → IsValid s
    → ((active_buf s).top_bytes < n * 8) × (free_top s n ≡ none)
      ⊎ (t : FactorStack V) × (free_top s n ≡ some t)
        × IsValid t
        × (live_bytes t + n * 8 ≡ live_bytes s)
        × (t.hwm_total ≡ s.hwm_total)
unfolding free_top live_bytes
free_top_lem s n v = elim (Bool-cases (leb (n * 8) (active_buf s).top_bytes)) [
  | inl fits ↦ inr (
    put_active s (record (active_buf s) { top_bytes = (active_buf s).top_bytes - n * 8 }),
    ground arith,
    ground arith,
    ground arith,
    refl,
  )
  | inr over ↦ inl (ground arith, ground arith)
]

-- `flip` exchanges the roles of the buffers and changes neither: the new active buffer keeps its
-- top and its live doubles, and a second flip restores the stack.
flip_lem :
    {V : Type 0} (s : FactorStack V)
    → (active_buf (flip s) ≡ idle_buf s)
      × (idle_buf (flip s) ≡ active_buf s)
      × (live_bytes (flip s) ≡ live_bytes s)
      × (flip (flip s) ≡ s)
unfolding flip live_bytes
flip_lem s = (ground arith, ground arith, refl, ground arith)
