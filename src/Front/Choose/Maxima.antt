-- ===== src/Front/Choose/Maxima.antt =====
-- The loops of choose_pivot find the greatest absolute value of their rows.
use opt_solver.Base.{
  ℕ, zero, suc, ◌+◌, ◌≤◌, ◌<◌, ◌≡◌, refl, ap, ◌∙◌, subst, inl, inr, ◌⊎◌, Bool, true, false,
  if◌then◌else◌, arith, Bool-cases, dec_lt,
}
use opt_solver.Front.Scalar.{Scalar, IsOrdered, max_v}
use opt_solver.Front.Choose.{Maximum, max_from, argmax_from, max_but}

module _ {V : Type 0} (s : Scalar V) (o : IsOrdered s) where
  abbrev pub Le : V → V → Type 0
  Le a b = s.le a b ≡ true

  pub max_v-left : (a b : V) → Le a (max_v s a b)
  max_v-left a b = elim (Bool-cases (s.lt a b)) [
    | inl lt ↦ rw lt (o.le_of_lt a b lt)
    | inr ge ↦ rw ge (o.le_refl a)
  ]

  pub max_v-right : (a b : V) → Le b (max_v s a b)
  max_v-right a b = elim (Bool-cases (s.lt a b)) [
    | inl lt ↦ rw lt (o.le_refl b)
    | inr ge ↦ rw ge (o.le_of_not_lt a b ge)
  ]

  pub max_from-start : (at : ℕ → V) (rounds i : ℕ) (m : V) → Le m (max_from s at rounds i m)
  unfolding max_from
  max_from-start at zero i m = o.le_refl m
  max_from-start at (suc rounds) i m =
      (o.le_trans m (max_v s m (s.abs (at i))) _ (max_v-left m (s.abs (at i)))
        (max_from-start at rounds (suc i) (max_v s m (s.abs (at i)))))

  pub max_from-le :
      (at : ℕ → V) (rounds i : ℕ) (m : V) (k : ℕ)
      → i ≤ k
      → k < i + rounds
      → Le (s.abs (at k)) (max_from s at rounds i m)
  unfolding max_from
  max_from-le at zero i m k h l = absurd (omega arith)
  max_from-le at (suc rounds) i m k h l = elim (dec_lt i k) [
    | yes later ↦ max_from-le at rounds (suc i) (max_v s m (s.abs (at i))) k later (omega arith)
    | no here ↦
        subst (λ j. Le (s.abs (at j)) (max_from s at rounds (suc i) (max_v s m (s.abs (at i)))))
          {x = i} (omega arith)
          (o.le_trans (s.abs (at i)) (max_v s m (s.abs (at i))) _ (max_v-right m (s.abs (at i)))
            (max_from-start at rounds (suc i) (max_v s m (s.abs (at i)))))
  ]

  abbrev next_best : (ℕ → V) → ℕ → Maximum V → Maximum V
  next_best at i m =
      if s.lt m.value (s.abs (at i)) then record { value = s.abs (at i); row = i } else m

  next_best_lem :
      (at : ℕ → V) (i : ℕ) (m : Maximum V)
      → ((next_best at i m).value ≡ max_v s m.value (s.abs (at i)))
        × (((next_best at i m).row ≡ i) ⊎ ((next_best at i m).row ≡ m.row))
  next_best_lem at i m = elim (Bool-cases (s.lt m.value (s.abs (at i)))) [
    | inl lt ↦ rw lt (refl, inl refl)
    | inr ge ↦ rw ge (refl, inr refl)
  ]

  -- The values alone of a search that also keeps the row.
  pub argmax_from-value :
      (at : ℕ → V) (rounds i : ℕ) (m : Maximum V)
      → (argmax_from s at rounds i m).value ≡ max_from s at rounds i m.value
  unfolding argmax_from max_from
  argmax_from-value at zero i m = refl
  argmax_from-value at (suc rounds) i m =
      argmax_from-value at rounds (suc i) (next_best at i m)
      ∙ ap (max_from s at rounds (suc i)) (next_best_lem at i m).0

  pub argmax_from-row :
      (at : ℕ → V) (rounds i : ℕ) (m : Maximum V) (lo hi : ℕ)
      → lo ≤ m.row
      → m.row < hi
      → lo ≤ i
      → i + rounds ≤ hi
      → (lo ≤ (argmax_from s at rounds i m).row) × ((argmax_from s at rounds i m).row < hi)
  unfolding argmax_from
  argmax_from-row at zero i m lo hi h k a b = (h, k)
  argmax_from-row at (suc rounds) i m lo hi h k a b =
      let row = (next_best_lem at i m).1 in
      argmax_from-row at rounds (suc i) (next_best at i m) lo hi (ground (arith, row))
        (ground (arith, row)) (omega arith) (omega arith)

  abbrev next_but : (ℕ → Bool) → (ℕ → V) → ℕ → V → V
  next_but skip at i m = if skip i then m else if s.lt m (s.abs (at i)) then s.abs (at i) else m

  next_but-start : (skip : ℕ → Bool) (at : ℕ → V) (i : ℕ) (m : V) → Le m (next_but skip at i m)
  next_but-start skip at i m = elim (Bool-cases (skip i)) [
    | inl out ↦ rw out (o.le_refl m)
    | inr kept ↦ rw kept (max_v-left m (s.abs (at i)))
  ]

  pub max_but-start :
      (skip : ℕ → Bool) (at : ℕ → V) (rounds i : ℕ) (m : V) → Le m (max_but s skip at rounds i m)
  unfolding max_but
  max_but-start skip at zero i m = o.le_refl m
  max_but-start skip at (suc rounds) i m =
      (o.le_trans m (next_but skip at i m) _ (next_but-start skip at i m)
        (max_but-start skip at rounds (suc i) (next_but skip at i m)))

  pub max_but-le :
      (skip : ℕ → Bool) (at : ℕ → V) (rounds i : ℕ) (m : V) (k : ℕ)
      → skip k ≡ false
      → i ≤ k
      → k < i + rounds
      → Le (s.abs (at k)) (max_but s skip at rounds i m)
  unfolding max_but
  max_but-le skip at zero i m k e h l = absurd (omega arith)
  max_but-le skip at (suc rounds) i m k e h l = elim (dec_lt i k) [
    | yes later ↦ max_but-le skip at rounds (suc i) (next_but skip at i m) k e later (omega arith)
    | no here ↦
        let kept : next_but skip at k m ≡ max_v s m (s.abs (at k)) = rw e refl in
        let first : Le (s.abs (at k)) (next_but skip at k m) =
          rw kept (max_v-right m (s.abs (at k))) in
        subst (λ j. Le (s.abs (at k)) (max_but s skip at rounds (suc j) (next_but skip at j m)))
          {x = k} (omega arith)
          (o.le_trans (s.abs (at k)) (next_but skip at k m) _ first
            (max_but-start skip at rounds (suc k) (next_but skip at k m)))
  ]
