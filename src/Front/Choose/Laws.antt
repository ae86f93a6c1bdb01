-- ===== src/Front/Choose/Laws.antt =====
-- The pivot that choose_pivot accepts lies in the front and is large enough for its column.
use opt_solver.Base.{
  ℕ, ◌+◌, ◌-◌, ◌≤◌, ◌<◌, ◌≡◌, ◌≢◌, refl, sym, subst, inl, inr, ◌⊎◌, Bool, true, false, ◌&&◌, ◌||◌,
  ltb, leb, ◌==◌, if◌then◌else◌, Option, some, none, arith, Bool-cases, dec_lt, and_parts,
}
use opt_solver.Base.Ints.{pos}
use opt_solver.Front.Matrix.{Entries}
use opt_solver.Front.Scalar.{Scalar, IsOrdered, max_v}
use opt_solver.Front.Choose.{
  PivotResult, rejected, one_by_one, two_by_two, Maximum, front_max, max_from, argmax_from, max_but,
  entry, two_by_two_ok, choose_finite, choose_pivot, effective_small,
}
use opt_solver.Front.Choose.Maxima.{
  Le, max_v-left, max_v-right, max_from-start, max_from-le, argmax_from-value, argmax_from-row,
  max_but-le,
}

module _ {V : Type 0} (s : Scalar V) (f : Entries V) (front_size num_fs k : ℕ) (u : V) where
  -- |F(c, c)| >= u |F(i, c)| for the other rows i of column c from k on.
  abbrev pub IsLarge : ℕ → Type 0
  IsLarge c =
      (i : ℕ)
      → k ≤ i
      → i < front_size
      → i ≢ c
      → s.le (s.mul u (s.abs (entry s f front_size num_fs c i))) (s.abs (f c c)) ≡ true

  -- A rejection, a 1x1 pivot among the fully summed columns from k on that is large for its column,
  -- or a 2x2 pivot of k and a later fully summed column.
  abbrev pub Chosen : PivotResult → Type 0
  Chosen r =
      (r ≡ rejected)
      ⊎ ((c : ℕ) × (r ≡ one_by_one c) × (k ≤ c) × (c < num_fs) × IsLarge c)
      ⊎ ((c : ℕ) × (r ≡ two_by_two k c) × (k < c) × (c < num_fs))

  Chosen-if :
      (b : Bool) (x y : PivotResult)
      → (b ≡ true → Chosen x)
      → (b ≡ false → Chosen y)
      → Chosen (if b then x else y)
  Chosen-if true x y h g = h refl
  Chosen-if false x y h g = g refl

  module _ (o : IsOrdered s) (threshold : s.le s.zero_value u ≡ true) (below : k < num_fs)
      (fits : num_fs ≤ front_size) where
    abbrev first : Maximum V
    first =
        argmax_from s (λ i. f i k) (num_fs - (k + 1)) (k + 1)
          (record { value = s.zero_value; row = k + 1 })

    abbrev extension : V
    extension = max_from s (λ i. f i k) (front_size - num_fs) num_fs s.zero_value

    abbrev omega1 : V
    omega1 = max_v s first.value extension

    abbrev omega2 : V
    omega2 =
        max_from s (λ i. f i first.row) (front_size - num_fs) num_fs
          (max_but s (λ i. i == first.row)
            (λ i. if ltb i first.row then f first.row i else f i first.row) (num_fs - k) k
            s.zero_value)

    -- The rows below the diagonal of column k are at most omega1.
    column-omega1 : (i : ℕ) → k < i → i < front_size → Le s o (s.abs (f i k)) omega1
    column-omega1 i h l = elim (dec_lt i num_fs) [
      | yes summed ↦
          let inside : Le s o (s.abs (f i k)) first.value =
            subst (Le s o (s.abs (f i k)))
              (sym (
                argmax_from-value s o (λ i. f i k) (num_fs - (k + 1)) (k + 1)
                  (record { value = s.zero_value; row = k + 1 })))
              (max_from-le s o (λ i. f i k) (num_fs - (k + 1)) (k + 1) s.zero_value i (omega arith)
                (omega arith)) in
          o.le_trans _ first.value _ inside (max_v-left s o first.value extension)
      | no ext ↦
          o.le_trans _ extension _
            (max_from-le s o (λ i. f i k) (front_size - num_fs) num_fs s.zero_value i (omega arith)
              (omega arith))
            (max_v-right s o first.value extension)
    ]

    IsLarge-column : Le s o (s.mul u omega1) (s.abs (f k k)) → IsLarge k
    IsLarge-column h i a b ne =
        let lower : entry s f front_size num_fs k i ≡ f i k = ground (arith, ne) in
        subst (λ v. Le s o (s.mul u (s.abs v)) (s.abs (f k k))) (sym lower)
          (o.le_trans _ _ _ (o.mul_mono u _ _ threshold (column-omega1 i (ground (arith, ne)) b)) h)

    IsLarge-row : Le s o (s.mul u omega2) (s.abs (f first.row first.row)) → IsLarge first.row
    IsLarge-row h i a b ne =
        o.le_trans _ _ _
          (o.mul_mono u _ _ threshold (elim (dec_lt i num_fs) [
            | yes summed ↦
                let same : entry s f front_size num_fs first.row i
                    ≡ (if ltb i first.row then f first.row i else f i first.row) =
                  ground arith in
                subst (λ v. Le s o (s.abs v) omega2) (sym same)
                  (o.le_trans _ _ _
                    (max_but-le s o (λ i. i == first.row)
                      (λ i. if ltb i first.row then f first.row i else f i first.row) (num_fs - k) k
                      s.zero_value i (ground (arith, ne)) a (omega arith))
                    (max_from-start s o (λ i. f i first.row) (front_size - num_fs) num_fs _))
            | no ext ↦
                let same : entry s f front_size num_fs first.row i ≡ f i first.row = ground arith in
                subst (λ v. Le s o (s.abs v) omega2) (sym same)
                  (max_from-le s o (λ i. f i first.row) (front_size - num_fs) num_fs _ i
                    (omega arith) (omega arith))
          ]))
          h

    row_range : k + 1 < num_fs → (k + 1 ≤ first.row) × (first.row < num_fs)
    row_range h =
        argmax_from-row s o (λ i. f i k) (num_fs - (k + 1)) (k + 1)
          (record { value = s.zero_value; row = k + 1 }) (k + 1) num_fs (omega arith) h
          (omega arith) (omega arith)

    -- An omega that is not above zero bounds nothing.
    small_omega : s.lt s.zero_value omega1 ≡ false → Le s o (s.mul u omega1) (s.abs (f k k))
    small_omega h =
        o.le_trans _ (s.mul u s.zero_value) _
          (o.mul_mono u _ _ threshold (o.le_of_not_lt s.zero_value omega1 h))
          (subst (λ v. Le s o v (s.abs (f k k))) (sym (o.mul_zero u)) (o.abs_nonneg (f k k)))

    accepted_k :
        (eff_small : V)
        → (s.lt (s.abs (f k k)) eff_small
            || s.lt s.zero_value omega1 && s.lt (s.abs (f k k)) (s.mul u omega1))
          ≡ false
        → Le s o (s.mul u omega1) (s.abs (f k k))
    accepted_k eff_small e = elim (Bool-cases (s.lt s.zero_value omega1)) [
      | inl above ↦ o.le_of_not_lt (s.abs (f k k)) (s.mul u omega1) (ground (e, above, arith))
      | inr none_above ↦ small_omega none_above
    ]

    choose_finite-Chosen :
        (small eff_small : V) → Chosen (choose_finite s f front_size num_fs k u small eff_small)
    unfolding choose_finite
    choose_finite-Chosen small eff_small =
        Chosen-if
          ((s.le first.value s.zero_value && s.le s.zero_value first.value) || leb num_fs (k + 1)) _
          _
          (λ last.
            Chosen-if
              (s.lt (s.abs (f k k)) eff_small
                || s.lt s.zero_value omega1 && s.lt (s.abs (f k k)) (s.mul u omega1))
              _ _ (λ bad. inl refl)
              (λ good.
                inr
                  (inl (k, refl, omega arith, below, IsLarge-column (accepted_k eff_small good)))))
          (λ more.
            let two_left : k + 1 < num_fs = ground (arith, more) in
            let (lo, hi) = row_range two_left in
            Chosen-if (s.le eff_small (s.abs (f k k)) && s.le (s.mul u omega1) (s.abs (f k k))) _ _
              (λ ok. inr (
                inl (
                  k,
                  refl,
                  omega arith,
                  below,
                  IsLarge-column (and_parts {a = s.le eff_small (s.abs (f k k))} ok).1,
                )))
              (λ no_k.
                Chosen-if (two_by_two_ok s f front_size num_fs k first.row u small eff_small) _ _
                  (λ pair. inr (inr (first.row, refl, omega arith, hi)))
                  (λ no_pair.
                    Chosen-if
                      (s.le eff_small (s.abs (f first.row first.row))
                        && s.le (s.mul u omega2) (s.abs (f first.row first.row)))
                      _ _
                      (λ ok. inr (
                        inl (
                          first.row,
                          refl,
                          omega arith,
                          hi,
                          IsLarge-row
                              (and_parts {a = s.le eff_small (s.abs (f first.row first.row))} ok).1,
                        )))
                      (λ no_r. inl refl))))

-- With ordered scalars and a threshold u that is not negative, whatever the small-pivot bound, choose_pivot rejects, or it accepts a 1x1
-- pivot among the fully summed columns from k on whose diagonal is at least u times every other entry
-- of its column from row k on, or it accepts k with a later fully summed column as a 2x2 pivot.
pub choose_pivot-Chosen :
    {V : Type 0} (s : Scalar V) (f : Entries V) (front_size num_fs k : ℕ) (u small : V)
    → IsOrdered s
    → s.le s.zero_value u ≡ true
    → num_fs ≤ front_size
    → Chosen s f front_size num_fs k u (choose_pivot s f front_size num_fs (pos k) u small)
unfolding choose_pivot
choose_pivot-Chosen {V} s f front_size num_fs k u small o threshold fits =
    Chosen-if s f front_size num_fs k u (leb num_fs k) _ _ (λ past. inl refl)
      (λ inside.
        finish (front_max s f front_size (num_fs - k) k s.zero_value) (ground (arith, inside)))
  where
    finish :
        (m : Option V)
        → k < num_fs
        → Chosen s f front_size num_fs k u (elim m [
          | none ↦ rejected
          | some max_abs ↦
              choose_finite s f front_size num_fs k u small
                (effective_small s f front_size num_fs max_abs small)
        ])
    finish none h = inl refl
    finish (some max_abs) h =
        choose_finite-Chosen s f front_size num_fs k u o threshold h fits small
          (effective_small s f front_size num_fs max_abs small)
