-- ===== src/Dispatch/Certify/Laws.antt =====
-- solver/src/dispatch_policy.cpp: which diagonals certify_quasi_definite accepts.
use opt_solver.Base.{
  inl, inr, ℕ, zero, suc, ◌+◌, ◌≤◌, ◌<◌, ◌≡◌, refl, sym, ap, subst, ◌∙◌, Bool, true, false, not,
  ◌&&◌, List, [], ◌∷◌, ◌++◌, map, length, replicate, if◌then◌else◌, Option, some, none, arith,
  if_both, ◌==◌, ltb, leb, ◌-◌, get_or, Bool-cases,
}
use opt_solver.Matrix.Csc.{Lower}
use opt_solver.Matrix.Csc.Shape.{col_start, row}
use opt_solver.Dispatch.Certify.{
  Signs, next_sign, sign_of, diagonal, accepted, or_zero, sign_columns, certify_quasi_definite,
}
use opt_solver.Dispatch.Certify.Transitions.{after, two_signs, prev_next, later_part, counted}

module _ {V : Type 0} (zero_value : V) (add : V → V → V) (is_finite is_positive is_small : V → Bool)
    (a : Lower V) where
  -- The signs of the diagonal from column j on, none where an entry is missing, not finite or too small.
  abbrev pub signs : ℕ → ℕ → List (Option Bool)
  signs zero j = []
  signs (suc rounds) j =
      sign_of zero_value add is_finite is_positive is_small a j ∷ signs rounds (suc j)

  abbrev Counted : ℕ → ℕ → Signs → Option Signs → Type 0
  Counted rounds j s none = Unit
  Counted rounds j s (some t) =
      (bs : List Bool) × (signs rounds j ≡ map some bs) × (length bs ≡ rounds) × (t ≡ after s bs)

  Counted-step :
      (rounds j : ℕ) (s : Signs) (sign : Bool) (o : Option Signs)
      → sign_of zero_value add is_finite is_positive is_small a j ≡ some sign
      → Counted rounds (suc j) (next_sign s sign) o
      → Counted (suc rounds) j s o
  Counted-step rounds j s sign none e h = tt
  Counted-step rounds j s sign (some t) e (bs, f, l, g) = (sign ∷ bs, cc (e, f), ap suc l, g)

  Counted-case :
      (rounds j : ℕ) (s : Signs) (o : Option Bool) (k : Bool → Option Signs)
      → sign_of zero_value add is_finite is_positive is_small a j ≡ o
      → ((sign : Bool) → Counted rounds (suc j) (next_sign s sign) (k sign))
      → Counted (suc rounds) j s (elim o [ none ↦ none | some sign ↦ k sign ])
  Counted-case rounds j s none k e h = tt
  Counted-case rounds j s (some sign) k e h = Counted-step rounds j s sign (k sign) e (h sign)

  Counted-sign_columns :
      (rounds j : ℕ) (s : Signs)
      → Counted rounds j s (sign_columns zero_value add is_finite is_positive is_small a rounds j s)
  unfolding sign_columns
  Counted-sign_columns zero j s = ([], refl, refl, refl)
  Counted-sign_columns (suc rounds) j s =
      Counted-case rounds j s (sign_of zero_value add is_finite is_positive is_small a j)
        (λ sign.
          sign_columns zero_value add is_finite is_positive is_small a rounds (suc j)
            (next_sign s sign))
        refl (λ sign. Counted-sign_columns rounds (suc j) (next_sign s sign))

  abbrev first_signs : Signs
  first_signs = record { transitions = 0; prev = none; pos_count = 0; neg_count = 0 }

  -- Both signs are there, and one comes before the other.
  abbrev pub IsSplit : List (Option Bool) → Type 0
  IsSplit ss =
      (b : Bool) × (c : ℕ) × (d : ℕ) × (0 < c)
      × (0 < d)
      × (ss ≡ map some (replicate c b ++ replicate d (not b)))

  both_counted : (s : Signs) (b : Bool) → 0 < s.pos_count → 0 < s.neg_count → 0 < counted (not b) s
  both_counted s true h k = k
  both_counted s false h k = h

  first_next :
      (b : Bool)
      → ((next_sign first_signs b).transitions ≡ 0)
        × (counted (not b) (next_sign first_signs b) ≡ 0)
  unfolding next_sign
  first_next true = (refl, refl)
  first_next false = (refl, refl)

  IsSplit-after :
      (bs : List Bool)
      → 0 < (after first_signs bs).pos_count
      → 0 < (after first_signs bs).neg_count
      → (after first_signs bs).transitions ≤ 1
      → IsSplit (map some bs)
  IsSplit-after [] h k t = absurd (omega arith)
  IsSplit-after (b ∷ bs) h k t =
      let start = first_next b in
      let (c, d, e) : (c : ℕ) × (d : ℕ) × (bs ≡ replicate c b ++ replicate d (not b)) =
        two_signs (next_sign first_signs b) b bs (prev_next first_signs b)
          (omega (arith, start.0)) in
      (
        b,
        suc c,
        d,
        omega arith,
        later_part (next_sign first_signs b) b bs c d e
            (both_counted (after first_signs (b ∷ bs)) b h k) start.1,
        ap (λ z. some b ∷ map some z) e,
      )

  IsSplit-verdict :
      (n : ℕ) (o : Option Signs)
      → Counted n 0 first_signs o
      → (elim o [
        | none ↦ false
        | some s ↦ ltb 0 s.pos_count && (ltb 0 s.neg_count && leb s.transitions 1)
      ])
        ≡ true
      → IsSplit (signs n 0)
  IsSplit-verdict n none k h = absurd (ground arith)
  IsSplit-verdict n (some t) (bs, e, l, g) h =
      let seen : (0 < t.pos_count) × (0 < t.neg_count) × (t.transitions ≤ 1) = ground arith in
      let shown : (0 < (after first_signs bs).pos_count)
          × (0 < (after first_signs bs).neg_count)
          × ((after first_signs bs).transitions ≤ 1) =
        subst (λ z. (0 < z.pos_count) × (0 < z.neg_count) × (z.transitions ≤ 1)) g seen in
      subst IsSplit (sym e) (IsSplit-after bs shown.0 shown.1 shown.2)

  certified-IsSplit :
      certify_quasi_definite zero_value add is_finite is_positive is_small a ≡ true
      → (0 < a.n) × IsSplit (signs a.n 0)
  unfolding certify_quasi_definite
  certified-IsSplit =
      if_both (λ r. r ≡ true → (0 < a.n) × IsSplit (signs a.n 0)) (a.n == 0) false _
        (λ e h. absurd (ground arith))
        (λ e h. (
          ground arith,
          IsSplit-verdict a.n
              (sign_columns zero_value add is_finite is_positive is_small a a.n 0 first_signs)
              (Counted-sign_columns a.n 0 first_signs) h,
        ))

  -- The values of the entries (j, j) among the places p, p + 1, ...
  abbrev stored : ℕ → ℕ → ℕ → List V
  stored j zero p = []
  stored j (suc rounds) p =
      let rest = stored j rounds (suc p) in
      if row a p == j then get_or a.values p zero_value ∷ rest else rest

  abbrev diagonal_values : ℕ → List V
  diagonal_values j = stored j (col_start a (suc j) - col_start a j) (col_start a j)

  abbrev sum_from : V → List V → V
  sum_from v [] = v
  sum_from v (x ∷ xs) = sum_from (add v x) xs

  -- Column j has a diagonal entry, and the sum of its values is finite, not small and of the sign b.
  abbrev pub HasSign : ℕ → Bool → Type 0
  HasSign j b =
      let v = sum_from zero_value (diagonal_values j) in
      (0 < length (diagonal_values j))
      × (is_finite v ≡ true)
      × (is_small v ≡ false)
      × (is_positive v ≡ b)

  abbrev added : Option V → List V → Option V
  added found [] = found
  added found (x ∷ xs) =
      added (some (add (or_zero zero_value add is_finite is_positive is_small found) x)) xs

  added-some : (v : V) (xs : List V) → added (some v) xs ≡ some (sum_from v xs)
  added-some v [] = refl
  added-some v (x ∷ xs) = added-some (add v x) xs

  diagonal-stored :
      (j rounds p : ℕ) (found : Option V)
      → diagonal zero_value add is_finite is_positive is_small a j rounds p found
        ≡ added found (stored j rounds p)
  unfolding diagonal
  diagonal-stored j zero p found = refl
  diagonal-stored j (suc rounds) p found = elim (Bool-cases (row a p == j)) [
    | inl here ↦ rw here (diagonal-stored j rounds (suc p) _)
    | inr other ↦ rw other (diagonal-stored j rounds (suc p) found)
  ]

  HasSign-accepted :
      (j : ℕ) (b : Bool) (vs : List V)
      → diagonal_values j ≡ vs
      → accepted zero_value add is_finite is_positive is_small (added none vs) ≡ some b
      → HasSign j b
  HasSign-accepted j b [] e h = absurd (ground arith)
  HasSign-accepted j b (x ∷ xs) e h =
      let v = sum_from (add zero_value x) xs in
      let whole : accepted zero_value add is_finite is_positive is_small (some v) ≡ some b =
        ap (accepted zero_value add is_finite is_positive is_small)
          (sym (added-some (add zero_value x) xs))
        ∙ h in
      let passed : (is_finite v ≡ true) × (is_small v ≡ false) × (is_positive v ≡ b) =
        ground (arith, whole) in
      subst
        (λ l.
          (0 < length l)
          × (is_finite (sum_from zero_value l) ≡ true)
          × (is_small (sum_from zero_value l) ≡ false)
          × (is_positive (sum_from zero_value l) ≡ b))
        (sym e) (omega arith, passed.0, passed.1, passed.2)

  sign_of-HasSign :
      (j : ℕ) (b : Bool)
      → sign_of zero_value add is_finite is_positive is_small a j ≡ some b
      → HasSign j b
  unfolding sign_of
  sign_of-HasSign j b h = HasSign-accepted j b (diagonal_values j) refl (
      ap (accepted zero_value add is_finite is_positive is_small)
        (sym (diagonal-stored j (col_start a (suc j) - col_start a j) (col_start a j) none))
      ∙ h)

  nth_sign :
      (rounds j i : ℕ)
      → i < rounds
      → get_or (signs rounds j) i none
        ≡ sign_of zero_value add is_finite is_positive is_small a (j + i)
  nth_sign zero j i lt = absurd (omega arith)
  nth_sign (suc rounds) j zero lt =
      ap (sign_of zero_value add is_finite is_positive is_small a) {y = j + 0} (omega arith)
  nth_sign (suc rounds) j (suc i) lt =
      nth_sign rounds (suc j) i (omega arith)
      ∙ ap (sign_of zero_value add is_finite is_positive is_small a) {x = suc j + i} {y = j + suc i}
          (omega arith)

  length-signs : (rounds j : ℕ) → length (signs rounds j) ≡ rounds
  length-signs zero j = refl
  length-signs (suc rounds) j = ap suc (length-signs rounds (suc j))

  nth_split :
      (b : Bool) (c d i : ℕ)
      → i < c + d
      → get_or (map some (replicate c b ++ replicate d (not b))) i none
        ≡ some (if ltb i c then b else not b)
  nth_split b zero zero i lt = absurd (omega arith)
  nth_split b zero (suc d) zero lt = refl
  nth_split b zero (suc d) (suc i) lt = nth_split b zero d i (omega arith) ∙ ground arith
  nth_split b (suc c) d zero lt = ground arith
  nth_split b (suc c) d (suc i) lt = nth_split b c d i (omega arith) ∙ ground arith

  length-split :
      (b : Bool) (c d : ℕ) → length (map some (replicate c b ++ replicate d (not b))) ≡ c + d
  length-split b zero zero = omega arith
  length-split b zero (suc d) = omega (arith, length-split b zero d)
  length-split b (suc c) d = omega (arith, length-split b c d)

  -- The columns before c have the sign b, the others the opposite one, and neither part is empty.
  abbrev pub IsSigned : Type 0
  IsSigned =
      (b : Bool) × (c : ℕ) × (0 < c)
      × (c < a.n)
      × ((j : ℕ) → j < a.n → HasSign j (if ltb j c then b else not b))

  IsSplit-IsSigned : IsSplit (signs a.n 0) → IsSigned
  IsSplit-IsSigned (b, c, d, first, second, e) =
      let wide : a.n ≡ c + d = sym (length-signs a.n 0) ∙ ap length e ∙ length-split b c d in
      (
        b,
        c,
        first,
        omega arith,
        λ j lt. sign_of-HasSign j _ (
            ap (sign_of zero_value add is_finite is_positive is_small a) {y = 0 + j} (omega arith)
            ∙ sym (nth_sign a.n 0 j lt)
            ∙ ap (λ l. get_or l j none) e
            ∙ nth_split b c d j (omega arith)),
      )

  -- A certified matrix has order at least 1; every column has a diagonal entry, and the sum of its values is
  -- finite and not small; a first part of these sums has one sign and the rest the other, and neither part is empty.
  pub certify_quasi_definite-IsSigned :
      certify_quasi_definite zero_value add is_finite is_positive is_small a ≡ true
      → (0 < a.n) × IsSigned
  certify_quasi_definite-IsSigned h =
      let (some_column, split) = certified-IsSplit h in (some_column, IsSplit-IsSigned split)
