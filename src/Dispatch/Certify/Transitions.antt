-- ===== src/Dispatch/Certify/Transitions.antt =====
-- solver/src/dispatch_policy.cpp: what the counters of certify_quasi_definite say of a list of signs.
use opt_solver.Base.{
  ◌⊎◌, inl, inr, ℕ, zero, suc, ◌+◌, ◌≤◌, ◌<◌, ◌≡◌, refl, ap, subst, ◌∙◌, Bool, true, false, not,
  List, [], ◌∷◌, ◌++◌, length, replicate, if◌then◌else◌, some, arith,
}
use opt_solver.Dispatch.Certify.{Signs, differs, next_sign}

-- The counters after a list of signs.
abbrev pub after : Signs → List Bool → Signs
after s [] = s
after s (b ∷ bs) = after (next_sign s b) bs

transitions_grow : (s : Signs) (bs : List Bool) → s.transitions ≤ (after s bs).transitions
unfolding next_sign
transitions_grow s [] = omega arith
transitions_grow s (b ∷ bs) = let g = transitions_grow (next_sign s b) bs in ground arith

stays : (s : Signs) (b : Bool) → s.prev ≡ some b → (next_sign s b).transitions ≡ s.transitions
unfolding next_sign
stays s true e = ap (λ p. if differs p true then s.transitions + 1 else s.transitions) e
stays s false e = ap (λ p. if differs p false then s.transitions + 1 else s.transitions) e

turns :
    (s : Signs) (b : Bool) → s.prev ≡ some b → (next_sign s (not b)).transitions ≡ s.transitions + 1
unfolding next_sign
turns s true e = ap (λ p. if differs p false then s.transitions + 1 else s.transitions) e
turns s false e = ap (λ p. if differs p true then s.transitions + 1 else s.transitions) e

pub prev_next : (s : Signs) (b : Bool) → (next_sign s b).prev ≡ some b
unfolding next_sign
prev_next s b = refl

same_or_not : (b c : Bool) → (c ≡ b) ⊎ (c ≡ not b)
same_or_not true true = inl refl
same_or_not true false = inr refl
same_or_not false true = inr refl
same_or_not false false = inl refl

-- Without a further transition all signs are the previous one.
one_sign :
    (s : Signs) (b : Bool) (bs : List Bool)
    → s.prev ≡ some b
    → (after s bs).transitions ≤ s.transitions
    → bs ≡ replicate (length bs) b
one_sign s b [] e h = refl
one_sign s b (c ∷ bs) e h = elim (same_or_not b c) [
  | inl same ↦
      let next : (after (next_sign s b) bs).transitions ≤ s.transitions =
        subst (λ z. (after (next_sign s z) bs).transitions ≤ s.transitions) same h in
      let rest = one_sign (next_sign s b) b bs (prev_next s b) (omega (arith, stays s b e)) in
      cc (same, rest)
  | inr other ↦
      let next : (after (next_sign s (not b)) bs).transitions ≤ s.transitions =
        subst (λ z. (after (next_sign s z) bs).transitions ≤ s.transitions) other h in
      absurd (omega (arith, turns s b e, transitions_grow (next_sign s (not b)) bs))
]

-- With one further transition at most, the previous sign and then the other one.
pub two_signs :
    (s : Signs) (b : Bool) (bs : List Bool)
    → s.prev ≡ some b
    → (after s bs).transitions ≤ s.transitions + 1
    → (c : ℕ) × (d : ℕ) × (bs ≡ replicate c b ++ replicate d (not b))
two_signs s b [] e h = (0, 0, refl)
two_signs s b (x ∷ bs) e h = elim (same_or_not b x) [
  | inl same ↦
      let next : (after (next_sign s b) bs).transitions ≤ s.transitions + 1 =
        subst (λ z. (after (next_sign s z) bs).transitions ≤ s.transitions + 1) same h in
      let (c, d, rest) : (c : ℕ) × (d : ℕ) × (bs ≡ replicate c b ++ replicate d (not b)) =
        two_signs (next_sign s b) b bs (prev_next s b) (omega (arith, stays s b e)) in
      (suc c, d, cc (same, rest))
  | inr other ↦
      let next : (after (next_sign s (not b)) bs).transitions ≤ s.transitions + 1 =
        subst (λ z. (after (next_sign s z) bs).transitions ≤ s.transitions + 1) other h in
      let rest =
        one_sign (next_sign s (not b)) (not b) bs (prev_next s (not b))
          (omega (arith, turns s b e)) in
      (0, suc (length bs), cc (other, rest))
]

-- How many of the given sign have been counted.
abbrev pub counted : Bool → Signs → ℕ
counted true s = s.pos_count
counted false s = s.neg_count

counted_other :
    (s : Signs) (b : Bool) (c : ℕ) → counted (not b) (after s (replicate c b)) ≡ counted (not b) s
unfolding next_sign
counted_other s true zero = refl
counted_other s true (suc c) = counted_other (next_sign s true) true c
counted_other s false zero = refl
counted_other s false (suc c) = counted_other (next_sign s false) false c

append_nil : (bs : List Bool) → bs ++ [] ≡ bs
append_nil [] = refl
append_nil (b ∷ bs) = ap (λ z. b ∷ z) (append_nil bs)

-- A sign that is counted and is not the first one has a part of its own.
pub later_part :
    (s : Signs) (b : Bool) (bs : List Bool) (c d : ℕ)
    → bs ≡ replicate c b ++ replicate d (not b)
    → 0 < counted (not b) (after s bs)
    → counted (not b) s ≡ 0
    → 0 < d
later_part s b bs c zero e h z =
    let all : bs ≡ replicate c b = e ∙ append_nil (replicate c b) in
    let more : 0 < counted (not b) (after s (replicate c b)) =
      subst (λ y. 0 < counted (not b) (after s y)) all h in
    absurd (omega (arith, counted_other s b c))
later_part s b bs c (suc d) e h z = omega arith
