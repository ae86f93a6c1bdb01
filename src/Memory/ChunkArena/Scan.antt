-- ===== src/Memory/ChunkArena/Scan.antt =====
-- The scan of take_big over the own-size chunks: the smallest free chunk that holds the block, and
-- the largest free one.
use opt_solver.Base.{
  ℕ_discrete, ℕ, zero, suc, ◌+◌, ◌≤◌, ◌<◌, ◌≡◌, refl, ap, subst, ◌∙◌, inl, inr, true, false, not,
  ◌&&◌, List, [], ◌∷◌, ◌++◌, ltb, leb, ◌==◌, if◌then◌else◌, length, set, Option, some, none, arith,
  Bool-cases,
}
use opt_solver.Memory.ChunkArena.{Big, next_best, next_largest, scan}

abbrev pub big_or : List Big → ℕ → Big
big_or [] i = record { size = 0; taken = false }
big_or (b ∷ bs) zero = b
big_or (b ∷ bs) (suc i) = big_or bs i

pub big_or-set :
    (bs : List Big) (i j : ℕ) (b : Big)
    → i < length bs
    → big_or (set bs i b) j ≡ (if i == j then b else big_or bs j)
big_or-set [] i j b h = absurd (omega arith)
big_or-set (x ∷ bs) zero zero b h = refl
big_or-set (x ∷ bs) zero (suc j) b h = ground arith
big_or-set (x ∷ bs) (suc i) zero b h = ground arith
big_or-set (x ∷ bs) (suc i) (suc j) b h = ground (arith, big_or-set bs i j b)

pub big_or-append :
    (bs : List Big) (b : Big) (j : ℕ)
    → big_or (bs ++ b ∷ []) j
      ≡ (if ltb j (length bs) then big_or bs j else if j == length bs then b else big_or [] j)
big_or-append [] b zero = ground arith
big_or-append [] b (suc j) = ground arith
big_or-append (x ∷ bs) b zero = ground arith
big_or-append (x ∷ bs) b (suc j) = ground (arith, big_or-append bs b j)

-- What a choice of the scan says of the chunk at its index; `from` lists the chunks from `i` on.
abbrev pub Free : List Big → Option (ℕ × ℕ) → Type 0
Free bs none = Unit
Free bs (some (i, size)) =
    (i < length bs) × ((big_or bs i).taken ≡ false) × ((big_or bs i).size ≡ size)

abbrev pub Holds : ℕ → Option (ℕ × ℕ) → Type 0
Holds n none = Unit
Holds n (some (i, size)) = n ≤ size

abbrev pub AtMost : Option (ℕ × ℕ) → ℕ → Type 0
AtMost none s = ⊥
AtMost (some (i, size)) s = size ≤ s

abbrev pub AtLeast : Option (ℕ × ℕ) → ℕ → Type 0
AtLeast none s = ⊥
AtLeast (some (i, size)) s = s ≤ size

-- The choices of a scan of all of `bs`, of which the chunks before `i` have been seen.
pub record Chosen (n : ℕ) (bs : List Big) (i : ℕ) (best largest : Option (ℕ × ℕ)) : Type 0 where
  pub best_free : Free bs best
  pub best_holds : Holds n best
  pub largest_free : Free bs largest
  pub smallest :
      (j : ℕ)
      → j < i
      → (big_or bs j).taken ≡ false
      → n ≤ (big_or bs j).size
      → AtMost best (big_or bs j).size
  pub greatest : (j : ℕ) → j < i → (big_or bs j).taken ≡ false → AtLeast largest (big_or bs j).size

AtMost-step :
    (n i : ℕ) (b : Big) (best : Option (ℕ × ℕ)) (s : ℕ)
    → AtMost best s
    → AtMost (next_best n i b best) s
AtMost-step n i b none s h = absurd h
AtMost-step n i b (some (k, z)) s h = ground arith

AtLeast-step :
    (i : ℕ) (b : Big) (largest : Option (ℕ × ℕ)) (s : ℕ)
    → AtLeast largest s
    → AtLeast (next_largest i b largest) s
AtLeast-step i b none s h = absurd h
AtLeast-step i b (some (k, z)) s h = ground arith

AtMost-here :
    (n i : ℕ) (b : Big) (best : Option (ℕ × ℕ))
    → b.taken ≡ false
    → n ≤ b.size
    → AtMost (next_best n i b best) b.size
AtMost-here n i b none h k = ground arith
AtMost-here n i b (some (j, z)) h k = ground arith

AtLeast-here :
    (i : ℕ) (b : Big) (largest : Option (ℕ × ℕ))
    → b.taken ≡ false
    → AtLeast (next_largest i b largest) b.size
AtLeast-here i b none h = ground arith
AtLeast-here i b (some (j, z)) h = ground arith

Free-next_best :
    (n : ℕ) (bs : List Big) (i : ℕ) (best : Option (ℕ × ℕ))
    → i < length bs
    → Free bs best
    → Holds n best
    → Free bs (next_best n i (big_or bs i) best) × Holds n (next_best n i (big_or bs i) best)
Free-next_best n bs i none h f k =
    elim (Bool-cases (not (big_or bs i).taken && (leb n (big_or bs i).size && true))) [
      | inl e ↦ rw e ((h, ground arith, refl), ground arith)
      | inr e ↦ rw e (tt, tt)
    ]
Free-next_best n bs i (some (j, z)) h f k =
    elim (Bool-cases
      (not (big_or bs i).taken && (leb n (big_or bs i).size && ltb (big_or bs i).size z))) [
        | inl e ↦ rw e ((h, ground arith, refl), ground arith)
        | inr e ↦ rw e (f, k)
      ]

Free-next_largest :
    (bs : List Big) (i : ℕ) (largest : Option (ℕ × ℕ))
    → i < length bs
    → Free bs largest
    → Free bs (next_largest i (big_or bs i) largest)
Free-next_largest bs i none h f = elim (Bool-cases (not (big_or bs i).taken && true)) [
  | inl e ↦ rw e (h, ground arith, refl)
  | inr e ↦ rw e tt
]
Free-next_largest bs i (some (j, z)) h f =
    elim (Bool-cases (not (big_or bs i).taken && ltb z (big_or bs i).size)) [
      | inl e ↦ rw e (h, ground arith, refl)
      | inr e ↦ rw e f
    ]

Chosen-step :
    (n : ℕ) (bs : List Big) (i : ℕ) (best largest : Option (ℕ × ℕ))
    → i < length bs
    → Chosen n bs i best largest
    → Chosen n bs (suc i) (next_best n i (big_or bs i) best) (next_largest i (big_or bs i) largest)
Chosen-step n bs i best largest h c =
    let f = Free-next_best n bs i best h c.best_free c.best_holds in
    record {
      best_free = f.0;
      best_holds = f.1;
      largest_free = Free-next_largest bs i largest h c.largest_free;
      smallest = λ j p q r. elim (ℕ_discrete j i) [
        | yes e ↦ rw e (AtMost-here n i (big_or bs i) best (rw e at q) (rw e at r))
        | no d ↦ AtMost-step n i (big_or bs i) best _ (c.smallest j (omega arith) q r)
      ];
      greatest = λ j p q. elim (ℕ_discrete j i) [
        | yes e ↦ rw e (AtLeast-here i (big_or bs i) largest (rw e at q))
        | no d ↦ AtLeast-step i (big_or bs i) largest _ (c.greatest j (omega arith) q)
      ];
    }

scan-Chosen :
    (n : ℕ) (bs rest : List Big) (i : ℕ) (best largest : Option (ℕ × ℕ))
    → length bs ≡ i + length rest
    → ((j : ℕ) → big_or bs (i + j) ≡ big_or rest j)
    → Chosen n bs i best largest
    → Chosen n bs (length bs) (scan n rest i best largest).0 (scan n rest i best largest).1
unfolding scan
scan-Chosen n bs [] i best largest e suffix c =
    let e' : i ≡ length bs = omega arith in subst (λ k. Chosen n bs k best largest) e' c
scan-Chosen n bs (b ∷ rest) i best largest e suffix c =
    let here : big_or bs i ≡ b = ap (big_or bs) {x = i} {y = i + 0} (omega arith) ∙ suffix 0 in
    scan-Chosen n bs rest (suc i) _ _ (omega arith)
      (λ j. ap (big_or bs) {x = suc i + j} {y = i + suc j} (omega arith) ∙ suffix (suc j))
      (rw here at (Chosen-step n bs i best largest (omega arith) c))

-- The choices of take_big.
pub Chosen-all :
    (n : ℕ) (bs : List Big)
    → Chosen n bs (length bs) (scan n bs 0 none none).0 (scan n bs 0 none none).1
Chosen-all n bs =
    scan-Chosen n bs bs 0 none none (omega arith) (λ j. ap (big_or bs) {x = 0 + j} (omega arith))
      (record {
        best_free = tt;
        best_holds = tt;
        largest_free = tt;
        smallest = λ j p. absurd (omega arith);
        greatest = λ j p. absurd (omega arith);
      })
