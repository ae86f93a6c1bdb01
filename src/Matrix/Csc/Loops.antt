-- ===== src/Matrix/Csc/Loops.antt =====
-- The loops of validate_shape run without a fault, and what their results say.
use native.Mathlib.Numerals.{add-one}
use opt_solver.Base.{
  ℕ_discrete, dec_lt, ℕ, zero, suc, ◌+◌, ◌-◌, ◌≤◌, ◌<◌, ◌≡◌, refl, sym, ap, subst, ◌∙◌, ◌↔◌, Bool,
  true, false, not, ◌||◌, List, [], ◌∷◌, map, if◌then◌else◌, length, get_elem?, get_or, get_or-map,
  length-map, Option, some, arith,
}
use opt_solver.Base.Ints.{ℤ, pos, negsuc, pos_part, neg_part, ltz, difference}
use opt_solver.Matrix.Csc.{monotone_from, rows_from, columns_from}

-- a ≤ b
abbrev pub LeZ : ℤ → ℤ → Type 0
LeZ a b = pos_part a + neg_part b ≤ pos_part b + neg_part a

abbrev pub at : List ℤ → ℕ → ℤ
at v i = get_or v i (pos 0)

pub get_elem?-at : (v : List ℤ) (i : ℕ) → i < length v → get_elem? v i ≡ some (at v i)
get_elem?-at [] i h = absurd (omega arith)
get_elem?-at (x ∷ v) zero h = refl
get_elem?-at (x ∷ v) (suc i) h = get_elem?-at v i (omega arith)

-- A loop that ran without a fault: its result, which is true exactly when `P` holds.
abbrev pub Decides : Type 0 → Option Bool → Type 0
Decides P r = (b : Bool) × (r ≡ some b) × ((b ≡ true) ↔ P)

-- One round of a loop that stops at the first index where `bad` holds.
pub Decides-next :
    (P : ℕ → Type 0) (j rounds : ℕ) (bad : Bool) (rest : Option Bool)
    → ((bad ≡ false) ↔ P j)
    → Decides ((i : ℕ) → j + 1 ≤ i → i < j + 1 + rounds → P i) rest
    → Decides ((i : ℕ) → j ≤ i → i < j + suc rounds → P i) (if bad then some false else rest)
Decides-next P j rounds true rest here later =
    (false, refl, (λ c. cc, λ f. absurd (cc (here.1 (f j (omega arith) (omega arith))))))
Decides-next P j rounds false rest here (b, e, (sound, complete)) = (
  b,
  e,
  (
    λ c i p q. elim (ℕ_discrete i j) [
      | yes same ↦ subst P (sym same) (here.0 refl)
      | no other ↦ sound c i (omega arith) (omega arith)
    ],
    λ f. complete (λ i p q. f i (omega arith) (omega arith)),
  ),
)

pub monotone_from_lem :
    (v : List ℤ) (rounds j : ℕ)
    → j + rounds < length v
    → Decides
        ((i : ℕ) → j ≤ i → i < j + rounds → LeZ (at v i) (at v (i + 1)))
        (monotone_from v rounds j)
unfolding monotone_from
monotone_from_lem v zero j h = (true, refl, (λ e i p q. absurd (omega arith), λ f. refl))
monotone_from_lem v (suc rounds) j h =
    rw (get_elem?-at v (j + 1) (omega arith), get_elem?-at v j (omega arith))
      (Decides-next (λ i. LeZ (at v i) (at v (i + 1))) j rounds (ltz (at v (j + 1)) (at v j)) _
        (ground arith) (monotone_from_lem v rounds (j + 1) (omega arith)))

-- The entry at `k` of column `j` lies in the lower triangle.
abbrev pub RowIsLower : List ℤ → ℕ → ℕ → ℕ → Type 0
RowIsLower rows n j k = (ltz (at rows k) (pos j) ≡ false) × (ltz (at rows k) (pos n) ≡ true)

abbrev pub ColumnIsLower : List ℕ → List ℤ → ℕ → ℕ → Type 0
ColumnIsLower v rows n j =
    (k : ℕ) → get_or v j 0 ≤ k → k < get_or v (j + 1) 0 → RowIsLower rows n j k

pub get_elem?-pos :
    (v : List ℕ) (i : ℕ) → i < length v → get_elem? (map pos v) i ≡ some (pos (get_or v i 0))
get_elem?-pos v i h =
    get_elem?-at (map pos v) i (omega (arith, length-map v pos)) ∙ ap some (get_or-map pos v i 0)

-- The same round where the loop goes on while `ok` holds.
pub Decides-while :
    (P : ℕ → Type 0) (j rounds : ℕ) (ok : Bool) (rest : Option Bool)
    → ((ok ≡ true) ↔ P j)
    → Decides ((i : ℕ) → j + 1 ≤ i → i < j + 1 + rounds → P i) rest
    → Decides ((i : ℕ) → j ≤ i → i < j + suc rounds → P i) (if ok then rest else some false)
Decides-while P j rounds true rest here later =
    Decides-next P j rounds false rest (λ e. here.0 refl, λ p. refl) later
Decides-while P j rounds false rest here later =
    Decides-next P j rounds true rest (λ e. cc, λ p. cc (here.1 p)) later

pub rows_from_lem :
    (rows : List ℤ) (n j rounds k : ℕ)
    → k + rounds ≤ length rows
    → Decides
        ((i : ℕ) → k ≤ i → i < k + rounds → RowIsLower rows n j i)
        (rows_from rows (pos n) j rounds (pos k))
unfolding rows_from
rows_from_lem rows n j zero k h = (true, refl, (λ e i p q. absurd (omega arith), λ f. refl))
rows_from_lem rows n j (suc rounds) k h = rw (get_elem?-at rows k (omega arith)) (
    Decides-next (λ i. RowIsLower rows n j i) k rounds
      (ltz (at rows k) (pos j) || not (ltz (at rows k) (pos n))) _ (ground arith)
      (rw (add-one k) (rows_from_lem rows n j rounds (suc k) (omega arith))))

pub columns_from_lem :
    (v : List ℕ) (rows : List ℤ) (n rounds j : ℕ)
    → j + rounds < length v
    → ((i : ℕ)
        → j ≤ i
        → i < j + rounds
        → (get_or v i 0 ≤ get_or v (i + 1) 0) × (get_or v (i + 1) 0 ≤ length rows))
    → Decides
        ((i : ℕ) → j ≤ i → i < j + rounds → ColumnIsLower v rows n i)
        (columns_from (map pos v) rows (pos n) rounds j)
unfolding columns_from
columns_from_lem v rows n zero j h mono = (true, refl, (λ e i p q. absurd (omega arith), λ f. refl))
columns_from_lem v rows n (suc rounds) j h mono =
    let a = get_or v j 0 in
    let b = get_or v (j + 1) 0 in
    let (inside, below) = mono j (omega arith) (omega arith) in
    let count : difference (pos b) (pos a) ≡ b - a = omega arith in
    let (ok, e, (sound, complete)) = rows_from_lem rows n j (b - a) a (omega arith) in
    rw (get_elem?-pos v j (omega arith), get_elem?-pos v (j + 1) (omega arith))
      (rw (count, e)
        (Decides-while (ColumnIsLower v rows n) j rounds ok _
          (λ t k p q. sound t k p (omega arith), λ f. complete (λ k p q. f k p (omega arith)))
          (columns_from_lem v rows n rounds (j + 1) (omega arith)
            (λ i p q. mono i (omega arith) (omega arith)))))

pub neg_part-zero_of_ge : (a z : ℤ) → neg_part a ≡ 0 → LeZ a z → neg_part z ≡ 0
neg_part-zero_of_ge a (pos n) e h = refl
neg_part-zero_of_ge a (negsuc n) e h = absurd (omega arith)

-- A vector that starts at 0 and never falls holds no negative number.
pub rising_nonneg :
    (v : List ℤ) (i : ℕ)
    → at v 0 ≡ pos 0
    → ((k : ℕ) → k < i → LeZ (at v k) (at v (k + 1)))
    → neg_part (at v i) ≡ 0
rising_nonneg v zero start rises = rw start
rising_nonneg v (suc i) start rises =
    neg_part-zero_of_ge (at v i) (at v (suc i))
      (rising_nonneg v i start (λ k p. rises k (omega arith)))
      (rw (add-one i) at (rises i (omega arith)))

pub map-pos :
    (v : List ℤ) → ((i : ℕ) → i < length v → neg_part (at v i) ≡ 0) → v ≡ map pos (map pos_part v)
map-pos [] h = refl
map-pos (pos x ∷ v) h = ap (◌∷◌ (pos x)) (map-pos v (λ i p. h (suc i) (omega arith)))
map-pos (negsuc x ∷ v) h = absurd (omega (arith, h 0 (omega arith)))

-- Every entry lies in a column.
pub column_of :
    (v : List ℕ) (n k : ℕ)
    → get_or v 0 0 ≡ 0
    → k < get_or v n 0
    → (j : ℕ) × (j < n) × (get_or v j 0 ≤ k) × (k < get_or v (j + 1) 0)
column_of v zero k start h = absurd (omega arith)
column_of v (suc n) k start h = elim (dec_lt k (get_or v n 0)) [
  | yes before ↦ let (j, p, q, r) = column_of v n k start before in (j, omega arith, q, r)
  | no last ↦ (n, omega arith, omega arith, rw (add-one n) h)
]
