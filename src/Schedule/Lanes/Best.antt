-- ===== src/Schedule/Lanes/Best.antt =====
-- solver/src/parallel/top_scheduler.hpp: the lane that the scan of PassLanes::pick ends with.
use opt_solver.Base.{
  ℕ, zero, suc, ◌+◌, ◌≤◌, ◌≡◌, refl, sym, ap, subst, ◌∙◌, ◌⊎◌, inl, inr, Bool, true, false, List,
  [], ◌∷◌, ltb, if◌then◌else◌, get_or, Option, some, none, arith, if_both,
}
use opt_solver.Schedule.Lanes.{Candidate, is_better, best_lane}

-- The lane exists and no chain holds it.
abbrev pub IsFree : List Bool → ℕ → Type 0
IsFree busy l = get_or busy l true ≡ false

abbrev improve : (ℕ → ℕ) → Bool → ℕ → Option Candidate → Option Candidate
improve room b l best =
    if b
    then best
    else if is_better (room l) best
    then some (record { lane = l; room = room l })
    else best

abbrev room_of : Option Candidate → ℕ
room_of none = 0
room_of (some c) = c.room

abbrev lane_of : Option Candidate → ℕ
lane_of none = 0
lane_of (some c) = c.lane

-- A candidate with at least the room `r`.
abbrev pub HasRoom : ℕ → Option Candidate → Type 0
HasRoom r best = (c : Candidate) × (best ≡ some c) × (r ≤ c.room)

HasRoom-improve :
    (room : ℕ → ℕ) (b : Bool) (l r : ℕ) (best : Option Candidate)
    → HasRoom r best
    → HasRoom r (improve room b l best)
HasRoom-improve room b l r none h = absurd (ground arith)
HasRoom-improve room true l r (some c) h = h
HasRoom-improve room false l r (some c) (d, e, h) =
    let same : c.room ≡ d.room = ap room_of e in
    if_both (HasRoom r) (ltb c.room (room l)) (some (record { lane = l; room = room l })) (some c)
      (λ k. (record { lane = l; room = room l }, refl, ground arith)) (λ k. (d, e, h))

HasRoom-free :
    (room : ℕ → ℕ) (l : ℕ) (best : Option Candidate) → HasRoom (room l) (improve room false l best)
HasRoom-free room l none = (record { lane = l; room = room l }, refl, omega arith)
HasRoom-free room l (some c) =
    if_both (HasRoom (room l)) (ltb c.room (room l)) (some (record { lane = l; room = room l }))
      (some c) (λ k. (record { lane = l; room = room l }, refl, omega arith))
      (λ k. (c, refl, ground arith))

HasRoom-later :
    (room : ℕ → ℕ) (busy : List Bool) (i r : ℕ) (best : Option Candidate)
    → HasRoom r best
    → HasRoom r (best_lane room busy i best)
unfolding best_lane
HasRoom-later room [] i r best h = h
HasRoom-later room (b ∷ busy) i r best h =
    HasRoom-later room busy (suc i) r (improve room b i best) (HasRoom-improve room b i r best h)

pub HasRoom-best_lane :
    (room : ℕ → ℕ) (busy : List Bool) (i k : ℕ) (best : Option Candidate)
    → IsFree busy k
    → HasRoom (room (i + k)) (best_lane room busy i best)
unfolding best_lane
HasRoom-best_lane room [] i k best h = absurd (ground arith)
HasRoom-best_lane room (true ∷ busy) i zero best h = absurd (ground arith)
HasRoom-best_lane room (false ∷ busy) i zero best h =
    subst (λ z. HasRoom (room z) (best_lane room busy (suc i) (improve room false i best))) {x = i}
      {y = i + 0} (omega arith)
      (HasRoom-later room busy (suc i) (room i) (improve room false i best)
        (HasRoom-free room i best))
HasRoom-best_lane room (b ∷ busy) i (suc k) best h =
    subst (λ z. HasRoom (room z) (best_lane room busy (suc i) (improve room b i best)))
      {x = suc i + k} {y = i + suc k} (omega arith)
      (HasRoom-best_lane room busy (suc i) k (improve room b i best) h)

-- Where the candidate is from: it was there, or it is a free lane with its room.
abbrev pub IsFrom : (ℕ → ℕ) → List Bool → ℕ → Option Candidate → Candidate → Type 0
IsFrom room busy i best c =
    (best ≡ some c) ⊎ ((k : ℕ) × (c.lane ≡ i + k) × (c.room ≡ room c.lane) × IsFree busy k)

IsFrom-improve :
    (room : ℕ → ℕ) (b : Bool) (l : ℕ) (best : Option Candidate) (c : Candidate)
    → improve room b l best ≡ some c
    → (best ≡ some c) ⊎ ((b ≡ false) × (c.lane ≡ l) × (c.room ≡ room c.lane))
IsFrom-improve room true l best c h = inl h
IsFrom-improve room false l best c h =
    if_both
      (λ o.
        o ≡ some c → (best ≡ some c) ⊎ ((false ≡ false) × (c.lane ≡ l) × (c.room ≡ room c.lane)))
      (is_better (room l) best) (some (record { lane = l; room = room l })) best
      (λ k e. inr (refl, sym (ap lane_of e), sym (ap room_of e) ∙ ap room (ap lane_of e)))
      (λ k e. inl e) h

pub IsFrom-best_lane :
    (room : ℕ → ℕ) (busy : List Bool) (i : ℕ) (best : Option Candidate) (c : Candidate)
    → best_lane room busy i best ≡ some c
    → IsFrom room busy i best c
unfolding best_lane
IsFrom-best_lane room [] i best c h = inl h
IsFrom-best_lane room (b ∷ busy) i best c h =
    elim (IsFrom-best_lane room busy (suc i) (improve room b i best) c h) [
      | inr (k, e, r, f) ↦ inr (suc k, omega arith, r, f)
      | inl e ↦ elim (IsFrom-improve room b i best c e) [
        | inl g ↦ inl g
        | inr (f, l, r) ↦ inr (0, omega arith, r, f)
      ]
    ]
