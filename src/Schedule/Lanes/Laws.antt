-- ===== src/Schedule/Lanes/Laws.antt =====
-- solver/src/parallel/top_scheduler.hpp: which lane PassLanes::pick hands out.
use opt_solver.Base.{
  Holds, ℕ, zero, suc, ◌+◌, ◌≤◌, ◌<◌, ◌≡◌, refl, sym, ap, subst, ◌⊎◌, inl, inr, Bool, true, false,
  not, ◌&&◌, List, [], ◌∷◌, ltb, leb, length, get_or, set, Option, some, none, arith, if_both,
}
use opt_solver.Base.Ints.{ℤ, pos, negsuc}
use opt_solver.Schedule.Lanes.{Candidate, best_lane, move_held, take_best, pick_start, pick}
use opt_solver.Schedule.Lanes.Best.{IsFree, HasRoom, HasRoom-best_lane, IsFrom-best_lane}

IsFree-within :
    (busy : List Bool) (l : ℕ) → l < length busy → get_or busy l false ≡ false → IsFree busy l
IsFree-within [] l h e = absurd (omega arith)
IsFree-within (b ∷ busy) zero h e = e
IsFree-within (b ∷ busy) (suc l) h e = IsFree-within busy l (omega arith) e

best_lane-IsFree :
    (room : ℕ → ℕ) (busy : List Bool) (c : Candidate)
    → best_lane room busy 0 none ≡ some c
    → IsFree busy c.lane × (c.room ≡ room c.lane)
best_lane-IsFree room busy c h = elim (IsFrom-best_lane room busy 0 none c h) [
  | inl e ↦ absurd (ground arith)
  | inr (k, e, r, f) ↦ (subst (λ z. IsFree busy z) {x = k} {y = c.lane} (omega arith) f, r)
]

-- The lane `l` that a chain gets, and the lanes afterwards.
abbrev pub Picked : (ℕ → ℕ) → List Bool → ℤ → ℕ → ℕ × List Bool → Type 0
Picked room busy (negsuc held) need (l, after) = IsFree busy l × (after ≡ set busy l true)
Picked room busy (pos held) need (l, after) =
    ((l ≡ held) × (after ≡ busy))
    ⊎ (IsFree busy l
        × (need ≤ room l)
        × (room held < need)
        × (after ≡ set (set busy held false) l true))

Picked-take_best :
    (room : ℕ → ℕ) (busy : List Bool) (k need : ℕ) (best : Option Candidate)
    → best_lane room busy 0 none ≡ best
    → Holds (Picked room busy (negsuc k) need) (take_best busy best)
unfolding take_best
Picked-take_best room busy k need none e = tt
Picked-take_best room busy k need (some c) e = ((best_lane-IsFree room busy c e).0, refl)

Picked-move_held :
    (room : ℕ → ℕ) (busy : List Bool) (held need : ℕ) (best : Option Candidate)
    → room held < need
    → best_lane room busy 0 none ≡ best
    → Holds (Picked room busy (pos held) need) (move_held busy held need best)
unfolding move_held
Picked-move_held room busy held need none small e = inl (refl, refl)
Picked-move_held room busy held need (some c) small e =
    if_both (Holds (Picked room busy (pos held) need)) (ltb c.room need) (some (held, busy))
      (some (c.lane, set (set busy held false) c.lane true)) (λ h. inl (refl, refl))
      (λ h.
        let f = best_lane-IsFree room busy c e in
        let enough : need ≤ c.room = ground arith in
        inr (f.0, subst (λ z. need ≤ z) f.1 enough, small, refl))

Picked-pick_start :
    (room : ℕ → ℕ) (busy : List Bool) (k : ℕ) (home : ℤ) (need : ℕ)
    → Holds (Picked room busy (negsuc k) need) (pick_start room busy home need)
unfolding pick_start
Picked-pick_start room busy k (negsuc home) need =
    Picked-take_best room busy k need (best_lane room busy 0 none) refl
Picked-pick_start room busy k (pos home) need =
    if_both (Holds (Picked room busy (negsuc k) need))
      (ltb home (length busy) && (not (get_or busy home false) && leb need (room home)))
      (some (home, set busy home true)) (take_best busy (best_lane room busy 0 none))
      (λ h. (IsFree-within busy home (ground arith) (ground arith), refl))
      (λ h. Picked-take_best room busy k need (best_lane room busy 0 none) refl)

Picked-pick_all :
    (room : ℕ → ℕ) (busy : List Bool) (held home : ℤ) (need : ℕ)
    → Holds (Picked room busy held need) (pick room busy held home need)
unfolding pick
Picked-pick_all room busy (negsuc held) home need = Picked-pick_start room busy held home need
Picked-pick_all room busy (pos held) home need =
    if_both (Holds (Picked room busy (pos held) need)) (leb need (room held)) (some (held, busy))
      (move_held busy held need (best_lane room busy 0 none)) (λ h. inl (refl, refl))
      (λ h. Picked-move_held room busy held need (best_lane room busy 0 none) (ground arith) refl)

-- The lane that a chain gets is the one it holds, the lanes unchanged, or was free and is the one lane marked
-- busy; a chain that moves off a lane frees it, and moves only from a lane without the room to one
-- that has it.
pub Picked-pick :
    (room : ℕ → ℕ) (busy : List Bool) (held home : ℤ) (need : ℕ) (o : ℕ × List Bool)
    → pick room busy held home need ≡ some o
    → Picked room busy held need o
Picked-pick room busy held home need o h =
    subst (Holds (Picked room busy held need)) h (Picked-pick_all room busy held home need)

abbrev HasEnough : (ℕ → ℕ) → ℕ → Option (ℕ × List Bool) → Type 0
HasEnough room need picked =
    (l : ℕ) × (busy : List Bool) × (picked ≡ some (l, busy)) × (need ≤ room l)

HasEnough-take_best :
    (room : ℕ → ℕ) (busy : List Bool) (need : ℕ) (c : Candidate)
    → need ≤ room c.lane
    → HasEnough room need (take_best busy (some c))
unfolding take_best
HasEnough-take_best room busy need c h = (c.lane, set busy c.lane true, refl, h)

HasEnough-move_held :
    (room : ℕ → ℕ) (busy : List Bool) (held need : ℕ) (c : Candidate)
    → need ≤ c.room
    → need ≤ room c.lane
    → HasEnough room need (move_held busy held need (some c))
unfolding move_held
HasEnough-move_held room busy held need c h k =
    if_both (HasEnough room need) (ltb c.room need) (some (held, busy))
      (some (c.lane, set (set busy held false) c.lane true)) (λ e. absurd (ground arith))
      (λ e. (c.lane, set (set busy held false) c.lane true, refl, k))

HasEnough-pick :
    (room : ℕ → ℕ) (busy : List Bool) (held home : ℤ) (need : ℕ) (c : Candidate)
    → best_lane room busy 0 none ≡ some c
    → need ≤ c.room
    → need ≤ room c.lane
    → HasEnough room need (pick room busy held home need)
unfolding pick pick_start
HasEnough-pick room busy (negsuc held) (negsuc home) need c e h k =
    subst (λ z. HasEnough room need (take_best busy z)) (sym e)
      (HasEnough-take_best room busy need c k)
HasEnough-pick room busy (negsuc held) (pos home) need c e h k =
    if_both (HasEnough room need)
      (ltb home (length busy) && (not (get_or busy home false) && leb need (room home)))
      (some (home, set busy home true)) (take_best busy (best_lane room busy 0 none))
      (λ b. (home, set busy home true, refl, ground arith))
      (λ b.
        subst (λ z. HasEnough room need (take_best busy z)) (sym e)
          (HasEnough-take_best room busy need c k))
HasEnough-pick room busy (pos held) home need c e h k =
    if_both (HasEnough room need) (leb need (room held)) (some (held, busy))
      (move_held busy held need (best_lane room busy 0 none))
      (λ b. (held, busy, refl, ground arith))
      (λ b.
        subst (λ z. HasEnough room need (move_held busy held need z)) (sym e)
          (HasEnough-move_held room busy held need c h k))

-- When some free lane has the room that is needed, pick does not abort and the chain gets a lane with that
-- room.
pub pick_has_room :
    (room : ℕ → ℕ) (busy : List Bool) (held home : ℤ) (need k : ℕ)
    → IsFree busy k
    → need ≤ room k
    → (l : ℕ) × (after : List Bool) × (pick room busy held home need ≡ some (l, after))
      × (need ≤ room l)
pick_has_room room busy held home need k free enough =
    let (c, e, h) : HasRoom (room (0 + k)) (best_lane room busy 0 none) =
      HasRoom-best_lane room busy 0 k none free in
    let here : room (0 + k) ≡ room k = ap room (omega arith) in
    let f = best_lane-IsFree room busy c e in
    let fits : need ≤ c.room = omega arith in
    HasEnough-pick room busy held home need c e fits (subst (λ z. need ≤ z) f.1 fits)
