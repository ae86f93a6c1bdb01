-- ===== src/Schedule/Lanes.antt =====
-- solver/src/parallel/top_scheduler.hpp and top_scheduler.cpp: PassLanes, which hands the buffers of the
-- passes to chains of fronts. `room` is what the caller's function reads off a lane; a lane is marked
-- busy by `true`, and no lane by a negative number. std::abort is `none`.
pub mod Best
pub mod Laws
mod Tests
use opt_solver.Base.{
  ℕ, zero, suc, Bool, true, false, not, ◌&&◌, List, [], ◌∷◌, max, ltb, leb, if◌then◌else◌, length,
  get_or, set, replicate, Option, some, none,
}
use opt_solver.Base.Ints.{ℤ, pos, negsuc}

-- best and best_room
pub record Candidate : Type 0 where
  pub lane : ℕ
  pub room : ℕ

unfoldable pub pass_lanes : ℤ → List Bool
pass_lanes (pos lanes) = replicate (max 1 lanes) false
pass_lanes (negsuc lanes) = replicate 1 false

unfoldable pub release_lane : List Bool → ℤ → List Bool
release_lane busy (pos lane) = set busy lane false
release_lane busy (negsuc lane) = busy

abbrev pub is_better : ℕ → Option Candidate → Bool
is_better r none = true
is_better r (some c) = ltb c.room r

unfoldable pub best_lane : (ℕ → ℕ) → List Bool → ℕ → Option Candidate → Option Candidate
best_lane room [] l best = best
best_lane room (b ∷ busy) l best = best_lane room busy (suc l) (
    if b
    then best
    else if is_better (room l) best
    then some (record { lane = l; room = room l })
    else best)

unfoldable pub move_held : List Bool → ℕ → ℕ → Option Candidate → Option (ℕ × List Bool)
move_held busy held need none = some (held, busy)
move_held busy held need (some best) =
    if ltb best.room need
    then some (held, busy)
    else some (best.lane, set (set busy held false) best.lane true)

unfoldable pub take_best : List Bool → Option Candidate → Option (ℕ × List Bool)
take_best busy none = none
take_best busy (some best) = some (best.lane, set busy best.lane true)

unfoldable pub pick_start : (ℕ → ℕ) → List Bool → ℤ → ℕ → Option (ℕ × List Bool)
unfolding best_lane take_best
pick_start room busy (negsuc home) need = take_best busy (best_lane room busy 0 none)
pick_start room busy (pos home) need =
    if ltb home (length busy) && (not (get_or busy home false) && leb need (room home))
    then some (home, set busy home true)
    else take_best busy (best_lane room busy 0 none)

unfoldable pub pick : (ℕ → ℕ) → List Bool → ℤ → ℤ → ℕ → Option (ℕ × List Bool)
unfolding best_lane move_held pick_start
pick room busy (negsuc held) home need = pick_start room busy home need
pick room busy (pos held) home need =
    if leb need (room held)
    then some (held, busy)
    else move_held busy held need (best_lane room busy 0 none)
