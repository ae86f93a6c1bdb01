-- ===== src/Schedule/Lanes/Tests.antt =====
-- solver/src/parallel/top_scheduler.hpp: PassLanes on three lanes.
use opt_solver.Base.{ℕ, ◌≤◌, ◌≡◌, refl, Bool, true, false, List, [], ◌∷◌, some, get_or, arith}
use opt_solver.Base.Ints.{pos, negsuc}
use opt_solver.Schedule.Lanes.{pick, pick_start, best_lane, move_held, take_best}
use opt_solver.Schedule.Lanes.Laws.{Picked, Picked-pick, pick_has_room}

abbrev rooms : ℕ → ℕ
rooms l = get_or (30 ∷ 50 ∷ 70 ∷ []) l 0

abbrev lanes : List Bool
lanes = true ∷ false ∷ false ∷ []

moves : pick rooms lanes (pos 0) (pos 1) 60 ≡ some (2, false ∷ false ∷ true ∷ [])
unfolding pick pick_start best_lane move_held take_best
moves = refl

starts : pick rooms lanes (negsuc 0) (pos 1) 60 ≡ some (2, true ∷ false ∷ true ∷ [])
unfolding pick pick_start best_lane move_held take_best
starts = refl

Picked-pick_example : Picked rooms lanes (pos 0) 60 (2, false ∷ false ∷ true ∷ [])
Picked-pick_example =
    Picked-pick rooms lanes (pos 0) (pos 1) 60 (2, false ∷ false ∷ true ∷ []) moves

pick_has_room_example :
    (l : ℕ) × (after : List Bool) × (pick rooms lanes (negsuc 0) (pos 0) 60 ≡ some (l, after))
    × (60 ≤ rooms l)
pick_has_room_example = pick_has_room rooms lanes (negsuc 0) (pos 0) 60 2 refl (omega arith)
