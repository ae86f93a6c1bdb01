-- ===== src/Schedule/Tests.antt =====
-- solver/src/parallel/top_scheduler.cpp on a tree of two leaves and a root, run on four threads.
use opt_solver.Base.{ℕ, zero, suc, ◌+◌, ◌<◌, ◌≡◌, refl, true, false, List, [], ◌∷◌, get_or, arith}
use opt_solver.Base.Ints.{ℤ, pos, negsuc}
use opt_solver.Schedule.{Scheduler, run, top_scheduler, runnable, acquire, finish}
use opt_solver.Schedule.System.{Running, System, take, done, Reachable, begin, next}
use opt_solver.Schedule.Order.{active, completions}
use opt_solver.Schedule.Threads.{IsFunded, Reachable-IsFunded}
use opt_solver.Schedule.Progress.{runs_after_children, finished_completes_all, work_remains}

abbrev tree : List ℤ
tree = pos 2 ∷ pos 2 ∷ negsuc 0 ∷ []

abbrev first : Scheduler
first = top_scheduler tree 4

abbrev second : Scheduler
second = (acquire first).0

abbrev third : Scheduler
third = (acquire second).0

abbrev fourth : Scheduler
fourth = (finish third 0 1 true 2).0

abbrev fifth : Scheduler
fifth = (finish fourth 1 0 true 2).0

abbrev sixth : Scheduler
sixth = (finish fifth 2 0 true 4).0

abbrev worker : ℕ → ℕ → ℕ → Running
worker node tid threads = record { node = node; tid = tid; threads = threads }

abbrev both_run : System
both_run = record { sched = third; running = worker 0 1 2 ∷ worker 1 0 2 ∷ [] }

reach_both : Reachable tree 4 both_run
unfolding top_scheduler runnable acquire
reach_both = next (next begin (take 0 refl)) (take 1 refl)

abbrev root_runs : System
root_runs = record { sched = fifth; running = worker 2 0 4 ∷ [] }

reach_root : Reachable tree 4 root_runs
unfolding top_scheduler acquire finish
reach_root =
    next (next reach_both (done [] (worker 0 1 2) (worker 1 0 2 ∷ []))) (done [] (worker 1 0 2) [])

abbrev all_done : System
all_done = record { sched = sixth; running = [] }

reach_done : Reachable tree 4 all_done
unfolding top_scheduler acquire finish
reach_done = next reach_root (done [] (worker 2 0 4) [])

Reachable-IsFunded_example : IsFunded 4 both_run
Reachable-IsFunded_example = Reachable-IsFunded tree 4 both_run reach_both

root_active : 0 < active fifth.ready (worker 2 0 4 ∷ []) 2 + completions fifth.completed 2
unfolding top_scheduler acquire finish
root_active = omega arith

runs_after_children_example :
    (active fifth.ready (worker 2 0 4 ∷ []) 2 + completions fifth.completed 2 ≡ 1)
    × ((c : ℕ) → get_or tree c (negsuc 0) ≡ pos 2 → completions fifth.completed c ≡ 1)
runs_after_children_example = runs_after_children tree 4 root_runs reach_root 2 root_active

none_left : sixth.remaining ≡ 0
unfolding top_scheduler acquire finish
none_left = refl

finished_completes_all_example : (completions sixth.completed 1 ≡ 1) × (active sixth.ready [] 1 ≡ 0)
finished_completes_all_example =
    finished_completes_all tree 4 all_done reach_done none_left 1 (omega arith)

tree_rises : (c p : ℕ) → get_or tree c (negsuc 0) ≡ pos p → c < p
tree_rises zero p h = ground arith
tree_rises (suc zero) p h = ground arith
tree_rises (suc (suc zero)) p h = ground arith
tree_rises (suc (suc (suc c))) p h = ground arith

first_left : 0 < first.remaining
unfolding top_scheduler
first_left = omega arith

first_runs : first.stopped ≡ false
unfolding top_scheduler
first_runs = refl

work_remains_example : (runnable first ≡ true) × ((v : ℕ) × (t : ℕ) × ((acquire first).1 ≡ run v t))
work_remains_example = work_remains tree 4 first tree_rises begin first_runs first_left
