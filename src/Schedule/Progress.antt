-- ===== src/Schedule/Progress.antt =====
-- solver/src/parallel/top_scheduler.cpp: a node runs once and after its children, and while nodes are
-- left there is one to run.
use opt_solver.Base.{
  is_empty, if_true, if_false, ℕ, zero, suc, ◌+◌, ◌<◌, ◌≡◌, ◌≢◌, refl, sym, ap, subst, ◌∙◌, ◌⊎◌,
  inl, inr, true, false, ◌||◌, List, [], ◌∷◌, ltb, ◌==◌, if◌then◌else◌, length, get_or, arith,
  dec_lt, ℕ_discrete, get_or-out,
}
use opt_solver.Base.Ints.{ℤ, pos, negsuc, pos_part}
use opt_solver.Schedule.{Scheduler, Task, nothing, run, runnable, share, take_ready, acquire}
use opt_solver.Schedule.System.{System, Reachable}
use opt_solver.Schedule.Counting.{
  mark, count, mark_same, mark_other, is_child, open_child, undone, tally, tally_zero,
}
use opt_solver.Schedule.Invariant.{open_children, nodes_left}
use opt_solver.Schedule.Order.{active, completions}
use opt_solver.Schedule.Begin.{Reachable-IsTracked}
use opt_solver.Schedule.Threads.{Reachable-IsFunded}

child_inside : (parent : List ℤ) (c v : ℕ) → get_or parent c (negsuc 0) ≡ pos v → c < length parent
child_inside parent c v e = elim (dec_lt c (length parent)) [
  | yes lt ↦ lt
  | no ge ↦ absurd (let out = get_or-out parent c (negsuc 0) (omega arith) in ground arith)
]

open_zero : (n v : ℕ) → (if n == 0 then mark v v else 0) ≡ 0 → 0 < n
open_zero n v h = let m = mark_same v in ground arith

child_completed :
    (parent : List ℤ) (threads : ℕ) (s : System)
    → Reachable parent threads s
    → (v c : ℕ) → 0 < active s.sched.ready s.running v + completions s.sched.completed v
    → get_or parent c (negsuc 0) ≡ pos v
    → completions s.sched.completed c ≡ 1
child_completed parent threads s r v c h up =
    let t = (Reachable-IsTracked parent threads s r).1 in
    let known = t.known v h in
    let none_open : open_children parent (completions s.sched.completed) v ≡ 0 =
      omega (arith, t.owed v known.0) in
    let zero =
      tally_zero (open_child (completions s.sched.completed) v) parent 0 c
        (child_inside parent c v up) none_open in
    let closed : 0 < completions s.sched.completed c =
      open_zero (completions s.sched.completed c) v (
        subst (λ z. open_child (completions s.sched.completed) v c z ≡ 0) up
          (subst
            (λ z. open_child (completions s.sched.completed) v z (get_or parent c (negsuc 0)) ≡ 0)
            {x = 0 + c} {y = c} (omega arith) zero)) in
    omega (arith, t.once c)

-- In every state that the workers reach, a node that is ready, running or completed is so once, and each of
-- its children has completed once.
pub runs_after_children :
    (parent : List ℤ) (threads : ℕ) (s : System)
    → Reachable parent threads s
    → (v : ℕ) → 0 < active s.sched.ready s.running v + completions s.sched.completed v
    → (active s.sched.ready s.running v + completions s.sched.completed v ≡ 1)
      × ((c : ℕ) → get_or parent c (negsuc 0) ≡ pos v → completions s.sched.completed c ≡ 1)
runs_after_children parent threads s r v h =
    let t = (Reachable-IsTracked parent threads s r).1 in
    (omega (arith, t.once v, h), λ c up. child_completed parent threads s r v c h up)

undone_zero : (n : ℕ) → undone (λ j. n) 0 (pos 0) ≡ 0 → 0 < n
undone_zero n h = ground arith

-- In a reachable state whose count of nodes left is 0, every node of the tree has completed once and is
-- neither ready nor running.
pub finished_completes_all :
    (parent : List ℤ) (threads : ℕ) (s : System)
    → Reachable parent threads s
    → s.sched.remaining ≡ 0
    → (v : ℕ) → v < length parent
    → (completions s.sched.completed v ≡ 1) × (active s.sched.ready s.running v ≡ 0)
finished_completes_all parent threads s r e v lt =
    let t = (Reachable-IsTracked parent threads s r).1 in
    let zero =
      tally_zero (undone (completions s.sched.completed)) parent 0 v lt
        (omega (arith, t.counted)) in
    let completed : 0 < completions s.sched.completed v =
      undone_zero (completions s.sched.completed v) (
        subst (λ z. undone (completions s.sched.completed) z (negsuc 0) ≡ 0) {x = 0 + v} {y = v}
          (omega arith) zero) in
    (omega (arith, t.once v), omega (arith, t.once v))

tally_none :
    (w : ℕ → ℤ → ℕ) (ps : List ℤ) (i : ℕ)
    → ((k : ℕ) → k < length ps → w (i + k) (get_or ps k (negsuc 0)) ≡ 0)
    → tally w i ps ≡ 0
tally_none w [] i h = refl
tally_none w (p ∷ ps) i h =
    let first = subst (λ j. w j p ≡ 0) {x = i + 0} {y = i} (omega arith) (h 0 (omega arith)) in
    let rest = tally_none w ps (suc i) (λ k lt.
      subst (λ j. w j (get_or ps k (negsuc 0)) ≡ 0) {x = i + suc k} {y = suc i + k} (omega arith)
        (h (suc k) (omega arith))) in
    omega arith

-- The least node below `n` that has not completed.
record Least (d : ℕ → ℕ) (n : ℕ) : Type 0 where
  at : ℕ
  inside : at < n
  undone_at : d at ≡ 0
  below : (j : ℕ) → j < at → 0 < d j

least : (d : ℕ → ℕ) (n : ℕ) → ((j : ℕ) → j < n → 0 < d j) ⊎ Least d n
least d zero = inl (λ j h. absurd (omega arith))
least d (suc n) = elim (least d n) [
  | inr l ↦ inr (record {
    at = l.at;
    inside = omega (arith, l.inside);
    undone_at = l.undone_at;
    below = l.below;
  })
  | inl all ↦ elim (ℕ_discrete (d n) 0) [
    | yes e ↦ inr (record { at = n; inside = omega arith; undone_at = e; below = all })
    | no ne ↦ inl (λ j h. elim (dec_lt j n) [
      | yes lt ↦ all j lt
      | no ge ↦ subst (λ z. 0 < d z) {x = n} {y = j} (omega arith) (omega arith)
    ])
  ]
]

closed_child : (n : ℕ) (p : ℤ) (v : ℕ) → 0 < n → (if n == 0 then is_child p v else 0) ≡ 0
closed_child n p v h = ground arith

other_child : (n : ℕ) (p : ℤ) (v : ℕ) → (p ≢ pos v) → (if n == 0 then is_child p v else 0) ≡ 0
other_child n (pos p) v h = let m = mark_other v p (λ e. h (ap pos (sym e))) in ground arith
other_child n (negsuc p) v h = ground arith

is_pos : (p : ℤ) (v : ℕ) → Dec (p ≡ pos v)
is_pos (pos p) v = elim (ℕ_discrete p v) [
  | yes e ↦ yes (ap pos e)
  | no ne ↦ no (λ e. ne (ap pos_part e))
]
is_pos (negsuc p) v = no (λ e. ground arith)

some_left : (parent : List ℤ) (d : ℕ → ℕ) → 0 < nodes_left parent d → Least d (length parent)
some_left parent d h = elim (least d (length parent)) [
  | inr l ↦ l
  | inl all ↦ absurd (
      omega (
        arith,
        tally_none (undone d) parent 0 (λ k lt.
            let here = subst (λ z. 0 < d z) {x = k} {y = 0 + k} (omega arith) (all k lt) in
            ground arith),
      ))
]

no_open_children :
    (parent : List ℤ) (d : ℕ → ℕ)
    → ((c p : ℕ) → get_or parent c (negsuc 0) ≡ pos p → c < p)
    → (l : Least d (length parent)) → open_children parent d l.at ≡ 0
no_open_children parent d above l = tally_none (open_child d l.at) parent 0 (λ k lt.
    elim (is_pos (get_or parent k (negsuc 0)) l.at) [
      | yes e ↦
          closed_child (d (0 + k)) (get_or parent k (negsuc 0)) l.at
            (subst (λ z. 0 < d z) {x = k} {y = 0 + k} (omega arith) (l.below k (above k l.at e)))
      | no ne ↦ other_child (d (0 + k)) (get_or parent k (negsuc 0)) l.at ne
    ])

take_ready_run :
    (s : Scheduler) (v : ℕ) (vs : List ℕ)
    → 0 < s.free
    → (take_ready s (v ∷ vs)).1 ≡ run v (share s.free vs)
unfolding take_ready
take_ready_run s v vs h =
    ap {A = Scheduler × Task} (λ o. o.1) (if_true (ltb 0 s.free) _ _ (ground arith))

acquire_run :
    (s : Scheduler) (v : ℕ) (vs : List ℕ)
    → s.ready ≡ v ∷ vs
    → 0 < s.free
    → s.stopped ≡ false
    → 0 < s.remaining
    → (acquire s).1 ≡ run v (share s.free vs)
unfolding acquire
acquire_run s v vs e f st l =
    ap {A = Scheduler × Task} (λ o. o.1)
      (if_false (s.stopped || s.remaining == 0) (s, nothing) (take_ready s s.ready) (ground arith))
    ∙ ap (λ z. (take_ready s z).1) e
    ∙ take_ready_run s v vs f

runnable_ready :
    (s : Scheduler) (v : ℕ) (vs : List ℕ) → s.ready ≡ v ∷ vs → 0 < s.free → runnable s ≡ true
unfolding runnable
runnable_ready s v vs e f = let full : is_empty s.ready ≡ false = ap is_empty e in ground arith

count_nonempty : (v : ℕ) (xs : List ℕ) → 0 < count v xs → (u : ℕ) × (us : List ℕ) × (xs ≡ u ∷ us)
count_nonempty v [] h = absurd (omega arith)
count_nonempty v (x ∷ xs) h = (x, xs, refl)

-- While the factorization has not stopped and nodes are left, a reachable state in which no worker runs a node lets a worker
-- through and gives it a node and threads, where the tree numbers each node below its parent.
pub work_remains :
    (parent : List ℤ) (threads : ℕ) (s : Scheduler)
    → ((c p : ℕ) → get_or parent c (negsuc 0) ≡ pos p → c < p)
    → Reachable parent threads (record { sched = s; running = [] })
    → s.stopped ≡ false
    → 0 < s.remaining
    → (runnable s ≡ true) × ((v : ℕ) × (t : ℕ) × ((acquire s).1 ≡ run v t))
work_remains parent threads s above r st more =
    let t = (Reachable-IsTracked parent threads _ r).1 in
    let d = completions s.completed in
    let l : Least d (length parent) = some_left parent d (omega (arith, t.counted)) in
    let closed = no_open_children parent d above l in
    let here = t.listed l.at st l.inside (omega (arith, t.exact l.at st more l.inside)) in
    let found = count_nonempty l.at s.ready (omega (arith, l.undone_at)) in
    let free : 0 < s.free = omega (arith, (Reachable-IsFunded parent threads _ r).0) in
    (
      runnable_ready s found.0 found.1 found.2 free,
      (found.0, share s.free found.1, acquire_run s found.0 found.1 found.2 free st more),
    )
