-- ===== src/Schedule/Begin.antt =====
-- solver/src/parallel/top_scheduler.cpp: what every reachable state keeps about the nodes.
use opt_solver.Base.{
  ℕ, suc, ◌+◌, ◌≤◌, ◌<◌, ◌≡◌, refl, ap, ◌∙◌, List, [], ◌∷◌, ◌==◌, if◌then◌else◌, length, get_or,
  replicate, arith, dec_lt, length-replicate, if_both, get_or-replicate,
}
use opt_solver.Base.Ints.{ℤ}
use opt_solver.Schedule.{count_children, push_leaves, top_scheduler, stop, offer, withdraw}
use opt_solver.Schedule.System.{
  System, Step, take, done, fail, halt, lend, recall, start, Reachable, begin, next,
}
use opt_solver.Schedule.Counting.{
  count, undone, tally, count_children_get, length-count_children, leaf, count-push_leaves,
  leaf_after, leaf_at,
}
use opt_solver.Schedule.Invariant.{open_children, Tracked-stop}
use opt_solver.Schedule.Order.{
  completions, IsTracked, WasTaken-acquire, WasFinished-done, WasFinished-fail,
}

IsTracked-step :
    (parent : List ℤ) {s t : System} → IsTracked parent s → Step s t → IsTracked parent t
unfolding stop offer withdraw
IsTracked-step parent f (take {s} {rs} tid g) = WasTaken-acquire parent rs tid s f
IsTracked-step parent f (done {s} before r after) = WasFinished-done parent s before r after f
IsTracked-step parent f (fail {s} before r after g) = WasFinished-fail parent s before r after f g
IsTracked-step parent f halt = (f.0, Tracked-stop f.1 refl (λ v. omega arith))
IsTracked-step parent f (lend {s} {rs} job slots) =
    if_both (λ o. IsTracked parent (record { sched = o; running = rs })) (slots == 0) s
      (record s { offers = record { job = job; slots = slots } ∷ s.offers }) (λ h. f) (λ h. f)
IsTracked-step parent f (recall {s} job) = f

nodes_left_all : (i : ℕ) (ps : List ℤ) → length ps ≡ tally (undone (completions [])) i ps
nodes_left_all i [] = refl
nodes_left_all i (p ∷ ps) = omega (arith, nodes_left_all (suc i) ps)

module _ (parent : List ℤ) where
  abbrev first_pending : List ℕ
  first_pending = count_children parent (replicate (length parent) 0)

  first_pending_size : length first_pending ≡ length parent
  first_pending_size =
      length-count_children parent (replicate (length parent) 0)
      ∙ length-replicate (length parent) 0

  first_pending_get :
      (v : ℕ)
      → v < length parent
      → get_or first_pending v 0 ≡ open_children parent (completions []) v
  first_pending_get v lt = omega (
    arith,
    count_children_get parent (replicate (length parent) 0) v 0
        (omega (arith, length-replicate {A = ℕ} (length parent) 0)),
    get_or-replicate {A = ℕ} (length parent) v 0,
  )

  first_count :
      (v : ℕ)
      → v < length parent
      → count v (push_leaves first_pending 0 []) ≡ (if get_or first_pending v 0 == 0 then 1 else 0)
  first_count v lt =
      let at = leaf_at first_pending 0 v (omega (arith, first_pending_size)) in
      let here : leaf first_pending 0 (0 + v) ≡ leaf first_pending 0 v =
        ap (leaf first_pending 0) (omega arith) in
      let all = count-push_leaves first_pending 0 [] v in omega arith

  first_count_out : (v : ℕ) → length parent ≤ v → count v (push_leaves first_pending 0 []) ≡ 0
  first_count_out v le = omega (
    arith,
    count-push_leaves first_pending 0 [] v,
    leaf_after first_pending 0 v (omega (arith, first_pending_size)),
  )

  first_once : (v : ℕ) → count v (push_leaves first_pending 0 []) ≤ 1
  first_once v = elim (dec_lt v (length parent)) [
    | yes lt ↦ let c = first_count v lt in ground arith
    | no ge ↦ omega (arith, first_count_out v (omega arith))
  ]

  first_known :
      (v : ℕ)
      → 0 < count v (push_leaves first_pending 0 [])
      → (v < length parent) × (get_or first_pending v 0 ≡ 0)
  first_known v h = elim (dec_lt v (length parent)) [
    | yes lt ↦ (lt, let c = first_count v lt in ground arith)
    | no ge ↦ absurd (omega (arith, first_count_out v (omega arith)))
  ]

  IsTracked-start : (threads : ℕ) → IsTracked parent (start parent threads)
  unfolding top_scheduler
  IsTracked-start threads = (
    refl,
    record {
      sized = first_pending_size;
      once = λ v. omega (arith, first_once v);
      known = λ v h. first_known v (omega arith);
      owed = λ v lt. omega (arith, first_pending_get v lt);
      exact = λ v s l lt. first_pending_get v lt;
      listed = λ v s lt z. let c = first_count v lt in ground arith;
      counted = nodes_left_all 0 parent;
    },
  )

pub Reachable-IsTracked :
    (parent : List ℤ) (threads : ℕ) (s : System) → Reachable parent threads s → IsTracked parent s
Reachable-IsTracked parent threads s begin = IsTracked-start parent threads
Reachable-IsTracked parent threads s (next {s = s'} r step) =
    IsTracked-step parent (Reachable-IsTracked parent threads s' r) step
