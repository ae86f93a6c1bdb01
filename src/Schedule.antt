-- ===== src/Schedule.antt =====
-- solver/src/parallel/top_scheduler.cpp and top_scheduler.hpp: TopScheduler, which runs the fronts of
-- the top of the assembly tree on a pool of workers. Each function is what its caller does under the
-- mutex; waiting is the premise `runnable`, and the lock-free mirrors and wake-ups, which only say when
-- to look again, are left out. The lists that the source takes from the back of a vector have that end
-- first. A job is a number. pending_ is never decremented below 0 and free_ never below 0 by what
-- the invariant says, so that the subtractions are those of the source.
pub mod System
pub mod Counting
pub mod Invariant
pub mod Threads
pub mod Order
pub mod Begin
pub mod Progress
pub mod Lanes
mod Tests
use opt_solver.Base.{
  is_empty, ℕ, zero, suc, ◌+◌, ◌-◌, ◌/◌, Bool, true, false, not, ◌&&◌, ◌||◌, List, [], ◌∷◌, ◌++◌,
  max, ltb, ◌==◌, if◌then◌else◌, length, get_or, set, replicate, Option, some, none,
}
use opt_solver.Base.Ints.{ℤ, pos, negsuc}

-- (node, tid)
pub record Completion : Type 0 where
  pub node : ℕ
  pub tid : ℕ

-- (job, slots left)
pub record Offer : Type 0 where
  pub job : ℕ
  pub slots : ℕ

pub record Scheduler : Type 0 where
  pub parent : List ℤ
  pub pending : List ℕ
  pub ready : List ℕ
  pub offers : List Offer
  pub completed : List Completion
  pub free : ℕ
  pub remaining : ℕ
  pub queue_pops : ℕ
  pub stopped : Bool

-- What an idle worker gets.
pub data Task : Type 0 where
  nothing : Task
  run : ℕ → ℕ → Task
  help : ℕ → Task

-- A node that a parent's last child readied, with its share of the threads.
pub record Continuation : Type 0 where
  pub node : ℕ
  pub threads : ℕ

-- ++pending_[parent_[i]] for each i that has a parent
unfoldable pub count_children : List ℤ → List ℕ → List ℕ
count_children [] pending = pending
count_children (pos p ∷ ps) pending = count_children ps (set pending p (get_or pending p 0 + 1))
count_children (negsuc p ∷ ps) pending = count_children ps pending

-- The nodes i, i + 1, ... without children, pushed on what is there.
unfoldable pub push_leaves : List ℕ → ℕ → List ℕ → List ℕ
push_leaves [] i ready = ready
push_leaves (c ∷ pending) i ready =
    push_leaves pending (suc i) (if c == 0 then i ∷ ready else ready)

unfoldable pub top_scheduler : List ℤ → ℕ → Scheduler
unfolding count_children push_leaves
top_scheduler parent threads =
    let pending = count_children parent (replicate (length parent) 0) in
    record {
      parent = parent;
      pending = pending;
      ready = push_leaves pending 0 [];
      offers = [];
      completed = [];
      free = max 1 threads;
      remaining = length parent;
      queue_pops = 0;
      stopped = false;
    }

unfoldable pub runnable : Scheduler → Bool
runnable s =
    (not (is_empty s.ready) && ltb 0 s.free)
    || (not (is_empty s.offers) || (s.remaining == 0 || s.stopped))

-- max(1, free_ / (ready_.size() + 1))
abbrev pub share : ℕ → List ℕ → ℕ
share free ready = max 1 (free / (length ready + 1))

-- The newest offer loses a slot.
unfoldable pub take_offer : Scheduler → List Offer → Scheduler × Task
take_offer s [] = (s, nothing)
take_offer s (o ∷ os) = (
  record s { offers = if o.slots == 1 then os else record o { slots = o.slots - 1 } ∷ os },
  help o.job,
)

unfoldable pub take_ready : Scheduler → List ℕ → Scheduler × Task
unfolding take_offer
take_ready s [] = take_offer s s.offers
take_ready s (v ∷ rest) =
    let t = share s.free rest in
    let offer = take_offer s s.offers in
    if ltb 0 s.free
    then (record s { ready = rest; free = s.free - t; queue_pops = s.queue_pops + 1 }, run v t)
    else offer

unfoldable pub acquire : Scheduler → Scheduler × Task
unfolding take_ready
acquire s =
    let taken = take_ready s s.ready in
    if s.stopped || s.remaining == 0 then (s, nothing) else taken

abbrev pub release : Scheduler → ℕ → Scheduler
release s threads = record s { free = s.free + threads }

abbrev pub complete : Scheduler → ℕ → ℕ → Scheduler
complete s node tid = record s {
  completed = s.completed ++ record { node = node; tid = tid } ∷ [];
  remaining = s.remaining - 1;
}

unfoldable pub ready_parent : Scheduler → ℤ → Scheduler × Option Continuation
ready_parent s (negsuc p) = (s, none)
ready_parent s (pos p) =
    let left = get_or s.pending p 0 in
    let counted = record s { pending = set s.pending p (left - 1) } in
    let t = share s.free s.ready in
    if left == 1
    then (record counted { free = s.free - t }, some (record { node = p; threads = t }))
    else (counted, none)

unfoldable pub finish : Scheduler → ℕ → ℕ → Bool → ℕ → Scheduler × Option Continuation
unfolding ready_parent
finish s node tid ok threads =
    let freed = release s threads in
    let done = complete freed node tid in
    let next = ready_parent done (get_or s.parent node (negsuc 0)) in
    if not ok
    then (freed, none)
    else if done.remaining == 0
    then (done, none)
    else if done.stopped
    then (done, none)
    else next

-- stopped_.store(true), before finish takes the lock
unfoldable pub stop : Scheduler → Scheduler
stop s = record s { stopped = true }

unfoldable pub offer : Scheduler → ℕ → ℕ → Scheduler
offer s job slots =
    if slots == 0 then s else record s { offers = record { job = job; slots = slots } ∷ s.offers }

-- The oldest offer of the job goes.
unfoldable pub remove_offer : ℕ → List Offer → List Offer
remove_offer job [] = []
remove_offer job (o ∷ os) =
    let rest = remove_offer job os in
    if not (length rest == length os) then o ∷ rest else if o.job == job then os else o ∷ os

unfoldable pub withdraw : Scheduler → ℕ → Scheduler
unfolding remove_offer
withdraw s job = record s { offers = remove_offer job s.offers }
