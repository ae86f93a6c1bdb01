-- ===== src/Schedule/System.antt =====
-- The workers around the scheduler: TopScheduler::work as steps of one worker at a time.
use opt_solver.Base.{ℕ, ◌≡◌, true, false, List, [], ◌∷◌, ◌++◌, Option, some, none}
use opt_solver.Base.Ints.{ℤ}
use opt_solver.Schedule.{
  Scheduler, Task, nothing, run, help, Continuation, top_scheduler, runnable, acquire, finish, stop,
  offer, withdraw,
}

-- A worker that runs a node with its share of the threads.
pub record Running : Type 0 where
  pub node : ℕ
  pub tid : ℕ
  pub threads : ℕ

pub record System : Type 0 where
  pub sched : Scheduler
  pub running : List Running

abbrev pub continue : Option Continuation → ℕ → List Running → List Running
continue none tid rs = rs
continue (some c) tid rs = record { node = c.node; tid = tid; threads = c.threads } ∷ rs

abbrev pub start_task : Task → ℕ → List Running → List Running
start_task nothing tid rs = rs
start_task (run v t) tid rs = record { node = v; tid = tid; threads = t } ∷ rs
start_task (help job) tid rs = rs

pub data Step : System → System → Type 0 where
  take :
      {s : Scheduler} {rs : List Running} (tid : ℕ)
      → runnable s ≡ true
      → Step
          (record { sched = s; running = rs })
          (record { sched = (acquire s).0; running = start_task (acquire s).1 tid rs })
  done :
      {s : Scheduler} (before : List Running) (r : Running) (after : List Running)
      → Step
          (record { sched = s; running = before ++ r ∷ after })
          (record {
            sched = (finish s r.node r.tid true r.threads).0;
            running = continue (finish s r.node r.tid true r.threads).1 r.tid (before ++ after);
          })
  fail :
      {s : Scheduler} (before : List Running) (r : Running) (after : List Running)
      → s.stopped ≡ true
      → Step
          (record { sched = s; running = before ++ r ∷ after })
          (record {
            sched = (finish s r.node r.tid false r.threads).0;
            running = continue (finish s r.node r.tid false r.threads).1 r.tid (before ++ after);
          })
  halt :
      {s : Scheduler} {rs : List Running}
      → Step (record { sched = s; running = rs }) (record { sched = stop s; running = rs })
  lend :
      {s : Scheduler} {rs : List Running} (job slots : ℕ)
      → Step
          (record { sched = s; running = rs })
          (record { sched = offer s job slots; running = rs })
  recall :
      {s : Scheduler} {rs : List Running} (job : ℕ)
      → Step (record { sched = s; running = rs }) (record { sched = withdraw s job; running = rs })

abbrev pub start : List ℤ → ℕ → System
start parent threads = record { sched = top_scheduler parent threads; running = [] }

-- The states that the workers reach from the start.
pub data Reachable (parent : List ℤ) (threads : ℕ) : System → Type 0 where
  begin : Reachable parent threads (start parent threads)
  next : {s t : System} → Reachable parent threads s → Step s t → Reachable parent threads t
