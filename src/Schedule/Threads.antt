-- ===== src/Schedule/Threads.antt =====
-- solver/src/parallel/top_scheduler.cpp: the thread budget. What the running nodes hold and what is free
-- is at every step what the scheduler was given.
use native.Mathlib.Nat.{div-le_self}
use opt_solver.Base.{
  ℕ, ◌+◌, ◌-◌, ◌≤◌, ◌<◌, max, ◌≡◌, refl, sym, subst, Bool, true, false, not, ◌||◌, Option, none,
  some, List, [], ◌∷◌, ◌++◌, ltb, ◌==◌, length, get_or, set, arith, if_both,
}
use opt_solver.Base.Ints.{ℤ, pos, negsuc}
use opt_solver.Schedule.{
  Offer, Scheduler, Task, nothing, run, Continuation, top_scheduler, share, take_offer, take_ready,
  acquire, release, complete, ready_parent, finish, stop, offer, withdraw,
}
use opt_solver.Schedule.System.{
  Running, System, continue, start_task, Step, take, done, fail, halt, lend, recall, Reachable,
  begin, next,
}

abbrev pub held_threads : List Running → ℕ
held_threads [] = 0
held_threads (r ∷ rs) = r.threads + held_threads rs

abbrev pub HasShares : List Running → Type 0
HasShares [] = Unit
HasShares (r ∷ rs) = (0 < r.threads) × HasShares rs

held_threads-append :
    (xs : List Running) (r : Running) (ys : List Running)
    → held_threads (xs ++ r ∷ ys) ≡ r.threads + held_threads (xs ++ ys)
held_threads-append [] r ys = refl
held_threads-append (x ∷ xs) r ys = let h = held_threads-append xs r ys in omega arith

HasShares-drop :
    (xs : List Running) (r : Running) (ys : List Running)
    → HasShares (xs ++ r ∷ ys)
    → (0 < r.threads) × HasShares (xs ++ ys)
HasShares-drop [] r ys h = h
HasShares-drop (x ∷ xs) r ys (hx, h) = let d = HasShares-drop xs r ys h in (d.0, (hx, d.1))

share_positive : (free : ℕ) (ready : List ℕ) → 0 < share free ready
share_positive free ready = omega arith

share_le : (free : ℕ) (ready : List ℕ) → 0 < free → share free ready ≤ free
share_le free ready h = let d = div-le_self free (length ready + 1) in omega arith

share_budget :
    (free : ℕ) (ready : List ℕ) → 0 < free → free - share free ready + share free ready ≡ free
share_budget free ready h = let l = share_le free ready h in omega arith

take_offer_budget :
    (s : Scheduler) (os : List Offer) (tid : ℕ) (rs : List Running)
    → ((take_offer s os).0.free ≡ s.free) × (start_task (take_offer s os).1 tid rs ≡ rs)
unfolding take_offer
take_offer_budget s [] tid rs = (refl, refl)
take_offer_budget s (o ∷ os) tid rs = (refl, refl)

-- What a transition between a worker's nodes and the free threads must keep.
pub record Balance (free : ℕ) (rs : List Running) (free' : ℕ) (rs' : List Running) : Type 0 where
  budget : free' + held_threads rs' ≡ free + held_threads rs
  shares : HasShares rs → HasShares rs'

Balance-same :
    {free free' : ℕ} {rs rs' : List Running} → free' ≡ free → rs' ≡ rs → Balance free rs free' rs'
Balance-same {rs} {rs'} e h = record { budget = cc (e, h); shares = λ p. subst HasShares (sym h) p }

module _ (tid : ℕ) (rs : List Running) where
  abbrev IsTaken : ℕ → Scheduler × Task → Type 0
  IsTaken free o = Balance free rs (o.0.free) (start_task o.1 tid rs)

  IsTaken-take_ready : (s : Scheduler) (ready : List ℕ) → IsTaken s.free (take_ready s ready)
  unfolding take_ready
  IsTaken-take_ready s [] = let b = take_offer_budget s s.offers tid rs in Balance-same b.0 b.1
  IsTaken-take_ready s (v ∷ rest) =
      let b = take_offer_budget s s.offers tid rs in
      if_both (IsTaken s.free) (ltb 0 s.free)
        (
          record s {
            ready = rest;
            free = s.free - share s.free rest;
            queue_pops = s.queue_pops + 1;
          },
          run v (share s.free rest),
        )
        (take_offer s s.offers)
        (λ h. record {
          budget = let e = share_budget s.free rest (ground arith) in omega arith;
          shares = λ p. (share_positive s.free rest, p);
        })
        (λ h. Balance-same b.0 b.1)

  IsTaken-acquire : (s : Scheduler) → IsTaken s.free (acquire s)
  unfolding acquire
  IsTaken-acquire s =
      if_both (IsTaken s.free) (s.stopped || s.remaining == 0) (s, nothing) (take_ready s s.ready)
        (λ h. Balance-same refl refl) (λ h. IsTaken-take_ready s s.ready)

  abbrev IsContinued : ℕ → Scheduler × Option Continuation → Type 0
  IsContinued free o = Balance free rs (o.0.free) (continue o.1 tid rs)

  IsContinued-ready_parent :
      (s : Scheduler) (p : ℤ) → 0 < s.free → IsContinued s.free (ready_parent s p)
  unfolding ready_parent
  IsContinued-ready_parent s (negsuc p) h = Balance-same refl refl
  IsContinued-ready_parent s (pos p) h =
      if_both (IsContinued s.free) (get_or s.pending p 0 == 1)
        (
          record s {
            pending = set s.pending p (get_or s.pending p 0 - 1);
            free = s.free - share s.free s.ready;
          },
          some (record { node = p; threads = share s.free s.ready }),
        )
        (record s { pending = set s.pending p (get_or s.pending p 0 - 1) }, none)
        (λ e. record {
          budget = let e = share_budget s.free s.ready h in omega arith;
          shares = λ p. (share_positive s.free s.ready, p);
        })
        (λ e. Balance-same refl refl)

  IsContinued-finish :
      (s : Scheduler) (node : ℕ) (ok : Bool) (threads : ℕ)
      → 0 < threads
      → IsContinued (s.free + threads) (finish s node tid ok threads)
  unfolding finish
  IsContinued-finish s node ok threads h =
      let freed = release s threads in
      let finished = complete freed node tid in
      let keep : IsContinued (s.free + threads) (finished, none) = Balance-same refl refl in
      if_both (IsContinued (s.free + threads)) (not ok) (freed, none) _
        (λ e. Balance-same refl refl)
        (λ f.
          if_both (IsContinued (s.free + threads)) (finished.remaining == 0) (finished, none) _
            (λ e. keep)
            (λ f.
              if_both (IsContinued (s.free + threads)) finished.stopped (finished, none)
                (ready_parent finished (get_or s.parent node (negsuc 0))) (λ e. keep)
                (λ f.
                  IsContinued-ready_parent finished (get_or s.parent node (negsuc 0))
                    (omega arith))))

abbrev pub IsFunded : ℕ → System → Type 0
IsFunded cap s = (s.sched.free + held_threads s.running ≡ cap) × HasShares s.running

IsFunded-finish :
    (cap : ℕ) (s : Scheduler) (before : List Running) (r : Running) (after : List Running)
    (ok : Bool)
    → IsFunded cap (record { sched = s; running = before ++ r ∷ after })
    → IsFunded cap (record {
      sched = (finish s r.node r.tid ok r.threads).0;
      running = continue (finish s r.node r.tid ok r.threads).1 r.tid (before ++ after);
    })
IsFunded-finish cap s before r after ok (e, h) =
    let d = HasShares-drop before r after h in
    let b = IsContinued-finish r.tid (before ++ after) s r.node ok r.threads d.0 in
    (omega (arith, b.budget, held_threads-append before r after), b.shares d.1)

withdraw_free : (s : Scheduler) (job : ℕ) → (withdraw s job).free ≡ s.free
unfolding withdraw
withdraw_free s job = refl

offer_free : (s : Scheduler) (job slots : ℕ) → (offer s job slots).free ≡ s.free
unfolding offer
offer_free s job slots = ground arith

IsFunded-step : (cap : ℕ) {s t : System} → IsFunded cap s → Step s t → IsFunded cap t
unfolding stop
IsFunded-step cap (e, h) (take {s} {rs} tid g) =
    let b = IsTaken-acquire tid rs s in (omega (arith, b.budget), b.shares h)
IsFunded-step cap f (done {s} before r after) = IsFunded-finish cap s before r after true f
IsFunded-step cap f (fail {s} before r after g) = IsFunded-finish cap s before r after false f
IsFunded-step cap f halt = f
IsFunded-step cap (e, h) (lend {s} job slots) = (omega (arith, offer_free s job slots), h)
IsFunded-step cap (e, h) (recall {s} job) = (omega (arith, withdraw_free s job), h)

top_scheduler_free :
    (parent : List ℤ) (threads : ℕ) → (top_scheduler parent threads).free ≡ max 1 threads
unfolding top_scheduler
top_scheduler_free parent threads = refl

-- In every state that the workers reach, the free threads and those that the running nodes hold are together
-- the threads that the scheduler was given, at least 1, and each running node holds at least 1.
pub Reachable-IsFunded :
    (parent : List ℤ) (threads : ℕ) (s : System)
    → Reachable parent threads s
    → IsFunded (max 1 threads) s
Reachable-IsFunded parent threads s begin = (omega (arith, top_scheduler_free parent threads), tt)
Reachable-IsFunded parent threads s (next {s = s'} r step) =
    IsFunded-step (max 1 threads) (Reachable-IsFunded parent threads s' r) step
