-- ===== src/Schedule/Order.antt =====
-- solver/src/parallel/top_scheduler.cpp: what acquire and finish keep about the nodes.
use opt_solver.Base.{
  ℕ, ◌+◌, ◌-◌, ◌≤◌, ◌<◌, ◌≡◌, refl, sym, ap, subst, true, false, ◌||◌, Option, none, List, [], ◌∷◌,
  ◌++◌, ltb, ◌==◌, length, get_or, arith, dec_lt, get_or-out, set-out, if_both,
}
use opt_solver.Base.Ints.{ℤ, pos, negsuc}
use opt_solver.Schedule.{
  Completion, Offer, Scheduler, Task, nothing, run, Continuation, share, take_offer, take_ready,
  acquire, release, complete, ready_parent, finish,
}
use opt_solver.Schedule.System.{Running, System, continue, start_task}
use opt_solver.Schedule.Counting.{mark, count, mark_same, mark_other, is_child}
use opt_solver.Schedule.Invariant.{
  Tracked, Tracked-same, Tracked-stop, Tracked-complete, Tracked-parent,
}

abbrev pub nodes : List Running → List ℕ
nodes [] = []
nodes (r ∷ rs) = r.node ∷ nodes rs

abbrev pub completed_nodes : List Completion → List ℕ
completed_nodes [] = []
completed_nodes (c ∷ cs) = c.node ∷ completed_nodes cs

-- How often `v` is ready or running.
abbrev pub active : List ℕ → List Running → ℕ → ℕ
active ready rs v = count v ready + count v (nodes rs)

abbrev pub completions : List Completion → ℕ → ℕ
completions cs v = count v (completed_nodes cs)

abbrev pub IsTracked : List ℤ → System → Type 0
IsTracked parent s =
    (s.sched.parent ≡ parent)
    × Tracked parent s.sched.pending s.sched.stopped s.sched.remaining
        (active s.sched.ready s.running) (completions s.sched.completed)

completions-append :
    (cs : List Completion) (c : Completion) (v : ℕ)
    → completions (cs ++ c ∷ []) v ≡ completions cs v + mark v c.node
completions-append [] c v = omega arith
completions-append (x ∷ cs) c v = omega (arith, completions-append cs c v)

nodes-drop :
    (before : List Running) (r : Running) (after : List Running) (v : ℕ)
    → count v (nodes (before ++ r ∷ after)) ≡ count v (nodes (before ++ after)) + mark v r.node
nodes-drop [] r after v = omega arith
nodes-drop (x ∷ before) r after v = omega (arith, nodes-drop before r after v)

module _ (parent : List ℤ) (rs : List Running) (tid : ℕ) where
  abbrev pub WasTaken : Scheduler × Task → Type 0
  WasTaken o = IsTracked parent (record { sched = o.0; running = start_task o.1 tid rs })

  WasTaken-offer :
      (s : Scheduler) (os : List Offer) → WasTaken (s, nothing) → WasTaken (take_offer s os)
  unfolding take_offer
  WasTaken-offer s [] t = t
  WasTaken-offer s (o ∷ os) t = t

  WasTaken-take_ready :
      (s : Scheduler) (ready : List ℕ)
      → s.ready ≡ ready
      → WasTaken (s, nothing)
      → WasTaken (take_ready s ready)
  unfolding take_ready
  WasTaken-take_ready s [] e t = WasTaken-offer s s.offers t
  WasTaken-take_ready s (v ∷ rest) e t =
      if_both WasTaken (ltb 0 s.free)
        (
          record s {
            ready = rest;
            free = s.free - share s.free rest;
            queue_pops = s.queue_pops + 1;
          },
          run v (share s.free rest),
        )
        (take_offer s s.offers) (λ h. (t.0, Tracked-same t.1 (λ u. omega (arith, ap (count u) e))))
        (λ h. WasTaken-offer s s.offers t)

  pub WasTaken-acquire : (s : Scheduler) → WasTaken (s, nothing) → WasTaken (acquire s)
  unfolding acquire
  WasTaken-acquire s t =
      if_both WasTaken (s.stopped || s.remaining == 0) (s, nothing) (take_ready s s.ready) (λ h. t)
        (λ h. WasTaken-take_ready s s.ready refl t)

module _ (parent : List ℤ) (s : Scheduler) (before : List Running) (r : Running)
    (after : List Running)
    (t : IsTracked parent (record { sched = s; running = before ++ r ∷ after })) where
  abbrev pub WasFinished : Scheduler × Option Continuation → Type 0
  WasFinished o =
      IsTracked parent (record { sched = o.0; running = continue o.1 r.tid (before ++ after) })

  abbrev finished : Scheduler
  finished = complete (release s r.threads) r.node r.tid

  leaves :
      (v : ℕ)
      → active s.ready (before ++ r ∷ after) v ≡ active s.ready (before ++ after) v + mark v r.node
  leaves v = omega (arith, nodes-drop before r after v)

  runs : 0 < active s.ready (before ++ r ∷ after) r.node
  runs = omega (arith, leaves r.node, mark_same r.node)

  completes : (v : ℕ) → completions finished.completed v ≡ completions s.completed v + mark v r.node
  completes v = completions-append s.completed (record { node = r.node; tid = r.tid }) v

  above : ℤ
  above = get_or parent r.node (negsuc 0)

  WasFinished-complete :
      ((v : ℕ)
        → s.stopped ≡ false
        → 0 < s.remaining - 1
        → v < length parent
        → is_child (get_or parent r.node (negsuc 0)) v ≡ 0)
      → WasFinished (finished, none)
  WasFinished-complete unchanged = (
    t.0,
    Tracked-complete t.1 r.node runs (completions finished.completed) completes
        (active s.ready (before ++ after)) leaves unchanged,
  )

  WasFinished-parent :
      (p : ℕ)
      → get_or parent r.node (negsuc 0) ≡ pos p
      → s.stopped ≡ false
      → 0 < s.remaining - 1
      → WasFinished (ready_parent finished (pos p))
  unfolding ready_parent
  WasFinished-parent p up go more = elim (dec_lt p (length parent)) [
    | yes inside ↦
        let u =
          Tracked-parent t.1 r.node runs (completions finished.completed) completes
            (active s.ready (before ++ after)) leaves p inside up go more in
        if_both WasFinished (get_or s.pending p 0 == 1) _ _
          (λ h. (t.0, Tracked-same u (λ v. ground arith)))
          (λ h. (t.0, Tracked-same u (λ v. ground arith)))
    | no out ↦
        let beyond : length s.pending ≤ p = omega (arith, t.1.sized) in
        let zero_left = get_or-out s.pending p 0 beyond in
        let kept = set-out s.pending p (get_or s.pending p 0 - 1) beyond in
        let u =
          WasFinished-complete (λ v st l lt.
            rw up (mark_other v p (λ e. out (subst (λ z. z < length parent) e lt)))) in
        if_both WasFinished (get_or s.pending p 0 == 1) _ _ (λ h. absurd (ground arith))
          (λ h. (
            t.0,
            subst
                (λ z.
                  Tracked parent z s.stopped (s.remaining - 1) (active s.ready (before ++ after))
                    (completions finished.completed))
                (sym kept) u.1,
          ))
  ]

  WasFinished-next :
      s.stopped ≡ false
      → 0 < s.remaining - 1
      → (up : ℤ) → get_or parent r.node (negsuc 0) ≡ up
      → WasFinished (ready_parent finished up)
  unfolding ready_parent
  WasFinished-next go more (negsuc p) up = WasFinished-complete (λ v st l lt. rw up refl)
  WasFinished-next go more (pos p) up = WasFinished-parent p up go more

  pub WasFinished-done : WasFinished (finish s r.node r.tid true r.threads)
  unfolding finish
  WasFinished-done =
      if_both WasFinished (finished.remaining == 0) (finished, none) _
        (λ h. WasFinished-complete (λ v st l lt. absurd (ground arith)))
        (λ h.
          if_both WasFinished s.stopped (finished, none)
            (ready_parent finished (get_or s.parent r.node (negsuc 0)))
            (λ st. WasFinished-complete (λ v st' l lt. absurd (ground arith)))
            (λ st.
              WasFinished-next st (ground arith) (get_or s.parent r.node (negsuc 0))
                (ap (λ z. get_or z r.node (negsuc 0)) (sym t.0))))

  pub WasFinished-fail : s.stopped ≡ true → WasFinished (finish s r.node r.tid false r.threads)
  unfolding finish
  WasFinished-fail st = (t.0, Tracked-stop t.1 st (λ v. omega (arith, leaves v)))
