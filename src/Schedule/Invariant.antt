-- ===== src/Schedule/Invariant.antt =====
-- solver/src/parallel/top_scheduler.cpp: what the scheduler keeps about the nodes at every step.
use opt_solver.Base.{
  ℕ, zero, suc, ◌+◌, ◌-◌, ◌≤◌, ◌<◌, ◌≡◌, ◌≢◌, refl, sym, ap, subst, ◌∙◌, ◌⊎◌, inl, inr, Bool, true,
  false, List, [], ◌∷◌, ◌==◌, if◌then◌else◌, length, get_or, set, arith, dec_lt, ℕ_discrete,
  length-set, get_or-set_ne,
}
use opt_solver.Base.Ints.{ℤ, pos, negsuc}
use opt_solver.Schedule.Counting.{
  mark, mark_same, mark_other, is_child, open_child, undone, tally, tally_change,
}

-- The children of `v` that have not completed, and the nodes that have not, where `d` counts completions.
abbrev pub open_children : List ℤ → (ℕ → ℕ) → ℕ → ℕ
open_children parent d v = tally (open_child d v) 0 parent

abbrev pub nodes_left : List ℤ → (ℕ → ℕ) → ℕ
nodes_left parent d = tally (undone d) 0 parent

-- `q` counts how often a node is ready or running and `d` how often it has completed.
pub record Tracked (parent : List ℤ) (pending : List ℕ) (stopped : Bool) (left : ℕ) (q d : ℕ → ℕ)
    : Type 0 where
  pub sized : length pending ≡ length parent
  pub once : (v : ℕ) → q v + d v ≤ 1
  pub known : (v : ℕ) → 0 < q v + d v → (v < length parent) × (get_or pending v 0 ≡ 0)
  pub owed : (v : ℕ) → v < length parent → open_children parent d v ≤ get_or pending v 0
  pub exact :
      (v : ℕ)
      → stopped ≡ false
      → 0 < left
      → v < length parent
      → get_or pending v 0 ≡ open_children parent d v
  pub listed :
      (v : ℕ) → stopped ≡ false → v < length parent → get_or pending v 0 ≡ 0 → q v + d v ≡ 1
  pub counted : left ≡ nodes_left parent d

module _ {parent : List ℤ} {pending : List ℕ} {stopped : Bool} {left : ℕ} {q d : ℕ → ℕ}
    (t : Tracked parent pending stopped left q d) where
  -- A node moves from the list to a worker.
  pub Tracked-same :
      {q' : ℕ → ℕ} → ((v : ℕ) → q' v ≡ q v) → Tracked parent pending stopped left q' d
  Tracked-same {q'} e = record {
    sized = t.sized;
    once = λ v. omega (arith, e v, t.once v);
    known = λ v h. t.known v (omega (arith, e v));
    owed = t.owed;
    exact = t.exact;
    listed = λ v s lt z. omega (arith, e v, t.listed v s lt z);
    counted = t.counted;
  }

  pub Tracked-stop :
      {q' : ℕ → ℕ} {stopped' : Bool}
      → stopped' ≡ true
      → ((v : ℕ) → q' v ≤ q v)
      → Tracked parent pending stopped' left q' d
  Tracked-stop {q'} {stopped'} st e = record {
    sized = t.sized;
    once = λ v. omega (arith, e v, t.once v);
    known = λ v h. t.known v (omega (arith, e v));
    owed = t.owed;
    exact = λ v s. absurd (ground arith);
    listed = λ v s. absurd (ground arith);
    counted = t.counted;
  }

weight_lost :
    (a b w : ℕ) → a ≡ 0 → b ≡ 1 → (if a == 0 then w else 0) ≡ (if b == 0 then w else 0) + w
weight_lost a b w e h = ground arith

get-lower :
    (xs : List ℕ) (p v : ℕ)
    → v < length xs
    → get_or (set xs p (get_or xs p 0 - 1)) v 0 ≡ get_or xs v 0 - mark v p
get-lower [] p v lt = absurd (omega arith)
get-lower (x ∷ xs) zero zero lt = refl
get-lower (x ∷ xs) zero (suc v) lt = ground arith
get-lower (x ∷ xs) (suc p) zero lt = ground arith
get-lower (x ∷ xs) (suc p) (suc v) lt = ground (arith, get-lower xs p v (omega arith))

module _ {parent : List ℤ} {pending : List ℕ} {stopped : Bool} {left : ℕ} {q d : ℕ → ℕ}
    (t : Tracked parent pending stopped left q d) (node : ℕ) (runs : 0 < q node) where
  running_known : node < length parent
  running_known = (t.known node (omega arith)).0

  running_undone : d node ≡ 0
  running_undone = omega (arith, t.once node)

  module _ (d' : ℕ → ℕ) (completes : (v : ℕ) → d' v ≡ d v + mark v node) where
    undone_other : (v : ℕ) → v ≢ 0 + node → d' v ≡ d v
    undone_other v h = omega (arith, completes v, mark_other v node (λ x. h (omega arith)))

    undone_here : (d (0 + node) ≡ 0) × (d' (0 + node) ≡ 1)
    undone_here =
        subst (λ z. (d z ≡ 0) × (d' z ≡ 1)) {x = node} {y = 0 + node} (omega arith)
          (running_undone, omega (arith, completes node, mark_same node, running_undone))

    nodes_left_less : nodes_left parent d ≡ nodes_left parent d' + 1
    nodes_left_less =
        let here = undone_here in
        tally_change (undone d) (undone d') parent 0 node 1 running_known
          (λ j p h. let e = undone_other j h in ground arith) (ground arith)

    open_children_less :
        (v : ℕ)
        → open_children parent d v
          ≡ open_children parent d' v + is_child (get_or parent node (negsuc 0)) v
    open_children_less v =
        let here = undone_here in
        let weight = is_child (get_or parent node (negsuc 0)) v in
        tally_change (open_child d v) (open_child d' v) parent 0 node weight running_known
          (λ j p h.
            let e = undone_other j h in ap (λ z. if z == 0 then is_child p v else 0) (sym e))
          (weight_lost (d (0 + node)) (d' (0 + node)) weight here.0 here.1)

    module _ (q' : ℕ → ℕ) (leaves : (v : ℕ) → q v ≡ q' v + mark v node) where
      total_kept : (v : ℕ) → q' v + d' v ≡ q v + d v
      total_kept v = omega (arith, leaves v, completes v)

      -- A node completes and no pending count changes: the run has stopped or ended, or the node has no parent.
      pub Tracked-complete :
          ((v : ℕ)
            → stopped ≡ false
            → 0 < left - 1
            → v < length parent
            → is_child (get_or parent node (negsuc 0)) v ≡ 0)
          → Tracked parent pending stopped (left - 1) q' d'
      Tracked-complete unchanged = record {
        sized = t.sized;
        once = λ v. omega (arith, total_kept v, t.once v);
        known = λ v h. t.known v (omega (arith, total_kept v));
        owed = λ v lt. omega (arith, open_children_less v, t.owed v lt);
        exact = λ v s l lt.
            omega (arith, open_children_less v, unchanged v s l lt, t.exact v s (omega arith) lt);
        listed = λ v s lt z. omega (arith, total_kept v, t.listed v s lt z);
        counted = omega (arith, t.counted, nodes_left_less);
      }

      module _ (p : ℕ) (inside : p < length parent) (above : get_or parent node (negsuc 0) ≡ pos p)
          (active : stopped ≡ false) (more : 0 < left - 1) where
        open_lowered : (v : ℕ) → open_children parent d v ≡ open_children parent d' v + mark v p
        open_lowered v =
            subst (λ z. open_children parent d v ≡ open_children parent d' v + is_child z v) above
              (open_children_less v)

        parent_waits : (0 < get_or pending p 0) × (q p + d p ≡ 0)
        parent_waits =
            let waits : 0 < get_or pending p 0 =
              omega (arith, t.owed p inside, open_lowered p, mark_same p) in
            let k : 0 < q p + d p → get_or pending p 0 ≡ 0 = λ h. (t.known p h).1 in
            (
              waits,
              elim (dec_lt 0 (q p + d p)) [
                | yes h ↦ absurd (omega (arith, k h))
                | no n ↦ omega arith
              ],
            )

        abbrev pub lowered : List ℕ
        lowered = set pending p (get_or pending p 0 - 1)

        abbrev pub started : ℕ → ℕ
        started v = q' v + (if get_or pending p 0 == 1 then mark v p else 0)

        lowered_get :
            (v : ℕ) → v < length parent → get_or lowered v 0 ≡ get_or pending v 0 - mark v p
        lowered_get v lt = get-lower pending p v (omega (arith, t.sized))

        started_parent :
            (v : ℕ) → v ≡ p → started v + d' v ≡ (if get_or pending p 0 == 1 then 1 else 0)
        started_parent v e =
            let total : q v + d v ≡ 0 = subst (λ z. q z + d z ≡ 0) (sym e) parent_waits.1 in
            let kept = total_kept v in
            let m : mark v p ≡ 1 = subst (λ z. mark v z ≡ 1) e (mark_same v) in ground arith

        started_other : (v : ℕ) → v ≢ p → started v + d' v ≡ q v + d v
        started_other v ne = let kept = total_kept v in let m = mark_other v p ne in ground arith

        lowered_parent : (v : ℕ) → v ≡ p → get_or lowered v 0 ≡ get_or pending p 0 - 1
        lowered_parent v e =
            let m : mark v p ≡ 1 = subst (λ z. mark v z ≡ 1) e (mark_same v) in
            let same : get_or pending v 0 ≡ get_or pending p 0 = ap (λ z. get_or pending z 0) e in
            omega (arith, lowered_get v (subst (λ z. z < length parent) (sym e) inside))

        started_total :
            (v : ℕ)
            → ((v ≡ p) × (started v + d' v ≡ (if get_or pending p 0 == 1 then 1 else 0)))
              ⊎ ((v ≢ p) × (started v + d' v ≡ q v + d v))
        started_total v = elim (ℕ_discrete v p) [
          | yes e ↦ inl (e, started_parent v e)
          | no ne ↦ inr (ne, started_other v ne)
        ]

        pub Tracked-parent : Tracked parent lowered stopped (left - 1) started d'
        Tracked-parent = record {
          sized = length-set pending p (get_or pending p 0 - 1) ∙ t.sized;
          once = λ v. elim (started_total v) [
            | inl (e, f) ↦ ground arith
            | inr (ne, f) ↦ omega (arith, f, t.once v)
          ];
          known = λ v h. elim (started_total v) [
            | inl (e, f) ↦ (
              subst (λ z. z < length parent) (sym e) inside,
              let low = lowered_parent v e in ground arith,
            )
            | inr (ne, f) ↦ (
              (t.known v (omega arith)).0,
              get_or-set_ne pending p v (get_or pending p 0 - 1) 0 (λ x. ne (sym x))
                  ∙ (t.known v (omega arith)).1,
            )
          ];
          owed = λ v lt. omega (arith, lowered_get v lt, open_lowered v, t.owed v lt);
          exact = λ v s l lt.
              omega (arith, lowered_get v lt, open_lowered v, t.exact v s (omega arith) lt);
          listed = λ v s lt z. elim (started_total v) [
            | inl (e, f) ↦
                let low = lowered_parent v e in let waits = parent_waits.0 in ground arith
            | inr (ne, f) ↦ f ∙ t.listed v s lt (omega (arith, lowered_get v lt, mark_other v p ne))
          ];
          counted = omega (arith, t.counted, nodes_left_less);
        }
