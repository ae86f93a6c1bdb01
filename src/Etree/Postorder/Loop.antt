-- ===== src/Etree/Postorder/Loop.antt =====
-- solver/src/etree.cpp: the loop of etree_postorder lists the subtrees of the roots, and its stack stays small.
use opt_solver.Base.{
  concat_map, ℕ, zero, suc, ◌+◌, ◌*◌, ◌≤◌, ◌<◌, ◌≡◌, refl, sym, ap, subst, ◌∙◌, List, [], ◌∷◌, ◌++◌,
  ltb, length, get_or, drop, some, arith, if_both, length-append,
}
use opt_solver.Base.Ints.{ℤ}
use opt_solver.Etree.Postorder.{ch_start, children, Frame, Walk, enter_node, walk_step, walk}
use mathlib.Core.List.{Memᴰ, append-nil, append_assoc}
use mathlib.Core.List.Memᴰ.{head, tail}
use opt_solver.Etree.Postorder.Kids.{IsParents, kids, kids-to, ch_start-suc, children-child}
use opt_solver.Etree.Postorder.Visit.{visit, visit-kids}

drop-cons : (c : ℕ) (xs : List ℕ) → c < length xs → drop c xs ≡ get_or xs c 0 ∷ drop (suc c) xs
drop-cons c [] lt = absurd (omega arith)
drop-cons zero (x ∷ xs) lt = refl
drop-cons (suc c) (x ∷ xs) lt = drop-cons c xs (omega arith)

drop-out : (c : ℕ) (xs : List ℕ) → length xs ≤ c → drop c xs ≡ []
drop-out zero [] le = refl
drop-out (suc c) [] le = refl
drop-out zero (x ∷ xs) le = absurd (omega arith)
drop-out (suc c) (x ∷ xs) le = drop-out c xs (omega arith)

Memᴰ-get_or : (xs : List ℕ) (c : ℕ) → c < length xs → Memᴰ (get_or xs c 0) xs
Memᴰ-get_or [] c lt = absurd (omega arith)
Memᴰ-get_or (x ∷ xs) zero lt = head refl
Memᴰ-get_or (x ∷ xs) (suc c) lt = tail (Memᴰ-get_or xs c (omega arith))

module _ (n : ℕ) (parent : List ℤ) where
  -- What is still listed of a frame's subtree, and for the stack.
  abbrev pub remaining : Frame → List ℕ
  remaining f = concat_map (visit n parent n) (drop f.cursor (kids n parent f.node)) ++ f.node ∷ []

  abbrev pub pending : List Frame → List ℕ
  pending [] = []
  pending (f ∷ rest) = remaining f ++ pending rest

  abbrev pub IsBelow : List Frame → Type 0
  IsBelow [] = Unit
  IsBelow (f ∷ rest) = (f.node < n) × IsBelow rest

  pub length-pending : (stack : List Frame) → length stack ≤ length (pending stack)
  length-pending [] = omega arith
  length-pending (f ∷ rest) = omega (
    arith,
    length-pending rest,
    length-append (remaining f) (pending rest),
    length-append (concat_map (visit n parent n) (drop f.cursor (kids n parent f.node)))
        (f.node ∷ []),
  )

-- A round keeps what is to be listed, and comes nearer to the end by one.
pub record IsRound (n : ℕ) (parent : List ℤ) (w next : Walk) : Type 0 where
  pub below : IsBelow n parent next.stack
  pub same : next.postorder ++ pending n parent next.stack ≡ w.postorder ++ pending n parent w.stack
  pub nearer :
      2 * length (pending n parent next.stack) + length w.stack + 1
      ≡ 2 * length (pending n parent w.stack) + length next.stack

module _ {n : ℕ} {parent : List ℤ} (t : IsParents n parent) where
  module _ (f : Frame) (rest : List Frame) (out : List ℕ) (lt : f.node < n)
      (below : IsBelow n parent rest) where
    abbrev now : Walk
    now = record { stack = f ∷ rest; postorder = out }

    abbrev moved : Frame
    moved = record { node = f.node; cursor = f.cursor + 1 }

    pending-entered :
        (c : ℕ)
        → c < n
        → get_or (kids n parent f.node) f.cursor 0 ≡ c
        → f.cursor < length (kids n parent f.node)
        → pending n parent (enter_node c ∷ moved ∷ rest) ≡ pending n parent (f ∷ rest)
    pending-entered c inside e more =
        let children_of : ℕ → List ℕ =
          λ k. concat_map (visit n parent n) (drop k (kids n parent f.node)) in
        let first : List ℕ = visit n parent n c in
        let after : List ℕ = children_of (suc f.cursor) in
        let split : children_of f.cursor ≡ first ++ after =
          ap (concat_map (visit n parent n)) (drop-cons f.cursor (kids n parent f.node) more)
          ∙ ap (λ z. visit n parent n z ++ after) e in
        let later : children_of (f.cursor + 1) ≡ after =
          ap children_of {y = suc f.cursor} (omega arith) in
        let regrouped : first ++ ((after ++ f.node ∷ []) ++ pending n parent rest)
            ≡ ((first ++ after) ++ f.node ∷ []) ++ pending n parent rest =
          sym (append_assoc first (after ++ f.node ∷ []) (pending n parent rest))
          ∙ ap (λ l. l ++ pending n parent rest) (sym (append_assoc first after (f.node ∷ []))) in
        let opened : concat_map (visit n parent n) (kids n parent c) ++ c ∷ [] ≡ first =
          sym (visit-kids t c inside) in
        ap (λ l. l ++ (remaining n parent moved ++ pending n parent rest)) opened
        ∙ ap (λ l. first ++ ((l ++ f.node ∷ []) ++ pending n parent rest)) later
        ∙ regrouped
        ∙ ap (λ l. (l ++ f.node ∷ []) ++ pending n parent rest) (sym split)

    IsRound-entered :
        (c : ℕ)
        → c < n
        → get_or (kids n parent f.node) f.cursor 0 ≡ c
        → f.cursor < length (kids n parent f.node)
        → IsRound n parent now (record { stack = enter_node c ∷ moved ∷ rest; postorder = out })
    IsRound-entered c inside e more =
        let same = pending-entered c inside e more in
        record {
          below = (inside, (lt, below));
          same = ap (λ l. out ++ l) same;
          nearer = omega (arith, ap length same);
        }

    IsRound-done :
        length (kids n parent f.node) ≤ f.cursor
        → IsRound n parent now (record { stack = rest; postorder = out ++ f.node ∷ [] })
    IsRound-done le =
        let last : pending n parent (f ∷ rest) ≡ f.node ∷ pending n parent rest =
          ap (λ l. (concat_map (visit n parent n) l ++ f.node ∷ []) ++ pending n parent rest)
            (drop-out f.cursor (kids n parent f.node) le) in
        record {
          below = below;
          same =
              append_assoc out (f.node ∷ []) (pending n parent rest)
              ∙ ap (λ l. out ++ l) (sym last);
          nearer = omega (arith, ap length last);
        }

    -- The frame's next child is the next one of the node's children.
    pub IsRound-step : IsRound n parent now (walk_step (ch_start n parent) (children n parent) now)
    unfolding walk_step
    IsRound-step =
        let room = ch_start-suc t f.node lt in
        if_both (IsRound n parent now)
          (ltb (get_or (ch_start n parent) f.node 0 + f.cursor)
            (get_or (ch_start n parent) (suc f.node) 0))
          _ _
          (λ e.
            let more : f.cursor < length (kids n parent f.node) = ground arith in
            let child = children-child t f.node f.cursor lt more in
            let member =
              subst (λ c. Memᴰ c (kids n parent f.node)) (sym child)
                (Memᴰ-get_or (kids n parent f.node) f.cursor more) in
            let less = t.rising _ f.node (kids-to t f.node _ member) in
            IsRound-entered _ (omega arith) (sym child) more)
          (λ e. IsRound-done (ground arith))

  pub walk-pending :
      (fuel : ℕ) (stack : List Frame) (out : List ℕ)
      → IsBelow n parent stack
      → 2 * length (pending n parent stack) ≤ fuel + length stack
      → walk fuel
          (ch_start n parent)
          (children n parent)
          (record { stack = stack; postorder = out })
        ≡ some (out ++ pending n parent stack)
  unfolding walk
  walk-pending zero [] out below enough = ap some (sym (append-nil out))
  walk-pending (suc fuel) [] out below enough = ap some (sym (append-nil out))
  walk-pending zero (f ∷ rest) out below enough =
      absurd (omega (arith, length-pending n parent (f ∷ rest)))
  walk-pending (suc fuel) (f ∷ rest) out below enough =
      let r = IsRound-step f rest out below.0 below.1 in
      let next =
        walk_step (ch_start n parent) (children n parent)
          (record { stack = f ∷ rest; postorder = out }) in
      walk-pending fuel next.stack next.postorder r.below (omega (arith, r.nearer)) ∙ ap some r.same
