-- ===== src/Values/Laws.antt =====
-- Where the values land.
use opt_solver.Base.{
  is_empty, ℕ, ◌≤◌, ◌<◌, ◌≡◌, refl, sym, ap, subst, ◌∙◌, Bool, true, false, List, [], ◌∷◌,
  if◌then◌else◌, length, length-set, length-replicate, get_or, get_or-set, get_or-replicate,
  replicate, some, arith,
}
use opt_solver.Base.Ints.{ℤ, pos, negsuc, ltz, eqz}
use opt_solver.Matrix.Csc.{ErrorCode}
use opt_solver.Values.{
  ValueMaps, FactorValues, Arrays, Mapped, add_at, scatter_add, all_finite, max_of, clean_nnz,
  perm_nnz, map_values_to_permuted,
}

-- Every slot is below m; negative slots only where they are passed over.
abbrev pub SlotsBelow : Bool → ℕ → List ℤ → Type 0
SlotsBelow skip m [] = Unit
SlotsBelow skip m (pos s ∷ to) = (s < m) × SlotsBelow skip m to
SlotsBelow skip m (negsuc s ∷ to) = (skip ≡ true) × SlotsBelow skip m to

module _ {V : Type 0} (zero_value : V) (add : V → V → V) (is_finite : V → Bool)
    (max_with_abs : V → V → V) where
  -- The values sent to slot s, added to `start` in the order of the input.
  unfoldable pub slot_sum : ℕ → List ℤ → List V → V → V
  slot_sum s to [] start = start
  slot_sum s [] (v ∷ vs) start = start
  slot_sum s (t ∷ to) (v ∷ vs) start =
      slot_sum s to vs (if eqz t (pos s) then add start v else start)

  record Scattered (to : List ℤ) (vs out result : List V) : Type 0 where
    size : length result ≡ length out
    sums :
        (s : ℕ)
        → s < length out
        → get_or result s zero_value ≡ slot_sum s to vs (get_or out s zero_value)

  scatter_add_lem :
      (skip : Bool) (to : List ℤ) (vs out : List V)
      → length vs ≤ length to
      → SlotsBelow skip (length out) to
      → (result : List V) × (scatter_add zero_value add is_finite max_with_abs skip to vs out
          ≡ some result)
        × Scattered to vs out result
  unfolding scatter_add slot_sum
  scatter_add_lem skip [] [] out h b = (out, refl, record { size = refl; sums = λ s k. refl })
  scatter_add_lem skip (t ∷ to) [] out h b = (out, refl, record { size = refl; sums = λ s k. refl })
  scatter_add_lem skip [] (v ∷ vs) out h b = absurd (omega arith)
  scatter_add_lem skip (negsuc t ∷ to) (v ∷ vs) out h b =
      let (result, e, s) = scatter_add_lem skip to vs out (omega arith) b.1 in
      (result, ground (arith, e, b.0), record { size = s.size; sums = s.sums })
  scatter_add_lem skip (pos t ∷ to) (v ∷ vs) out h b =
      let next = add_at zero_value add is_finite max_with_abs t v out in
      let long = length-set out t (add (get_or out t zero_value) v) in
      let (result, e, s) =
        scatter_add_lem skip to vs next (omega arith)
          (subst (λ m. SlotsBelow skip m to) (sym long) b.1) in
      (
        result,
        ground (arith, e, b.0),
        record {
          size = s.size ∙ long;
          sums = λ i k.
              s.sums i (omega (arith, long))
              ∙ ap (slot_sum i to vs) (
                  ground
                    (arith, get_or-set out t i (add (get_or out t zero_value) v) zero_value b.0));
        },
      )

  -- Every place of the result holds the sum of the values sent there, from 0.0 on.
  abbrev pub Collects : ℕ → List ℤ → List V → List V → Type 0
  Collects size to uv result =
      (length result ≡ size)
      × ((s : ℕ) → s < size → get_or result s zero_value ≡ slot_sum s to uv zero_value)

  collect :
      (skip : Bool) (size : ℕ) (to : List ℤ) (uv : List V)
      → length uv ≤ length to
      → SlotsBelow skip size to
      → (result : List V) × (scatter_add zero_value add is_finite max_with_abs skip to uv
            (replicate size zero_value)
          ≡ some result)
        × Collects size to uv result
  collect skip size to uv h b =
      let long : length (replicate size zero_value) ≡ size = length-replicate size zero_value in
      let (result, e, s) =
        scatter_add_lem skip to uv (replicate size zero_value) h
          (subst (λ m. SlotsBelow skip m to) (sym long) b) in
      (
        result,
        e,
        (
          s.size ∙ long,
          λ i k.
              s.sums i (omega (arith, long))
              ∙ ap (slot_sum i to uv) (get_or-replicate size i zero_value),
        ),
      )

  -- For a positive order, a cleaning map that is not empty and both copies asked for at once, values in
  -- the layout of the original matrix, as many as it has entries and all finite, are accepted: each
  -- place of the permuted and of the cleaned values gets the sum of the values that its map sends
  -- there, added in the order of the input, provided that the maps have a slot for each value and none
  -- beyond the arrays.
  pub map_values_to_permuted-original :
      (ak : ValueMaps) (uv : List V) (ws : Arrays V)
      → ltz (pos 0) ak.n ≡ true
      → is_empty ak.orig_to_clean_idx ≡ false
      → length uv ≡ length ak.orig_row_idx
      → all_finite zero_value add is_finite max_with_abs uv ≡ true
      → length uv ≤ length ak.orig_to_clean_idx
      → length uv ≤ length ak.orig_to_perm_direct
      → SlotsBelow true (clean_nnz zero_value add is_finite max_with_abs ak) ak.orig_to_clean_idx
      → SlotsBelow true (perm_nnz zero_value add is_finite max_with_abs ak) ak.orig_to_perm_direct
      → (stored : Arrays V) × (map_values_to_permuted zero_value add is_finite max_with_abs ak
            (record { array = some uv; original_layout = true })
            ws
            true
            false
          ≡ some (record {
            code = ErrorCode.success;
            ws = stored;
            max_abs = max_of zero_value add is_finite max_with_abs zero_value uv;
          }))
        × Collects
            (perm_nnz zero_value add is_finite max_with_abs ak)
            ak.orig_to_perm_direct
            uv
            stored.perm_values
        × Collects
            (clean_nnz zero_value add is_finite max_with_abs ak)
            ak.orig_to_clean_idx
            uv
            stored.clean_values
  unfolding map_values_to_permuted
  map_values_to_permuted-original ak uv ws positive mapped count finite long_clean long_perm
        clean_slots perm_slots =
      let (perm, p, perm_sums) =
        collect true (perm_nnz zero_value add is_finite max_with_abs ak) ak.orig_to_perm_direct uv
          long_perm perm_slots in
      let (clean, c, clean_sums) =
        collect true (clean_nnz zero_value add is_finite max_with_abs ak) ak.orig_to_clean_idx uv
          long_clean clean_slots in
      (
        record { clean_values = clean; perm_values = perm },
        ground (arith, positive, mapped, count, finite, p, c),
        perm_sums,
        clean_sums,
      )

  -- Refused values leave the workspace as it was.
  map_values_to_permuted-refused :
      (ak : ValueMaps) (values : FactorValues V) (ws : Arrays V) (need_clean perm_later : Bool)
      (r : Mapped V)
      → map_values_to_permuted zero_value add is_finite max_with_abs ak values ws need_clean
          perm_later
        ≡ some r
      → r.code ≡ ErrorCode.illegal_value
      → r.ws ≡ ws
  unfolding map_values_to_permuted
  map_values_to_permuted-refused ak values ws need_clean perm_later r e illegal =
      ground (arith, e, illegal)
