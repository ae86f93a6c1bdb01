-- ===== src/Memory/FactorStack.antt =====
-- solver/src/factor_stack.cpp and solver/include/smf/factor_stack.hpp: the two-buffer stack of
-- contribution blocks. A buffer's storage is the list of its doubles; `new double[k]` gives storage
-- of unknown contents, the parameter `uninit k`. Byte counts are natural numbers below 2 ^ 64.
pub mod Laws
mod Tests
use opt_solver.Base.{
  ℕ, ◌+◌, ◌-◌, ◌*◌, ◌/◌, ◌≤◌, Bool, true, false, not, List, ◌++◌, ltb, leb, if◌then◌else◌, length,
  take, drop, Option, some, none,
}

abbrev pub sizeof_double : ℕ
sizeof_double = 8

-- ((bytes + sizeof(double) - 1) / sizeof(double)) * sizeof(double)
unfoldable pub round_up : ℕ → ℕ
round_up bytes = ((bytes + sizeof_double - 1) / sizeof_double) * sizeof_double

pub record Buffer (V : Type 0) : Type 0 where
  pub cells : List V
  pub capacity_bytes : ℕ
  pub top_bytes : ℕ

-- `active` is false for buf_[0] and true for buf_[1].
pub record FactorStack (V : Type 0) : Type 0 where
  pub buf0 : Buffer V
  pub buf1 : Buffer V
  pub active : Bool
  pub hwm_total : ℕ
  pub growth_count : ℕ

abbrev pub active_buf : {V : Type 0} → FactorStack V → Buffer V
active_buf s = if s.active then s.buf1 else s.buf0

abbrev pub idle_buf : {V : Type 0} → FactorStack V → Buffer V
idle_buf s = if s.active then s.buf0 else s.buf1

unfoldable pub live_bytes : {V : Type 0} → FactorStack V → ℕ
live_bytes s = s.buf0.top_bytes + s.buf1.top_bytes

-- The stack with its active buffer replaced.
abbrev pub put_active : {V : Type 0} → FactorStack V → Buffer V → FactorStack V
put_active s b = record s {
  buf0 = if s.active then s.buf0 else b;
  buf1 = if s.active then b else s.buf1;
}

-- max(current * 1.5, min_bytes), rounded up to a double boundary
unfoldable pub new_capacity : ℕ → ℕ → ℕ
unfolding round_up
new_capacity cap min_bytes =
    let new_cap = cap + cap / 2 in round_up (if ltb new_cap min_bytes then min_bytes else new_cap)

module _ {V : Type 0} (uninit : ℕ → List V) where
  -- Buffer::init
  unfoldable pub init : ℕ → Buffer V
  init bytes = record {
    cells = uninit (bytes / sizeof_double);
    capacity_bytes = bytes;
    top_bytes = 0;
  }

  -- Buffer::grow: the live doubles are copied, the rest of the new storage is uninitialised.
  unfoldable pub grow : Buffer V → ℕ → Buffer V
  grow b min_bytes =
      let new_cap = new_capacity b.capacity_bytes min_bytes in
      let live = b.top_bytes / sizeof_double in
      record b {
        cells = take live b.cells ++ drop live (uninit (new_cap / sizeof_double));
        capacity_bytes = new_cap;
      }

  unfoldable pub factor_stack : ℕ → FactorStack V
  unfolding round_up init
  factor_stack initial_bytes =
      let bytes = round_up initial_bytes in
      record {
        buf0 = init bytes;
        buf1 = init bytes;
        active = false;
        hwm_total = 0;
        growth_count = 0;
      }

  -- The buffer that an allocation of `n_bytes` pushes on, grown first if it is too small.
  unfoldable pub with_room : Buffer V → ℕ → Buffer V
  with_room b n_bytes =
      if ltb b.capacity_bytes (b.top_bytes + n_bytes) then grow b (b.top_bytes + n_bytes) else b

  -- FactorStack::alloc: the new stack, and the block's byte offset in the active buffer.
  unfoldable pub alloc : FactorStack V → ℕ → FactorStack V × ℕ
  unfolding with_room live_bytes
  alloc s n_doubles =
      let n_bytes = n_doubles * sizeof_double in
      let old = active_buf s in
      let b = with_room old n_bytes in
      let pushed = put_active s (record b { top_bytes = b.top_bytes + n_bytes }) in
      let total_live = live_bytes pushed in
      (
        record pushed {
          hwm_total = if ltb s.hwm_total total_live then total_live else s.hwm_total;
          growth_count =
              if ltb old.capacity_bytes (old.top_bytes + n_bytes)
              then s.growth_count + 1
              else s.growth_count;
        },
        old.top_bytes,
      )

-- FactorStack::free_top; `none` is the assertion "free_top: underflow".
unfoldable pub free_top : {V : Type 0} → FactorStack V → ℕ → Option (FactorStack V)
free_top s n_doubles =
    let n_bytes = n_doubles * sizeof_double in
    let b = active_buf s in
    if leb n_bytes b.top_bytes
    then some (put_active s (record b { top_bytes = b.top_bytes - n_bytes }))
    else none

-- FactorStack::flip
unfoldable pub flip : {V : Type 0} → FactorStack V → FactorStack V
flip s = record s { active = not s.active }
