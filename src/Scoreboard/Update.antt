-- ===== src/Scoreboard/Update.antt =====
-- `PMF_SCOREBOARD_S` of pmf_scoreboard.h, and pmf_scoreboard_update of pmf_scoreboard.c.
use pmf.Common.{
  Option, eqb_ℤ, if◌then◌else◌, leb_ℤ, ltb, ltb_ℤ, none, pos, some, to_u32, to_u64, u32_mod,
  u64_mod, wrap_int, ℕ, ℤ, ◌%◌, ◌+ℤ◌, ◌+◌,
}

-- The fields that an update touches. `int` fields are integers, unsigned ones numbers.
pub record Scoreboard : Type 0 where
  pub idle : ℤ
  pub active : ℤ
  pub active_max : ℤ
  pub requests : ℕ
  pub max_children_reached : ℕ
  pub lq : ℤ
  pub lq_max : ℤ
  pub lq_len : ℕ
  pub slow_rq : ℕ

-- `PMF_SCOREBOARD_ACTION_SET`; every other action counts as `PMF_SCOREBOARD_ACTION_INC`.
abbrev pub action_set : ℤ
action_set = pos 0

abbrev pub action_inc : ℤ
action_inc = pos 1

-- The arguments of a call that are numbers, each an `int`.
pub record Counts : Type 0 where
  pub idle : ℤ
  pub active : ℤ
  pub lq : ℤ
  pub lq_len : ℤ
  pub requests : ℤ
  pub max_children_reached : ℤ
  pub slow_rq : ℤ

-- `if (value >= 0) field = value;`, for an `int`, an `unsigned int` and an `unsigned long` field.
abbrev pub set_int : ℤ → ℤ → ℤ
set_int field value = if leb_ℤ (pos 0) value then value else field

abbrev pub set_u32 : ℕ → ℤ → ℕ
set_u32 field value = if leb_ℤ (pos 0) value then to_u32 value else field

abbrev pub set_u64 : ℕ → ℤ → ℕ
set_u64 field value = if leb_ℤ (pos 0) value then to_u64 value else field

unfoldable pub set_counts : Counts → Scoreboard → Scoreboard
set_counts c s =
    let lq' : ℤ = set_int s.lq c.lq in
    record s {
      idle = set_int s.idle c.idle;
      active = set_int s.active c.active;
      lq = lq';
      lq_len = set_u32 s.lq_len c.lq_len;
      lq_max = if ltb_ℤ s.lq_max lq' then lq' else s.lq_max;
      requests = set_u64 s.requests c.requests;
      max_children_reached = set_u32 s.max_children_reached c.max_children_reached;
      slow_rq = if ltb_ℤ (pos 0) c.slow_rq then to_u64 c.slow_rq else s.slow_rq;
    }

-- `if (field + value > 0) field += value; else field = 0;`. In `int` the sum is signed; in an
-- unsigned type the value is converted first, and the sum is compared with 0 as an unsigned number.
abbrev pub inc_int : ℤ → ℤ → ℤ
inc_int field value =
    let sum : ℤ = wrap_int (field +ℤ value) in if ltb_ℤ (pos 0) sum then sum else pos 0

abbrev pub inc_u32 : ℕ → ℤ → ℕ
inc_u32 field value = let sum : ℕ = (field + to_u32 value) % u32_mod in if ltb 0 sum then sum else 0

abbrev pub inc_u64 : ℕ → ℤ → ℕ
inc_u64 field value = let sum : ℕ = (field + to_u64 value) % u64_mod in if ltb 0 sum then sum else 0

unfoldable pub inc_counts : Counts → Scoreboard → Scoreboard
inc_counts c s = record s {
  idle = inc_int s.idle c.idle;
  active = inc_int s.active c.active;
  requests = inc_u64 s.requests c.requests;
  max_children_reached = inc_u32 s.max_children_reached c.max_children_reached;
  slow_rq = inc_u64 s.slow_rq c.slow_rq;
}

unfoldable pub raise_active_max : Scoreboard → Scoreboard
raise_active_max s = record s {
  active_max = if ltb_ℤ s.active_max s.active then s.active else s.active_max;
}

unfoldable pub update_locked : Counts → ℤ → Scoreboard → Scoreboard
unfolding set_counts inc_counts raise_active_max
update_locked c action s =
    raise_active_max (if eqb_ℤ action action_set then set_counts c s else inc_counts c s)

-- The call: without a scoreboard argument it takes the process's own, and without that it returns.
-- The first component is the argument's scoreboard after the call, the second the process's own.
unfoldable pub update :
    Counts → ℤ → Option Scoreboard → Option Scoreboard → Option Scoreboard × Option Scoreboard
unfolding update_locked
update c action (some s) own = (some (update_locked c action s), own)
update c action none (some s) = (none, some (update_locked c action s))
update c action none none = (none, none)
