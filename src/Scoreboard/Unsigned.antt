-- ===== src/Scoreboard/Unsigned.antt =====
-- The unsigned counters of the scoreboard under an increment: the test for a sum above 0 is made on
-- an unsigned sum, so it does not stop a counter from falling below 0.
use pmf.Common.{
  arith, negsuc, to_u32, to_u64, u32_mod, u64_mod, ℕ, ◌%◌, ◌+◌, ◌-◌, ◌<◌, ◌^◌, ◌≡◌, ◌≤◌,
}
use pmf.Scoreboard.Update.{Counts, Scoreboard, action_inc, update_locked}

-- Whatever the arguments, an increment adds them to the unsigned counters modulo the counters'
-- size: the branch that puts 0 changes nothing.
pub update_locked-unsigned :
    (c : Counts) (s : Scoreboard)
    → let s' = update_locked c action_inc s in
      (s'.requests ≡ (s.requests + to_u64 c.requests) % u64_mod)
      × (s'.max_children_reached
          ≡ (s.max_children_reached + to_u32 c.max_children_reached) % u32_mod)
      × (s'.slow_rq ≡ (s.slow_rq + to_u64 c.slow_rq) % u64_mod)
unfolding update_locked
update_locked-unsigned c s = ground arith

-- Taking more from `requests` than it holds leaves a number near the top of `unsigned long`, where
-- a signed counter would be 0.
pub update_locked-underflow :
    (c : Counts) (s : Scoreboard) (d : ℕ)
    → c.requests ≡ negsuc d
    → d < 2 ^ 31
    → s.requests ≤ d
    → (update_locked c action_inc s).requests ≡ u64_mod - (d + 1 - s.requests)
unfolding update_locked to_u64
update_locked-underflow c s d e small low = ground arith
