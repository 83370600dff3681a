-- ===== src/Tests/Counters.antt =====
-- pmf_scoreboard_update on a scoreboard with three active workers.
use pmf.Common.{
  List, [], arith, if◌then◌else◌, ltb_ℤ, negsuc, none, pos, refl, some, to_u32, to_u64, u32_mod,
  u64_mod, ℤ, ◌%◌, ◌++◌, ◌+ℤ◌, ◌+◌, ◌-◌, ◌∷◌, ◌≡◌, ◌≤ℤ◌, ◌⊎◌,
}
use pmf.Scoreboard.Update.{Counts, Scoreboard, action_inc, action_set, update, update_locked}
use pmf.Scoreboard.Signed.{IsValid, update_locked-IsValid, update_locked-clamps, update_locked_idem}
use pmf.Scoreboard.Unsigned.{update_locked-underflow, update_locked-unsigned}
use pmf.Scoreboard.History.{run, run-active-le, run-active_max-reached}

abbrev busy : Scoreboard
busy = record {
  idle = pos 1;
  active = pos 3;
  active_max = pos 4;
  requests = 2;
  max_children_reached = 0;
  lq = pos 0;
  lq_max = pos 2;
  lq_len = 128;
  slow_rq = 0;
}

busy-IsValid : IsValid busy
busy-IsValid = record {
  idle_nonneg = omega arith;
  active_nonneg = omega arith;
  active_le = omega arith;
  lq_le = omega arith;
}

-- Two workers become idle, and five requests too many are taken back.
abbrev finished : Counts
finished = record {
  idle = pos 2;
  active = negsuc 1;
  lq = negsuc 0;
  lq_len = negsuc 0;
  requests = negsuc 4;
  max_children_reached = pos 1;
  slow_rq = pos 0;
}

update_locked-IsValid_example : IsValid (update_locked finished action_inc busy)
update_locked-IsValid_example = update_locked-IsValid finished action_inc busy-IsValid

update_locked-clamps_test :
    let s' = update_locked finished action_inc busy in
    (s'.idle ≡ pos 3)
    × (s'.active ≡ pos 1)
    × (s'.active_max ≡ (if ltb_ℤ (pos 4) s'.active then s'.active else pos 4))
    × (s'.lq ≡ pos 0)
    × (s'.lq_max ≡ pos 2)
    × (s'.lq_len ≡ 128)
unfolding ◌+ℤ◌
update_locked-clamps_test =
    update_locked-clamps finished busy (record { above = omega arith; below = omega arith })
      (record { above = omega arith; below = omega arith })

update_locked_idem_example :
    update_locked finished action_set (update_locked finished action_set busy)
    ≡ update_locked finished action_set busy
update_locked_idem_example = update_locked_idem finished busy

update_locked-unsigned_test :
    let s' = update_locked finished action_inc busy in
    (s'.requests ≡ (2 + to_u64 (negsuc 4)) % u64_mod)
    × (s'.max_children_reached ≡ (0 + to_u32 (pos 1)) % u32_mod)
    × (s'.slow_rq ≡ (0 + to_u64 (pos 0)) % u64_mod)
update_locked-unsigned_test = update_locked-unsigned finished busy

update_locked-underflow_example :
    (update_locked finished action_inc busy).requests ≡ u64_mod - (4 + 1 - 2)
update_locked-underflow_example =
    update_locked-underflow finished busy 4 refl (omega arith) (omega arith)

abbrev calls : List (Counts × ℤ)
calls = (finished, action_inc) ∷ []

run-active-le_test : (run [] busy).active ≤ℤ (run calls busy).active_max
run-active-le_test = run-active-le [] calls busy-IsValid

run-active_max-reached_test :
    ((run calls busy).active_max ≡ busy.active_max)
    ⊎ ((earlier : List (Counts × ℤ)) × (later : List (Counts × ℤ)) × (earlier ++ later ≡ calls)
        × ((run calls busy).active_max ≡ (run earlier busy).active))
run-active_max-reached_test = run-active_max-reached calls busy

-- Without a scoreboard the call changes nothing; with its own it updates that.
update_test :
    (update finished action_inc none none ≡ (none, none))
    × (update finished action_set none (some busy)
        ≡ (none, some (update_locked finished action_set busy)))
unfolding update
update_test = (refl, refl)
