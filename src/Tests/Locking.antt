-- ===== src/Tests/Locking.antt =====
-- The spin lock with two processes that add to a number, and with one that updates a scoreboard.
use pmf.Common.{
  List, [], arith, false, none, pos, refl, some, true, u32_mod, ℕ, ℕ_discrete, ◌%◌, ◌++◌, ◌+◌, ◌<◌,
  ◌↔◌, ◌∷◌, ◌≡◌, ◌≢◌, ◌⊎◌,
}
use pmf.Spinlock.Variants.{cmp_set_64, cmp_set_64-atomic_cmp_set}
use pmf.Spinlock.Lock.{atomic_cmp_set, spinlock, spinlock-once, spinlock-waits, spinlock_round}
use pmf.Spinlock.System.{
  Memory, Move, Pc, Processes, Reach, Step, Write, finish, holds, replay, start, update,
}
use pmf.Spinlock.Safety.{
  loaded_is_present, mutual_exclusion, no_deadlock, rest_of_update, updates_serialised,
}
use pmf.Spinlock.Board.{BoardWrite, Call, board_writes}
use pmf.Spinlock.Serial.{left_of, scoreboard_serialised}
use pmf.Scoreboard.Update.{Scoreboard, action_inc}
use pmf.Scoreboard.Signed.{IsValid}
use pmf.Scoreboard.History.{run}

-- An addition in one statement.
abbrev add : ℕ → List (Write ℕ ℕ)
add u = (λ s b. u + s) ∷ []

abbrev called : Processes ℕ ℕ
called = record { mem = (start ℕ ℕ 7).mem; pc = update (start ℕ ℕ 7).pc 0 (Pc.spinning 5) }

abbrev entered : Processes ℕ ℕ
entered = record {
  mem = record called.mem { lock = 1 };
  pc = update called.pc 0 (Pc.working 5 (add 5));
}

abbrev loaded : Processes ℕ ℕ
loaded = record { mem = entered.mem; pc = update entered.pc 0 (Pc.loaded 5 (λ s b. 5 + s) [] 7) }

abbrev both : Processes ℕ ℕ
both = record { mem = loaded.mem; pc = update loaded.pc 1 (Pc.spinning 9) }

abbrev stored : Processes ℕ ℕ
stored = record {
  mem = record { lock = 1; shared = 12; log = [] };
  pc = update both.pc 0 (Pc.working 5 []);
}

abbrev released : Processes ℕ ℕ
released = record {
  mem = record { lock = 0; shared = 12; log = 5 ∷ [] };
  pc = update stored.pc 0 Pc.outside;
}

both-Reach : Reach add 7 both
unfolding ℕ_discrete
both-Reach =
    Reach.later
      (Reach.later
        (Reach.later (Reach.later Reach.here (Step.pick 0 (Move.call 5)))
          (Step.pick 0 (Move.win refl)))
        (Step.pick 0 Move.load))
      (Step.pick 1 (Move.call 9))

stored-Reach : Reach add 7 stored
unfolding ℕ_discrete
stored-Reach = Reach.later both-Reach (Step.pick 0 Move.store)

released-Reach : Reach add 7 released
unfolding ℕ_discrete
released-Reach = Reach.later stored-Reach (Step.pick 0 Move.release)

mutual_exclusion_example : ◌≡◌ {A = ℕ} 0 0
unfolding ℕ_discrete
mutual_exclusion_example = mutual_exclusion add both-Reach 0 0 refl refl

updates_serialised_test : 12 ≡ replay add (5 ∷ []) 7
updates_serialised_test = updates_serialised add released-Reach refl

rest_of_update_test : 12 ≡ replay add (5 ∷ []) 7
unfolding ℕ_discrete
rest_of_update_test = rest_of_update add stored-Reach 0 5 [] refl

loaded_is_present_test : 7 ≡ both.mem.shared
unfolding ℕ_discrete
loaded_is_present_test = loaded_is_present add both-Reach 0 5 (λ s b. 5 + s) [] 7 refl

no_deadlock_example :
    ((spinlock_round false 1).0 ≡ some true)
    ⊎ ((j : ℕ) × (m : Memory ℕ ℕ) × (p : Pc ℕ ℕ) × (holds ℕ ℕ (both.pc j) ≡ true)
        × Move add both.mem (both.pc j) m p)
unfolding ℕ_discrete
no_deadlock_example = no_deadlock add both-Reach 1 9 refl

spinlock-waits_test :
    (spinlock false (1 ∷ 1 ∷ []) ≡ none) × (spinlock false (1 ∷ 1 ∷ 0 ∷ 1 ∷ []) ≡ some (true, 1))
spinlock-waits_test = spinlock-waits (1 ∷ 1 ∷ []) (1 ∷ []) (taken, (taken, tt))
  where
    taken : ◌≢◌ {A = ℕ} 1 0
    taken e = absurd (omega arith)

spinlock-once_example : spinlock true (1 ∷ []) ≡ some (false, 1)
spinlock-once_example = spinlock-once 1 []

abbrev zero_board : Scoreboard
zero_board = record {
  idle = pos 0;
  active = pos 0;
  active_max = pos 0;
  requests = 0;
  max_children_reached = 0;
  lq = pos 0;
  lq_max = pos 0;
  lq_len = 0;
  slow_rq = 0;
}

zero_board-IsValid : IsValid zero_board
zero_board-IsValid = record {
  idle_nonneg = omega arith;
  active_nonneg = omega arith;
  active_le = omega arith;
  lq_le = omega arith;
}

abbrev one_active : Call
one_active = (
  record {
    idle = pos 0;
    active = pos 1;
    lq = pos 0;
    lq_len = pos 0;
    requests = pos 1;
    max_children_reached = pos 0;
    slow_rq = pos 0;
  },
  action_inc,
)

-- One process has entered the critical section and has written nothing yet.
abbrev in_update : Processes Scoreboard Call
in_update = record {
  mem = record { lock = 1; shared = zero_board; log = [] };
  pc =
      update (update (λ _. Pc.outside) 0 (Pc.spinning one_active)) 0
        (Pc.working one_active (board_writes one_active));
}

in_update-Reach : Reach board_writes zero_board in_update
unfolding ℕ_discrete
in_update-Reach =
    Reach.later (Reach.later Reach.here (Step.pick 0 (Move.call one_active)))
      (Step.pick 0 (Move.win refl))

scoreboard_serialised_example :
    ((in_update.mem.lock ≡ 0) × IsValid zero_board × (zero_board ≡ run [] zero_board))
    ⊎ ((in_update.mem.lock ≡ 1)
        × (i : ℕ) × (u : Call) × (ws : List BoardWrite) × (left_of (in_update.pc i) ≡ some (u, ws))
        × (finish Scoreboard Call ws zero_board ≡ run ([] ++ u ∷ []) zero_board)
        × IsValid (run ([] ++ u ∷ []) zero_board))
scoreboard_serialised_example = scoreboard_serialised zero_board-IsValid in_update-Reach

-- The word 2^32, whose low half is 0.
cmp_set_64-atomic_cmp_set_example :
    (cmp_set_64 u32_mod 0 1 ≡ (true, u32_mod))
    × ((cmp_set_64 u32_mod 0 1 ≡ atomic_cmp_set u32_mod 0 1)
        ↔ ((u32_mod < u32_mod) ⊎ (u32_mod % u32_mod ≢ 0)))
cmp_set_64-atomic_cmp_set_example = cmp_set_64-atomic_cmp_set u32_mod 0 1 (omega arith)
