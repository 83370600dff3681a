-- ===== src/Spinlock/Serial.antt =====
-- The scoreboard while processes update it: what it holds at any moment.
use pmf.Common.{
  List, Option, [], ap, inl, inr, none, refl, some, subst, sym, true, ℕ, ◌++◌, ◌∙◌, ◌∷◌, ◌≡◌, ◌⊎◌,
}
use pmf.Spinlock.System.{Pc, Processes, Reach, finish, holds, replay}
use pmf.Spinlock.Invariant.{Midway, Reach-Inv}
use pmf.Spinlock.Safety.{updates_serialised}
use pmf.Spinlock.Board.{BoardWrite, Call, board_writes, finish-update_locked}
use pmf.Scoreboard.Update.{Scoreboard, update_locked}
use pmf.Scoreboard.Signed.{IsValid, update_locked-IsValid}
use pmf.Scoreboard.History.{run}

replay-run : (calls : List Call) (s : Scoreboard) → replay board_writes calls s ≡ run calls s
unfolding run
replay-run [] s = refl
replay-run ((c, action) ∷ calls) s =
    ap (replay board_writes calls) (finish-update_locked c action s)
    ∙ replay-run calls (update_locked c action s)

run-IsValid : (calls : List Call) {s : Scoreboard} → IsValid s → IsValid (run calls s)
unfolding run
run-IsValid [] v = v
run-IsValid ((c, action) ∷ calls) v = run-IsValid calls (update_locked-IsValid c action v)

-- What is left of a call that is in the middle: its arguments, and the statements that have not
-- written yet.
abbrev pub left_of : Pc Scoreboard Call → Option (Call × List BoardWrite)
left_of Pc.outside = none
left_of (Pc.spinning u) = none
left_of (Pc.working u ws) = some (u, ws)
left_of (Pc.loaded u w ws t) = some (u, w ∷ ws)

module _ {s₀ : Scoreboard} {s : Processes Scoreboard Call} (v : IsValid s₀)
    (r : Reach board_writes s₀ s) where
  open (Reach-Inv board_writes r) use {bit, owner, midway}

  abbrev InTheMiddle : ℕ → Type 0
  InTheMiddle i =
      (u : Call) × (ws : List BoardWrite) × (left_of (s.pc i) ≡ some (u, ws))
      × (finish Scoreboard Call ws s.mem.shared ≡ run (s.mem.log ++ u ∷ []) s₀)
      × IsValid (run (s.mem.log ++ u ∷ []) s₀)

  holder-middle :
      (i : ℕ) (p : Pc Scoreboard Call) → s.pc i ≡ p → holds Scoreboard Call p ≡ true → InTheMiddle i
  holder-middle i Pc.outside e h = absurd (cc)
  holder-middle i (Pc.spinning u) e h = absurd (cc)
  holder-middle i (Pc.working u ws) e h =
      let rest = subst (Midway board_writes s₀ s.mem) e (midway i) in
      (
        u,
        ws,
        ap left_of e,
        rest ∙ replay-run (s.mem.log ++ u ∷ []) s₀,
        run-IsValid (s.mem.log ++ u ∷ []) v,
      )
  holder-middle i (Pc.loaded u w ws t) e h =
      let (same, rest) = subst (Midway board_writes s₀ s.mem) e (midway i) in
      (
        u,
        w ∷ ws,
        ap left_of e,
        rest ∙ replay-run (s.mem.log ++ u ∷ []) s₀,
        run-IsValid (s.mem.log ++ u ∷ []) v,
      )

  -- However many processes call pmf_scoreboard_update on a valid scoreboard at once, each reading
  -- the board and writing one field of it at a time, one of two things holds at any moment. The lock
  -- is free, and what the board holds is valid and is what the calls that have ended make of it one
  -- after the other. Or the lock is taken and a process is in the middle of its call, and the
  -- statements that are left of it make of the board what the whole call makes of what those before
  -- it left, which is valid.
  pub scoreboard_serialised :
      ((s.mem.lock ≡ 0) × IsValid s.mem.shared × (s.mem.shared ≡ run s.mem.log s₀))
      ⊎ ((s.mem.lock ≡ 1)
          × (i : ℕ) × (u : Call) × (ws : List BoardWrite) × (left_of (s.pc i) ≡ some (u, ws))
          × (finish Scoreboard Call ws s.mem.shared ≡ run (s.mem.log ++ u ∷ []) s₀)
          × IsValid (run (s.mem.log ++ u ∷ []) s₀))
  scoreboard_serialised = elim bit [
    | inl free ↦
        let e : s.mem.shared ≡ run s.mem.log s₀ =
          updates_serialised board_writes r free ∙ replay-run s.mem.log s₀ in
        inl (free, subst IsValid (sym e) (run-IsValid s.mem.log v), e)
    | inr taken ↦
        let (i, h) = owner taken in
        let (u, ws, left, rest, valid) = holder-middle i (s.pc i) refl h in
        inr (taken, i, u, ws, left, rest, valid)
  ]
