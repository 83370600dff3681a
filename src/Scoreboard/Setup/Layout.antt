-- ===== src/Scoreboard/Setup/Layout.antt =====
-- The blocks of the scoreboards, and what the pools have after the set-up.
use native.Mathlib.Nat.{mod-eq_of_lt}
use pmf.Common.{
  All, Bool-cases, List, Option, [], ap, arith, false, get_elem?, inl, inr, length, ltb_ℤ, none,
  pos, pos_part, refl, some, subst, suc, take, u64_mod, zero, ℕ, ℤ, ◌%◌, ◌*◌, ◌+◌, ◌<◌, ◌∙◌, ◌∷◌,
  ◌≡◌, ◌≤◌,
}
use pmf.Text.Chars.{Text}
use pmf.Outcome.{Outcome, done, failed, fault}
use pmf.Conf.Records.{WorkerPool}
use pmf.Conf.Parse.{named, with_code}
use pmf.Shm.{Mapped, block, map_failed, null}
use pmf.Scoreboard.Update.{Scoreboard}
use pmf.Scoreboard.Signed.{IsValid}
use pmf.Scoreboard.Setup.{
  Board, Sizes, before_rest, block_size, fill_block, fill_procs, init_loop, init_main, init_pool,
  pool_size, scoreboard_nprocs_size, scoreboard_size, scoreboard_zeroed, with_block,
  without_scoreboard,
}

get_elem?-fill_procs :
    (size n at i : ℕ) → i < n → get_elem? (fill_procs size n at) i ≡ some (at + i * size)
unfolding fill_procs
get_elem?-fill_procs size zero at i h = absurd (omega arith)
get_elem?-fill_procs size (suc n) at zero h = ap some (omega arith)
get_elem?-fill_procs size (suc n) at (suc i) h =
    get_elem?-fill_procs size n (at + size) i (omega arith) ∙ ap some (step size at i)
  where
    step : (size at i : ℕ) → at + size + i * size ≡ at + suc i * size
    step size at i = grind arith

slot-fits : (size n i : ℕ) → i < n → i * size + size ≤ size * n
slot-fits size n i h = grind arith

sizes-exact :
    (sizes : Sizes) (n : ℕ)
    → sizes.scoreboard + n * sizes.pointer + sizes.proc * n < u64_mod
    → (scoreboard_size sizes n ≡ sizes.scoreboard + n * sizes.pointer)
      × (block_size sizes n ≡ sizes.scoreboard + n * sizes.pointer + sizes.proc * n)
sizes-exact sizes n fits =
    let a : scoreboard_size sizes n ≡ sizes.scoreboard + n * sizes.pointer =
      mod-eq_of_lt (omega arith) in
    let b : scoreboard_nprocs_size sizes n ≡ sizes.proc * n = mod-eq_of_lt (omega arith) in
    (
      a,
      ap (λ x. (x + scoreboard_nprocs_size sizes n) % u64_mod) a
          ∙ ap (λ x. (sizes.scoreboard + n * sizes.pointer + x) % u64_mod) b
          ∙ mod-eq_of_lt fits,
    )

-- What the block of a pool with `n` children holds.
abbrev pub board_of : Sizes → ℤ → WorkerPool → ℕ → ℕ → Text → Board
board_of sizes now wp p n name = record {
  nprocs = n;
  procs = fill_procs sizes.proc n (p + scoreboard_size sizes n);
  pm = wp.config.pm_type;
  start_epoch = now;
  pool = take pool_size name;
}

init_pool-block :
    (sizes : Sizes) (now : ℤ) (wp : WorkerPool) (p n : ℕ) (name : Text)
    → wp.scoreboard ≡ none
    → wp.config.pm_max_children ≡ pos n
    → wp.config.name ≡ some name
    → 0 < n
    → init_pool sizes now wp (block p)
      ≡ done
          (record wp { scoreboard = some scoreboard_zeroed }, some (board_of sizes now wp p n name))
unfolding init_pool
init_pool-block sizes now wp p n name empty children named h =
    let enough : ltb_ℤ wp.config.pm_max_children (pos 1) ≡ false = ground arith in
    rw enough (
      ap (λ o. without_scoreboard o sizes now wp (block p)) empty
      ∙ ap (fill_block sizes now wp p) named
      ∙ ap
          (λ c. done (
            record wp { scoreboard = some scoreboard_zeroed },
            some (board_of sizes now wp p (pos_part c) name),
          ))
          children)

-- In the block of a pool that has a name and no scoreboard yet the number of its children, its
-- style and the time are noted, and the name is cut to 32 bytes. Every worker has a slot: the slot
-- of the worker `i` is at the end of the scoreboard and of the `i` slots before it, and it ends
-- within the block that was asked for. The block's size fits in a `size_t`.
pub init_pool-slots :
    (sizes : Sizes) (now : ℤ) (wp : WorkerPool) (p n i : ℕ) (name : Text)
    → wp.scoreboard ≡ none
    → wp.config.pm_max_children ≡ pos n
    → wp.config.name ≡ some name
    → i < n
    → sizes.scoreboard + n * sizes.pointer + sizes.proc * n < u64_mod
    → (wp' : WorkerPool) × (board : Board) × (init_pool sizes now wp (block p)
        ≡ done (wp', some board))
      × (board.nprocs ≡ n)
      × (board.pm ≡ wp.config.pm_type)
      × (board.start_epoch ≡ now)
      × (board.pool ≡ take 32 name)
      × (get_elem? board.procs i
          ≡ some (p + (sizes.scoreboard + n * sizes.pointer) + i * sizes.proc))
      × (p + (sizes.scoreboard + n * sizes.pointer) + i * sizes.proc + sizes.proc
          ≤ p + block_size sizes n)
init_pool-slots sizes now wp p n i name empty children named h fits =
    let (front, all) = sizes-exact sizes n fits in
    let slot = slot-fits sizes.proc n i h in
    (
      record wp { scoreboard = some scoreboard_zeroed },
      board_of sizes now wp p n name,
      init_pool-block sizes now wp p n name empty children named (omega arith),
      refl,
      refl,
      refl,
      refl,
      get_elem?-fill_procs sizes.proc n (p + scoreboard_size sizes n) i h
          ∙ ap (λ x. some (p + x + i * sizes.proc)) front,
      omega (arith, all, slot),
    )

-- What a pool has after the set-up.
abbrev pub HasScoreboard : WorkerPool → Type 0
HasScoreboard wp = (s : Scoreboard) × (wp.scoreboard ≡ some s) × IsValid s

pub scoreboard_zeroed-IsValid : IsValid scoreboard_zeroed
scoreboard_zeroed-IsValid = record {
  idle_nonneg = omega arith;
  active_nonneg = omega arith;
  active_le = omega arith;
  lq_le = omega arith;
}

fill_block-has :
    (sizes : Sizes) (now : ℤ) (wp : WorkerPool) (p : ℕ) (name : Option Text) {wp' : WorkerPool}
    {board : Option Board}
    → fill_block sizes now wp p name ≡ done (wp', board)
    → HasScoreboard wp'
fill_block-has sizes now wp p none h = absurd (cc)
fill_block-has sizes now wp p (some name) {wp'} h =
    let same : record wp { scoreboard = some scoreboard_zeroed } ≡ wp' = cc in
    subst HasScoreboard same (scoreboard_zeroed, refl, scoreboard_zeroed-IsValid)

with_block-has :
    (sizes : Sizes) (now : ℤ) (wp : WorkerPool) (mem : Mapped) {wp' : WorkerPool}
    {board : Option Board}
    → with_block sizes now wp mem ≡ done (wp', board)
    → HasScoreboard wp'
with_block-has sizes now wp null h = absurd (cc)
with_block-has sizes now wp map_failed h = absurd (cc)
with_block-has sizes now wp (block p) h = fill_block-has sizes now wp p wp.config.name h

init_pool-has :
    (sizes : Sizes) (now : ℤ) (wp : WorkerPool) (mem : Mapped) {wp' : WorkerPool}
    {board : Option Board}
    → init_pool sizes now wp mem ≡ done (wp', board)
    → HasScoreboard wp'
unfolding init_pool
init_pool-has sizes now wp mem {wp'} {board} h =
    elim (Bool-cases (ltb_ℤ wp.config.pm_max_children (pos 1))) [
      | inl e ↦ absurd (ground arith)
      | inr e ↦ by_scoreboard wp.scoreboard (ground arith)
    ]
  where
    by_scoreboard :
        (o : Option Scoreboard)
        → without_scoreboard o sizes now wp mem ≡ done (wp', board)
        → HasScoreboard wp'
    by_scoreboard none k = with_block-has sizes now wp mem k
    by_scoreboard (some s) k = absurd (cc)

pub before_rest-done :
    (pools : List WorkerPool) (m : Outcome (WorkerPool × Option Board))
    (rest : Outcome (List WorkerPool)) {pools' : List WorkerPool}
    → before_rest pools m rest ≡ done pools'
    → (wp : WorkerPool) × (board : Option Board) × (left : List WorkerPool) × (m ≡ done (wp, board))
      × (rest ≡ done left)
      × (wp ∷ left ≡ pools')
before_rest-done pools (done (wp, board)) (done rest) h = (wp, board, rest, refl, refl, cc)
before_rest-done pools (done (wp, board)) (failed rest) h = absurd (cc)
before_rest-done pools (done (wp, board)) fault h = absurd (cc)
before_rest-done pools (failed (wp, board)) rest h = absurd (cc)
before_rest-done pools fault rest h = absurd (cc)

init_loop-has :
    (sizes : Sizes) (now : WorkerPool → ℤ) (mem : WorkerPool → Mapped) (pools : List WorkerPool)
    {pools' : List WorkerPool}
    → init_loop sizes now mem pools ≡ done pools'
    → All HasScoreboard pools' × (length pools' ≡ length pools)
unfolding init_loop
init_loop-has sizes now mem [] {pools'} h =
    let e : [] ≡ pools' = cc in
    subst (λ p. All HasScoreboard p × (length p ≡ length {A = WorkerPool} [])) e (tt, refl)
init_loop-has sizes now mem (wp ∷ pools) h =
    let (wp', board, left, first, later, e) = before_rest-done pools _ _ h in
    let (others, len) = init_loop-has sizes now mem pools later in
    subst (λ p. All HasScoreboard p × (length p ≡ length (wp ∷ pools))) e
      ((init_pool-has sizes (now wp) wp (mem wp) first, others), omega (arith, len))

pub with_code-done :
    (left_over : ℤ) (m : Outcome (List WorkerPool)) {code : ℤ} {pools' : List WorkerPool}
    → with_code left_over m ≡ done (code, pools')
    → (code ≡ left_over) × (m ≡ done pools')
with_code-done left_over (done pools) h = (cc, cc)
with_code-done left_over (failed pools) h = cc
with_code-done left_over fault h = cc

-- When the set-up comes to its end every pool has a scoreboard, which is valid, and the number of
-- pools is the same. The value returned is what the call left behind.
pub init_main-IsValid :
    (sizes : Sizes) (now : WorkerPool → ℤ) (mem : WorkerPool → Mapped) (left_over code : ℤ)
    (pools pools' : List WorkerPool)
    → init_main sizes now mem left_over pools ≡ done (code, pools')
    → All HasScoreboard pools' × (length pools' ≡ length pools) × (code ≡ left_over)
unfolding init_main
init_main-IsValid sizes now mem left_over code pools pools' h =
    let (same, run) = with_code-done left_over (init_loop sizes now mem pools) h in
    let (all, len) = init_loop-has sizes now mem pools run in (all, len, same)
