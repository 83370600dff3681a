-- ===== src/Scoreboard/Setup.antt =====
-- pmf_scoreboard_init_main of pmf_scoreboard.c: the block of shared memory for each pool. The sizes
-- of the structures are arguments, and so are what pmf_shm_alloc returns for a pool and the time.
pub mod Layout
pub mod Boards
use pmf.Common.{
  List, Option, [], if◌then◌else◌, ltb_ℤ, none, pos, pos_part, some, suc, take, u64_mod, zero, ℕ, ℤ,
  ◌%◌, ◌*◌, ◌+◌, ◌∷◌,
}
use pmf.Text.Chars.{Text}
use pmf.Outcome.{Outcome, done, failed, fault}
use pmf.Conf.Records.{WorkerPool}
use pmf.Conf.Parse.{with_code}
use pmf.Shm.{Mapped, block, map_failed, null}
use pmf.Scoreboard.Update.{Scoreboard}

-- The counters in memory that mmap has zeroed.
abbrev pub scoreboard_zeroed : Scoreboard
scoreboard_zeroed = record {
  idle = pos 0;
  active = pos 0;
  active_max = pos 0;
  requests = 0;
  max_children_reached = 0;
  lq = pos 0;
  lq_max = pos 0;
  lq_len = 0;
  slow_rq = 0;
}

-- `sizeof(PMF_SCOREBOARD_S)`, of a pointer, and of `PMF_SCOREBOARD_PROC_S`.
pub record Sizes : Type 0 where
  pub scoreboard : ℕ
  pub pointer : ℕ
  pub proc : ℕ

-- `scoreboard_size` and `scoreboard_nprocs_size`, of 64 bits.
abbrev pub scoreboard_size : Sizes → ℕ → ℕ
scoreboard_size sizes n = (sizes.scoreboard + n * sizes.pointer) % u64_mod

abbrev pub scoreboard_nprocs_size : Sizes → ℕ → ℕ
scoreboard_nprocs_size sizes n = sizes.proc * n % u64_mod

-- What is asked of pmf_shm_alloc.
abbrev pub block_size : Sizes → ℕ → ℕ
block_size sizes n = (scoreboard_size sizes n + scoreboard_nprocs_size sizes n) % u64_mod

-- The loop that fills `procs`, from the address of the first.
unfoldable pub fill_procs : ℕ → ℕ → ℕ → List ℕ
fill_procs size zero shm_mem = []
fill_procs size (suc n) shm_mem = shm_mem ∷ fill_procs size n (shm_mem + size)

-- What the block holds beside the counters, which the set-up fills.
pub record Board : Type 0 where
  pub nprocs : ℕ
  pub procs : List ℕ
  pub pm : ℤ
  pub start_epoch : ℤ
  pub pool : Text

-- The size of `pool`; strncpy writes no NUL after a name of that size or more.
abbrev pub pool_size : ℕ
pool_size = 32

-- The pool with its scoreboard, and what the block holds; strncpy reads the name, also where it is
-- NULL.
abbrev pub fill_block :
    Sizes → ℤ → WorkerPool → ℕ → Option Text → Outcome (WorkerPool × Option Board)
fill_block sizes now wp p none = fault
fill_block sizes now wp p (some name) =
    let n : ℕ = pos_part wp.config.pm_max_children in
    done (
      record wp { scoreboard = some scoreboard_zeroed },
      some (record {
        nprocs = n;
        procs = fill_procs sizes.proc n (p + scoreboard_size sizes n);
        pm = wp.config.pm_type;
        start_epoch = now;
        pool = take pool_size name;
      }),
    )

-- MAP_FAILED is written to as memory.
abbrev pub with_block : Sizes → ℤ → WorkerPool → Mapped → Outcome (WorkerPool × Option Board)
with_block sizes now wp null = failed (wp, none)
with_block sizes now wp map_failed = fault
with_block sizes now wp (block p) = fill_block sizes now wp p wp.config.name

abbrev pub without_scoreboard :
    Option Scoreboard → Sizes → ℤ → WorkerPool → Mapped → Outcome (WorkerPool × Option Board)
without_scoreboard none sizes now wp mem = with_block sizes now wp mem
without_scoreboard (some s) sizes now wp mem = failed (wp, none)

-- One round of the loop over the pools.
unfoldable pub init_pool : Sizes → ℤ → WorkerPool → Mapped → Outcome (WorkerPool × Option Board)
init_pool sizes now wp mem =
    if ltb_ℤ wp.config.pm_max_children (pos 1)
    then failed (wp, none)
    else without_scoreboard wp.scoreboard sizes now wp mem

-- The pool of a round before the pools of the others, which a failure leaves as they are.
abbrev pub before_rest :
    List WorkerPool
    → Outcome (WorkerPool × Option Board)
    → Outcome (List WorkerPool)
    → Outcome (List WorkerPool)
before_rest pools (done (wp, board)) (done rest) = done (wp ∷ rest)
before_rest pools (done (wp, board)) (failed rest) = failed (wp ∷ rest)
before_rest pools (done (wp, board)) fault = fault
before_rest pools (failed (wp, board)) rest = failed (wp ∷ pools)
before_rest pools fault rest = fault

unfoldable pub init_loop :
    Sizes → (WorkerPool → ℤ) → (WorkerPool → Mapped) → List WorkerPool → Outcome (List WorkerPool)
init_loop sizes now mem [] = done []
init_loop sizes now mem (wp ∷ pools) =
    before_rest pools (init_pool sizes (now wp) wp (mem wp)) (init_loop sizes now mem pools)

-- The function ends with no `return`, as pmf_conf_parse_pool_ini does.
unfoldable pub init_main :
    Sizes
    → (WorkerPool → ℤ)
    → (WorkerPool → Mapped)
    → ℤ
    → List WorkerPool
    → Outcome (ℤ × List WorkerPool)
init_main sizes now mem left_over pools = with_code left_over (init_loop sizes now mem pools)
