-- ===== src/Unix/Start.antt =====
-- pmf_unix_init_main of pmf_unix.c: the limits, the master process that is forked where the program
-- runs as a daemon, and the accounts of the pools. What the system answers is an argument.
pub mod Pools
pub mod Roles
use pmf.Common.{
  List, [], eqb_ℤ, if◌then◌else◌, ltb_ℤ, negsuc, not, pos, to_u64, u64_mod, ℕ, ℤ, ◌++◌, ◌-◌, ◌||◌,
  ◌∷◌,
}
use pmf.Outcome.{Outcome, done, failed, map_outcome}
use pmf.Conf.Records.{WorkerPool, priority_unset}
use pmf.Unix.{Accounts, conf_wp}
use pmf.Clock.{ClockAnswers, clock_init}
use pmf.Master.{Master}

-- What `setrlimit` returns for the files and for the core; `pipe` returns and stores; `fork`,
-- `select` and `read` return; the value that is read; and what `setpriority` and `getpid` return.
pub record UnixAnswers : Type 0 where
  pub accounts : Accounts
  pub limit_files : ℤ
  pub limit_core : ℤ
  pub pipe : ℤ × (ℤ × ℤ)
  pub fork : ℤ
  pub select : ℤ
  pub read : ℤ
  pub readval : ℤ
  pub clock : ClockAnswers
  pub setpriority : ℤ
  pub getpid : ℤ

-- The calls that change something outside the program's memory.
pub data UnixCall : Type 0 where
  limited_files : ℕ → UnixCall
  limited_core : ℕ → UnixCall
  piped : ℤ × ℤ → UnixCall
  forked : ℤ → UnixCall
  closed : ℤ → UnixCall
  new_session : UnixCall
  prioritised : ℤ → UnixCall

-- The end of a function, with its calls in order.
abbrev pub Run : Type 0
Run = Outcome Master × List UnixCall

abbrev pub after : List UnixCall → Run → Run
after calls (m, rest) = (m, calls ++ rest)

-- `RLIM_INFINITY`, and the limit of the core: -1 stands for no limit.
abbrev pub rlim_infinity : ℕ
rlim_infinity = u64_mod - 1

abbrev pub core_limit : ℤ → ℕ
core_limit n = if eqb_ℤ n (negsuc 0) then rlim_infinity else to_u64 n

unfoldable pub limit_files : UnixAnswers → Master → (Master → Run) → Run
limit_files answers s next =
    if ltb_ℤ (pos 0) s.config.rlimit_files
    then if ltb_ℤ answers.limit_files (pos 0)
      then (failed s, [])
      else after (limited_files (to_u64 s.config.rlimit_files) ∷ []) (next s)
    else next s

unfoldable pub limit_core : UnixAnswers → Master → (Master → Run) → Run
limit_core answers s next =
    if not (eqb_ℤ s.config.rlimit_core (pos 0))
    then if ltb_ℤ answers.limit_core (pos 0)
      then (failed s, [])
      else after (limited_core (core_limit s.config.rlimit_core) ∷ []) (next s)
    else next s

-- The calling process waits for the answer of the master: its result is that of the function, and
-- it goes on like the master.
unfoldable pub await_answer : UnixAnswers → Master → Outcome Master
await_answer answers s =
    if eqb_ℤ answers.select (negsuc 0)
    then failed s
    else if eqb_ℤ answers.select (pos 0)
    then failed s
    else if eqb_ℤ answers.read (negsuc 0)
    then failed s
    else if eqb_ℤ answers.read (pos 0)
    then failed s
    else if eqb_ℤ answers.readval (pos 1)
    then done s
    else failed s

abbrev pub with_pipe : ℤ × ℤ → Master → Master
with_pipe pair s = record s { globals = record s.globals { send_config_pipe = pair } }

-- After `fork`: in the calling process, where it fails; in the master; in the calling process.
unfoldable pub after_fork : UnixAnswers → Master → (Master → Run) → Run
after_fork answers s next =
    if eqb_ℤ answers.fork (negsuc 0)
    then (failed s, [])
    else if eqb_ℤ answers.fork (pos 0)
    then after (forked (pos 0) ∷ closed s.globals.send_config_pipe.0 ∷ []) (next s)
    else (await_answer answers s, forked answers.fork ∷ [])

unfoldable pub daemonize : UnixAnswers → Master → (Master → Run) → Run
daemonize answers s next =
    let (code, pair) = answers.pipe in
    if eqb_ℤ s.config.daemonize (pos 0)
    then next s
    else if eqb_ℤ code (negsuc 0)
    then (failed s, [])
    else after (piped pair ∷ []) (after_fork answers (with_pipe pair s) next)

-- The loop over the pools; a failure leaves those that follow.
abbrev pub then_pools :
    List WorkerPool → ℤ × WorkerPool → Outcome (List WorkerPool) → Outcome (List WorkerPool)
then_pools pools (code, wp) rest =
    if ltb_ℤ code (pos 0) then failed (wp ∷ pools) else map_outcome (wp ∷◌) rest

unfoldable pub conf_pools : Accounts → List WorkerPool → Outcome (List WorkerPool)
conf_pools accounts [] = done []
conf_pools accounts (wp ∷ pools) =
    then_pools pools (conf_wp accounts wp) (conf_pools accounts pools)

-- From `pmf_globals.parent_pid = getpid()` on.
unfoldable pub own_pools : UnixAnswers → Master → Outcome Master
own_pools answers s =
    let own : Master = record s { globals = record s.globals { parent_pid = answers.getpid } } in
    map_outcome (λ pools. record own { pools = pools }) (conf_pools answers.accounts s.pools)

abbrev pub with_priority : UnixAnswers → Master → Run
with_priority answers s =
    if eqb_ℤ s.config.process_priority priority_unset || not answers.accounts.is_root
    then (own_pools answers s, [])
    else if ltb_ℤ answers.setpriority (pos 0)
    then (failed s, [])
    else (own_pools answers s, prioritised s.config.process_priority ∷ [])

-- The rest of the function, in the master.
unfoldable pub as_master : UnixAnswers → Master → Run
as_master answers s =
    let (code, clocked) = clock_init answers.clock s in
    after (new_session ∷ [])
      (if ltb_ℤ code (pos 0) then (failed clocked, []) else with_priority answers clocked)

-- pmf_unix_init_main.
unfoldable pub unix_init_main : UnixAnswers → Master → Run
unix_init_main answers s =
    limit_files answers s (λ t. limit_core answers t (λ u. daemonize answers u (as_master answers)))
