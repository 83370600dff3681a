-- ===== src/Unix/Start/Roles.antt =====
-- In which process pmf_unix_init_main goes on, and with what.
use pmf.Common.{
  Bool-cases, Pairwise, arith, eqb_ℤ, inl, inr, negsuc, pos, refl, subst, ◌≡◌, ◌≢◌, ◌⊎◌,
}
use pmf.Outcome.{done, if-done, if-found, map_outcome-done}
use pmf.Clock.{clock_init}
use pmf.Unix.Start.Pools.{HasAccount, conf_pools-done}
use pmf.Unix.Start.{
  Run, UnixAnswers, after_fork, as_master, await_answer, conf_pools, daemonize, limit_core,
  limit_files, own_pools, unix_init_main, with_pipe, with_priority,
}
use pmf.Master.{Master}

limit_files-done :
    (answers : UnixAnswers) (s s' : Master) (next : Master → Run)
    → (limit_files answers s next).0 ≡ done s'
    → (next s).0 ≡ done s'
unfolding limit_files
limit_files-done answers s s' next h = ground arith

limit_core-done :
    (answers : UnixAnswers) (s s' : Master) (next : Master → Run)
    → (limit_core answers s next).0 ≡ done s'
    → (next s).0 ≡ done s'
unfolding limit_core
limit_core-done answers s s' next h = ground arith

-- The process that goes on as the master: the one that was started, or the one that fork made.
abbrev pub BecomesMaster : UnixAnswers → Master → Type 0
BecomesMaster answers s =
    (s.config.daemonize ≡ pos 0)
    ⊎ ((s.config.daemonize ≢ pos 0) × (answers.pipe.0 ≢ negsuc 0) × (answers.fork ≡ pos 0))

-- How the function succeeds. In the process that becomes the master it stores its own pid, and the
-- pools have their accounts. In the process that started it, which forked, it keeps the pid that it
-- had and its pools; this process has waited until there was an answer, and has read a 1.
pub data Role (answers : UnixAnswers) (s s' : Master) : Type 0 where
  master :
      BecomesMaster answers s
      → s'.globals.parent_pid ≡ answers.getpid
      → Pairwise (HasAccount answers.accounts) s.pools s'.pools
      → s'.config ≡ s.config
      → (s'.globals.error_log_fd ≡ s.globals.error_log_fd)
        × (s'.globals.log_level ≡ s.globals.log_level)
        × (s'.event_module ≡ s.event_module)
      → Role answers s s'
  caller :
      (s.config.daemonize ≢ pos 0) × (answers.pipe.0 ≢ negsuc 0)
      → answers.fork ≢ pos 0
      → answers.fork ≢ negsuc 0
      → (answers.select ≢ negsuc 0) × (answers.select ≢ pos 0)
      → (answers.read ≢ negsuc 0) × (answers.read ≢ pos 0)
      → answers.readval ≡ pos 1
      → with_pipe answers.pipe.1 s ≡ s'
      → Role answers s s'

await_answer-done :
    (answers : UnixAnswers) (s s' : Master)
    → await_answer answers s ≡ done s'
    → ((answers.select ≢ negsuc 0) × (answers.select ≢ pos 0))
      × ((answers.read ≢ negsuc 0) × (answers.read ≢ pos 0))
      × (answers.readval ≡ pos 1)
      × (s ≡ s')
unfolding await_answer
await_answer-done answers s s' h =
    let (a, h1) = if-done (eqb_ℤ answers.select (negsuc 0)) s _ h in
    let (b, h2) = if-done (eqb_ℤ answers.select (pos 0)) s _ h1 in
    let (c, h3) = if-done (eqb_ℤ answers.read (negsuc 0)) s _ h2 in
    let (d, h4) = if-done (eqb_ℤ answers.read (pos 0)) s _ h3 in
    let (e, same) = if-found (eqb_ℤ answers.readval (pos 1)) s s h4 in
    (
      (λ x. ground arith, λ x. ground arith),
      (λ x. ground arith, λ x. ground arith),
      ground arith,
      same,
    )

own_pools-Role :
    (answers : UnixAnswers) (s t s' : Master)
    → BecomesMaster answers s
    → t.pools ≡ s.pools
    → t.config ≡ s.config
    → (t.globals.error_log_fd ≡ s.globals.error_log_fd)
      × (t.globals.log_level ≡ s.globals.log_level)
      × (t.event_module ≡ s.event_module)
    → own_pools answers t ≡ done s'
    → Role answers s s'
unfolding own_pools
own_pools-Role answers s t s' becomes pools config others h =
    let (owned, conf, same) = map_outcome-done _ (conf_pools answers.accounts t.pools) h in
    subst (Role answers s) same (
      Role.master becomes refl
        (subst (λ p. Pairwise (HasAccount answers.accounts) p owned) pools
          (conf_pools-done answers.accounts t.pools conf))
        config others)

with_priority-run :
    (answers : UnixAnswers) (s s' : Master)
    → (with_priority answers s).0 ≡ done s'
    → own_pools answers s ≡ done s'
with_priority-run answers s s' h = ground arith

as_master-run :
    (answers : UnixAnswers) (s s' : Master)
    → (as_master answers s).0 ≡ done s'
    → own_pools answers (clock_init answers.clock s).1 ≡ done s'
unfolding as_master clock_init
as_master-run answers s s' h = with_priority-run answers (clock_init answers.clock s).1 s' h

as_master-Role :
    (answers : UnixAnswers) (s t s' : Master)
    → BecomesMaster answers s
    → t.pools ≡ s.pools
    → t.config ≡ s.config
    → (t.globals.error_log_fd ≡ s.globals.error_log_fd)
      × (t.globals.log_level ≡ s.globals.log_level)
      × (t.event_module ≡ s.event_module)
    → (as_master answers t).0 ≡ done s'
    → Role answers s s'
unfolding clock_init
as_master-Role answers s t s' becomes pools config others h =
    own_pools-Role answers s (clock_init answers.clock t).1 s' becomes pools config others
      (as_master-run answers t s' h)

after_fork-Role :
    (answers : UnixAnswers) (s s' : Master)
    → s.config.daemonize ≢ pos 0
    → answers.pipe.0 ≢ negsuc 0
    → (after_fork answers (with_pipe answers.pipe.1 s) (as_master answers)).0 ≡ done s'
    → Role answers s s'
unfolding after_fork
after_fork-Role answers s s' daemon pipe_ok h = elim (Bool-cases (eqb_ℤ answers.fork (negsuc 0))) [
  | inl e ↦ absurd (ground arith)
  | inr e ↦ elim (Bool-cases (eqb_ℤ answers.fork (pos 0))) [
    | inl child ↦
        as_master-Role answers s (with_pipe answers.pipe.1 s) s'
          (inr (daemon, pipe_ok, ground arith)) refl refl (refl, refl, refl) (ground arith)
    | inr other ↦
        let (selected, was_read, acknowledged, same) =
          await_answer-done answers (with_pipe answers.pipe.1 s) s' (ground arith) in
        Role.caller (daemon, pipe_ok) (ground arith) (ground arith) selected was_read acknowledged
          same
  ]
]

-- pmf_unix_init_main succeeds in one of two ways: in the process that is the master, which does not
-- run as a daemon or for which fork has returned 0, and which stores its own pid, gives each pool
-- its account and leaves the configuration as it was; or in the process that forked the master,
-- after select has found an answer, and read, which returned neither -1 nor 0, has read a 1: this
-- process, too, returns with success, with its pid and its pools as they were.
pub unix_init_main-Role :
    (answers : UnixAnswers) (s s' : Master)
    → (unix_init_main answers s).0 ≡ done s'
    → Role answers s s'
unfolding unix_init_main daemonize
unix_init_main-Role answers s s' h =
    let limited = limit_files-done answers s s' _ h in
    let started = limit_core-done answers s s' _ limited in
    elim (Bool-cases (eqb_ℤ s.config.daemonize (pos 0))) [
      | inl e ↦
          as_master-Role answers s s s' (inl (ground arith)) refl refl (refl, refl, refl)
            (ground arith)
      | inr e ↦ elim (Bool-cases (eqb_ℤ answers.pipe.0 (negsuc 0))) [
        | inl broken ↦ absurd (ground arith)
        | inr piped_ok ↦
            after_fork-Role answers s s' (λ x. ground arith) (λ x. ground arith) (ground arith)
      ]
    ]
