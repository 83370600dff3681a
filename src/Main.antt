-- ===== src/Main.antt =====
-- pmf_init of pmf.c: the parts are set up in a fixed order, up to the first that fails. pmf_run
-- does nothing. What the system answers is an argument.
pub mod Kept
pub mod Running
use pmf.Common.{Bool, List, [], none, pos, ℕ, ℤ, ◌∷◌}
use pmf.Outcome.{Outcome, map_outcome, of_call, of_code, run_all}
use pmf.Conf.Records.{WorkerPool, global_config_initial}
use pmf.Conf.Parse.{Ini}
use pmf.Conf.Load.{ConfAnswers, conf_init_main, with_pools}
use pmf.Conf.Pid.{PidAnswers, write_pid}
use pmf.Log.Level.{log_initial}
use pmf.Shm.{Mapped}
use pmf.Stdio.{StdioAnswers, stdio_init_main}
use pmf.Unix.Start.{UnixAnswers, unix_init_main}
use pmf.Signals.{SignalAnswers, signals_init_main}
use pmf.Children.{children_init_main}
use pmf.Sockets.Setup.{SocketAnswers, sockets_init_main}
use pmf.Master.{Master, globals_initial}
use pmf.Scoreboard.Setup.{Sizes}
use pmf.Scoreboard.Setup
use pmf.Events

-- The state before the call.
abbrev pub master_initial : Master
master_initial = record {
  globals = globals_initial;
  config = global_config_initial;
  pools = [];
  log = log_initial;
  event_module = none;
  monotonic_works = pos 0;
  last_faults = none;
  sp = (pos 0, pos 0);
  sockets_list = record { cells = []; member_size = 0; used_num = 0; allocated_num = 0 };
}

-- The answers for each part. `board_left_over` is the value that pmf_scoreboard_init_main leaves
-- behind, and `event_init` what the `init` of the event module returns for a number of descriptors.
pub record World (Dictionary : Type 0) : Type 0 where
  pub ini : Ini Dictionary
  pub stdio : StdioAnswers
  pub conf : ConfAnswers
  pub unix : UnixAnswers
  pub sizes : Sizes
  pub shm : WorkerPool → Mapped
  pub now : WorkerPool → ℤ
  pub board_left_over : ℤ
  pub signals : SignalAnswers
  pub malloc_ok : ℕ → Bool
  pub sockets : SocketAnswers
  pub event_init : ℤ → ℤ
  pub pid : PidAnswers

module _ {D : Type 0} (w : World D) where
  abbrev pub init_stdio : Master → Outcome Master
  init_stdio s = of_code ((stdio_init_main w.stdio).0, s)

  abbrev pub init_conf : Master → Outcome Master
  init_conf s = conf_init_main w.ini w.conf s

  abbrev pub init_unix : Master → Outcome Master
  init_unix s = (unix_init_main w.unix s).0

  abbrev pub init_scoreboards : Master → Outcome Master
  init_scoreboards s =
      map_outcome (with_pools s)
        (of_call (Setup.init_main w.sizes w.now w.shm w.board_left_over s.pools))

  abbrev pub init_signals : Master → Outcome Master
  init_signals s = (signals_init_main w.signals s).0

  abbrev pub init_children : Master → Outcome Master
  init_children s = children_init_main w.malloc_ok s

  abbrev pub init_sockets : Master → Outcome Master
  init_sockets s = sockets_init_main w.sockets s

  -- pmf_worker_pool_init_main.
  abbrev pub worker_pool_init_main : ℤ
  worker_pool_init_main = pos 0

  abbrev pub init_worker_pools : Master → Outcome Master
  init_worker_pools s = of_code (worker_pool_init_main, s)

  abbrev pub init_events : Master → Outcome Master
  init_events s = of_code (Events.init_main s.event_module w.event_init s.pools, s)

  abbrev pub init_pid : Master → Outcome Master
  init_pid s = of_code ((write_pid w.pid s).0, s)

  -- The calls of pmf_init, in order.
  abbrev pub init_calls : List (Master → Outcome Master)
  init_calls =
      init_stdio ∷ init_conf ∷ init_unix ∷ init_scoreboards ∷ init_signals ∷ init_children
      ∷ init_sockets ∷ init_worker_pools ∷ init_events ∷ init_pid ∷ []

  -- pmf_init.
  unfoldable pub pmf_init : Master → Outcome Master
  pmf_init s = run_all init_calls s
