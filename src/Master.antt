-- ===== src/Master.antt =====
-- The state of the master process: the variables with static storage of pmf.c and of the other
-- files.
use pmf.Common.{List, Option, pos, ℤ}
use pmf.Conf.Records.{GlobalConfig, WorkerPool}
use pmf.Log.Level.{LogState}
use pmf.Events.{EventModule}
use pmf.Sockets.Table.{Table}

-- `PMF_GLOBAL_S` of pmf.h.
pub record Globals : Type 0 where
  pub parent_pid : ℤ
  pub running_children_num : ℤ
  pub error_log_fd : ℤ
  pub log_level : ℤ
  pub is_child : ℤ
  pub listening_socket : ℤ
  pub max_requests : ℤ
  pub send_config_pipe : ℤ × ℤ

-- The initial value of `pmf_globals`; what it does not name is zero.
abbrev pub globals_initial : Globals
globals_initial = record {
  parent_pid = pos 0;
  running_children_num = pos 0;
  error_log_fd = pos 0;
  log_level = pos 0;
  is_child = pos 0;
  listening_socket = pos 0;
  max_requests = pos 0;
  send_config_pipe = (pos 0, pos 0);
}

-- `pmf_globals`, `pmf_global_config`, `pmf_worker_all_pools`, the state of the log,
-- `pmf_event_module`, `monotonic_works` of pmf_clock.c, the members of `last_faults` of
-- pmf_children.c (`none` while it is NULL), `sp` of pmf_signals.c, and `sockets_list`.
pub record Master : Type 0 where
  pub globals : Globals
  pub config : GlobalConfig
  pub pools : List WorkerPool
  pub log : LogState
  pub event_module : Option EventModule
  pub monotonic_works : ℤ
  pub last_faults : Option (List ℤ)
  pub sp : ℤ × ℤ
  pub sockets_list : Table
