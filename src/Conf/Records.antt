-- ===== src/Conf/Records.antt =====
-- pmf_conf.h and pmf_worker_pool.h: the configuration of the program and of a pool.
use pmf.Common.{Option, none, pos, ℕ, ℤ}
use pmf.Text.Chars.{Text}
use pmf.Scoreboard.Update.{Scoreboard}

-- `PMF_GLOBAL_CONFIG_S`; a string is `none` while it is NULL.
pub record GlobalConfig : Type 0 where
  pub pid_file : Option Text
  pub include_dir : Option Text
  pub error_log : Option Text
  pub log_level : ℤ
  pub emergency_restart_threshold : ℤ
  pub emergency_restart_interval : ℤ
  pub process_control_timeout : ℤ
  pub process_max : ℤ
  pub process_priority : ℤ
  pub daemonize : ℤ
  pub rlimit_files : ℤ
  pub rlimit_core : ℤ
  pub event_mechanism : Option Text

-- `PMF_WORKER_POOL_CONFIG_S`.
pub record PoolConfig : Type 0 where
  pub name : Option Text
  pub user : Option Text
  pub group : Option Text
  pub listen_address : Option Text
  pub listen_owner : Option Text
  pub listen_group : Option Text
  pub listen_mode : Option Text
  pub listen_backlog : ℤ
  pub process_priority : ℤ
  pub process_dumpable : ℤ
  pub pm_type : ℤ
  pub pm_max_children : ℤ
  pub pm_start_servers : ℤ
  pub pm_min_spare_servers : ℤ
  pub pm_max_spare_servers : ℤ
  pub pm_process_idle_timeout : ℤ
  pub pm_max_requests : ℤ

-- `PMF_WORKER_POOL_S`, but for the pointers `next` (the pools are a list) and `children` (nothing
-- sets it) . A pool in the list always has a configuration. Of the scoreboard it has the counters.
pub record WorkerPool : Type 0 where
  pub config : PoolConfig
  pub listening_socket_fd : ℤ
  pub listen_address_domain : ℕ
  pub user : Option Text
  pub home : Option Text
  pub set_uid : ℤ
  pub set_gid : ℤ
  pub socket_uid : ℤ
  pub socket_gid : ℤ
  pub socket_mode : ℤ
  pub running_children_num : ℤ
  pub idle_rate : ℤ
  pub max_children : ℤ
  pub scoreboard : Option Scoreboard

-- `PMF_BACKLOG_DEFAULT` of pmf_sockets.h.
abbrev pub backlog_default : ℤ
backlog_default = pos 511

-- The value of an unset priority.
abbrev pub priority_unset : ℤ
priority_unset = pos 64

-- The initial value of `pmf_global_config`.
abbrev pub global_config_initial : GlobalConfig
global_config_initial = record {
  pid_file = none;
  include_dir = none;
  error_log = none;
  log_level = pos 5;
  emergency_restart_threshold = pos 0;
  emergency_restart_interval = pos 0;
  process_control_timeout = pos 0;
  process_max = pos 0;
  process_priority = priority_unset;
  daemonize = pos 0;
  rlimit_files = pos 0;
  rlimit_core = pos 0;
  event_mechanism = none;
}

-- What pmf_worker_pool_config_alloc puts into a new pool's configuration.
abbrev pub pool_config_initial : PoolConfig
pool_config_initial = record {
  name = none;
  user = none;
  group = none;
  listen_address = none;
  listen_owner = none;
  listen_group = none;
  listen_mode = none;
  listen_backlog = backlog_default;
  process_priority = priority_unset;
  process_dumpable = pos 0;
  pm_type = pos 0;
  pm_max_children = pos 0;
  pm_start_servers = pos 0;
  pm_min_spare_servers = pos 0;
  pm_max_spare_servers = pos 0;
  pm_process_idle_timeout = pos 10;
  pm_max_requests = pos 0;
}

-- pmf_worker_pool_alloc of pmf_worker_pool.c, given whether malloc finds memory, and the allocation
-- of the configuration in pmf_worker_pool_config_alloc.
abbrev pub pool_initial : WorkerPool
pool_initial = record {
  config = pool_config_initial;
  listening_socket_fd = pos 0;
  listen_address_domain = 0;
  user = none;
  home = none;
  set_uid = pos 0;
  set_gid = pos 0;
  socket_uid = pos 0;
  socket_gid = pos 0;
  socket_mode = pos 0;
  running_children_num = pos 0;
  idle_rate = pos 1;
  max_children = pos 0;
  scoreboard = none;
}
