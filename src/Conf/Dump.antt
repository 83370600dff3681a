-- ===== src/Conf/Dump.antt =====
-- pmf_conf_dump of pmf_conf.c: the configuration as the lines that it writes to the log.
pub mod Reading
use Prim.Native.String.{String}
use pmf.Common.{List, Option, [], eqb_ℤ, if◌then◌else◌, none, some, ℤ, ◌++◌, ◌∷◌}
use pmf.Text.Chars.{Text, text}
use pmf.Text.Decimal.{show_int}
use pmf.Conf.Values.{bool_to_str, pm_to_str}
use pmf.Conf.Records.{GlobalConfig, PoolConfig, WorkerPool, priority_unset}
use pmf.Log.Level.{LogState, get_level_name}

-- pmf_conf.h: `STR2STR`.
abbrev pub str_to_str : Option Text → Text
str_to_str none = text "undefined"
str_to_str (some s) = s

-- What printf writes for the name of a level, which may be NULL.
abbrev pub level_to_str : Option Text → Text
level_to_str none = text "(null)"
level_to_str (some name) = name

-- The start of the line of an option.
abbrev pub option_start : Text → Text
option_start key = text "\t\t" ++ key ++ text " = "

abbrev pub line : String → Text → Text
line key value = option_start (text key) ++ value

abbrev pub priority_to_str : ℤ → Text
priority_to_str a = if eqb_ℤ a priority_unset then text "undefined" else show_int a

unfoldable pub dump_global : GlobalConfig → LogState → List Text
dump_global c log =
    text "[global]"
    ∷ line "pid" (str_to_str c.pid_file)
    ∷ line "include_dir" (str_to_str c.include_dir)
    ∷ line "error_log" (str_to_str c.error_log)
    ∷ line "log_level" (level_to_str (get_level_name c.log_level log))
    ∷ line "emergency_restart_interval" (show_int c.emergency_restart_interval ++ text "s")
    ∷ line "emergency_restart_threshold" (show_int c.emergency_restart_threshold)
    ∷ line "process_control_timeout" (show_int c.process_control_timeout ++ text "s")
    ∷ line "process.max" (show_int c.process_max)
    ∷ line "process.priority" (priority_to_str c.process_priority)
    ∷ line "daemonize" (bool_to_str c.daemonize)
    ∷ line "rlimit_files" (show_int c.rlimit_files)
    ∷ line "rlimit_core" (show_int c.rlimit_core)
    ∷ line "events.mechanism" (str_to_str c.event_mechanism)
    ∷ []

unfoldable pub dump_pool : PoolConfig → List Text
dump_pool c =
    (text "[" ++ str_to_str c.name ++ text "]")
    ∷ line "user" (str_to_str c.user)
    ∷ line "group" (str_to_str c.group)
    ∷ line "listen" (str_to_str c.listen_address)
    ∷ line "listen.backlog" (show_int c.listen_backlog)
    ∷ line "process.priority" (priority_to_str c.process_priority)
    ∷ line "process.dumpable" (bool_to_str c.process_dumpable)
    ∷ line "pm" (pm_to_str c.pm_type)
    ∷ line "pm.max_children" (show_int c.pm_max_children)
    ∷ line "pm.start_servers" (show_int c.pm_start_servers)
    ∷ line "pm.min_spare_servers" (show_int c.pm_min_spare_servers)
    ∷ line "pm.max_spare_servers" (show_int c.pm_max_spare_servers)
    ∷ line "pm.process_idle_timeout" (show_int c.pm_process_idle_timeout)
    ∷ line "pm.max_requests" (show_int c.pm_max_requests)
    ∷ []

abbrev pub dump_pools : List WorkerPool → List Text
dump_pools [] = []
dump_pools (wp ∷ pools) = dump_pool wp.config ++ dump_pools pools

-- pmf_conf_dump: each line is one message at PLOG_NOTICE.
unfoldable pub dump : GlobalConfig → LogState → List WorkerPool → List Text
dump c log pools = dump_global c log ++ dump_pools pools
