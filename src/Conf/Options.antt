-- ===== src/Conf/Options.antt =====
-- The option tables of pmf_conf.c, and the stores of the parsers through an offset into a
-- structure.
use Prim.Native.String.{String}
use pmf.Common.{Bool, List, Option, [], if◌then◌else◌, none, some, ℕ, ℤ, ◌==◌, ◌∷◌}
use pmf.Text.Chars.{Text, text}
use pmf.Conf.Values.{
  Parsed, err, ok, set_boolean, set_integer, set_log_level, set_pm, set_rlimit_core, set_time,
}
use pmf.Conf.Expand.{set_string}
use pmf.Conf.Records.{GlobalConfig, PoolConfig}

-- What a parser stores: a `char *` or an `int`.
pub data Value : Type 0 where
  str : Option Text → Value
  int : ℤ → Value

-- The parsers that a row of a table can name.
pub data Parser : Type 0 where
  string log_level integer time boolean rlimit_core pm : Parser

abbrev pub parsed_int : Parsed ℤ → Parsed Value
parsed_int (ok a) = ok (int a)
parsed_int (err message) = err message

abbrev pub parsed_str : Parsed (Option Text) → Parsed Value
parsed_str (ok s) = ok (str s)
parsed_str (err message) = err message

unfoldable pub run_parser : Bool → Parser → Text → Parsed Value
run_parser strdup_ok string value = parsed_str (set_string strdup_ok value)
run_parser strdup_ok log_level value = parsed_int (set_log_level value)
run_parser strdup_ok integer value = parsed_int (set_integer value)
run_parser strdup_ok time value = parsed_int (set_time value)
run_parser strdup_ok boolean value = parsed_int (set_boolean value)
run_parser strdup_ok rlimit_core value = parsed_int (set_rlimit_core value)
run_parser strdup_ok pm value = parsed_int (set_pm value)

-- `INI_VALUE_PARSER_S`.
pub record Row : Type 0 where
  pub key : Text
  pub parser : Parser
  pub offset : ℕ

abbrev pub row : String → Parser → ℕ → Row
row key parser offset = record { key = text key; parser = parser; offset = offset }

-- The offsets are those of the 64-bit target, where a pointer has 8 bytes and an `int` has 4.
abbrev pub global_options : List Row
global_options =
    row "pid_file" string 0
    ∷ row "include_dir" string 8
    ∷ row "error_log" string 16
    ∷ row "log_level" log_level 24
    ∷ row "emergency_restart_threshold" integer 28
    ∷ row "emergency_restart_interval" time 32
    ∷ row "process_control_timeout" time 36
    ∷ row "process.max" integer 40
    ∷ row "process.priority" integer 44
    ∷ row "daemonize" boolean 48
    ∷ row "rlimit_files" integer 52
    ∷ row "rlimit_core" rlimit_core 56
    ∷ row "events.mechanism" string 64
    ∷ []

abbrev pub pool_options : List Row
pool_options =
    row "user" string 8
    ∷ row "group" string 16
    ∷ row "listen" string 24
    ∷ row "listen_backlog" integer 56
    ∷ row "process_priority" integer 60
    ∷ row "process.dumpable" integer 64
    ∷ row "pm" pm 68
    ∷ row "pm.max_children" integer 72
    ∷ row "pm.start_servers" integer 76
    ∷ row "pm.min_spare_servers" integer 80
    ∷ row "pm.max_spare_servers" integer 84
    ∷ row "pm.process_idle_timeout" integer 88
    ∷ row "pm.max_requests" integer 92
    ∷ []

-- A store at an offset of `PMF_GLOBAL_CONFIG_S`. A store that does not fit a field of its type
-- would free or overwrite what is not its own: `none`. The four bytes at 60 are padding.
unfoldable pub write_global : ℕ → Value → GlobalConfig → Option GlobalConfig
write_global offset (str s) g =
    if offset == 0
    then some (record g { pid_file = s })
    else if offset == 8
    then some (record g { include_dir = s })
    else if offset == 16
    then some (record g { error_log = s })
    else if offset == 64
    then some (record g { event_mechanism = s })
    else none
write_global offset (int a) g =
    if offset == 24
    then some (record g { log_level = a })
    else if offset == 28
    then some (record g { emergency_restart_threshold = a })
    else if offset == 32
    then some (record g { emergency_restart_interval = a })
    else if offset == 36
    then some (record g { process_control_timeout = a })
    else if offset == 40
    then some (record g { process_max = a })
    else if offset == 44
    then some (record g { process_priority = a })
    else if offset == 48
    then some (record g { daemonize = a })
    else if offset == 52
    then some (record g { rlimit_files = a })
    else if offset == 56
    then some (record g { rlimit_core = a })
    else if offset == 60
    then some g
    else none

-- A store at an offset of `PMF_WORKER_POOL_CONFIG_S`.
unfoldable pub write_pool : ℕ → Value → PoolConfig → Option PoolConfig
write_pool offset (str s) c =
    if offset == 0
    then some (record c { name = s })
    else if offset == 8
    then some (record c { user = s })
    else if offset == 16
    then some (record c { group = s })
    else if offset == 24
    then some (record c { listen_address = s })
    else if offset == 32
    then some (record c { listen_owner = s })
    else if offset == 40
    then some (record c { listen_group = s })
    else if offset == 48
    then some (record c { listen_mode = s })
    else none
write_pool offset (int a) c =
    if offset == 56
    then some (record c { listen_backlog = a })
    else if offset == 60
    then some (record c { process_priority = a })
    else if offset == 64
    then some (record c { process_dumpable = a })
    else if offset == 68
    then some (record c { pm_type = a })
    else if offset == 72
    then some (record c { pm_max_children = a })
    else if offset == 76
    then some (record c { pm_start_servers = a })
    else if offset == 80
    then some (record c { pm_min_spare_servers = a })
    else if offset == 84
    then some (record c { pm_max_spare_servers = a })
    else if offset == 88
    then some (record c { pm_process_idle_timeout = a })
    else if offset == 92
    then some (record c { pm_max_requests = a })
    else none
