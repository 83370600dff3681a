-- ===== src/Conf/Dump/Reading.antt =====
-- The lines of pmf_conf_dump, read with the parsers of the options.
use Prim.Native.String.{String}
use pmf.Common.{
  Bool, IsInt, List, Option, [], ap, arith, eqb_ℤ, eqb_ℤ_ne, false, if◌then◌else◌, int_max, map,
  none, pos, refl, some, true, ℕ, ℤ, ◌++◌, ◌∙◌, ◌∷◌, ◌≡◌, ◌≢◌, ◌≤◌, ◌⊎◌,
}
use pmf.Text.Chars.{Text, text, to_lower}
use pmf.Text.Decimal.{show_int}
use pmf.Text.Search.{strip_prefix}
use pmf.Conf.Values.{
  Parsed, bool_to_str, err, is_number, ok, pm_style_dynamic, pm_style_ondemand, pm_style_static,
  pm_to_str, set_boolean, set_integer, set_log_level, set_pm, set_time,
}
use pmf.Conf.Values.Numbers.{set_integer-show_int}
use pmf.Conf.Values.Times.{Suffix, set_time-units}
use pmf.Conf.Values.Words.{set_boolean-names, set_pm-names}
use pmf.Conf.Records.{GlobalConfig, PoolConfig, WorkerPool, priority_unset}
use pmf.Log.Level.{IsLevel, LogState, get_level_name, set_log_level-get_level_name}
use pmf.Conf.Dump.{dump, dump_global, dump_pool, level_to_str, option_start, priority_to_str}

-- The value of an option in such lines: what follows the start of the first line of that option.
unfoldable pub value_of : Text → List Text → Option Text
value_of key [] = none
value_of key (l ∷ lines) =
    let later = value_of key lines in
    elim (strip_prefix (option_start key) l) [ some value ↦ some value | none ↦ later ]

-- A parser makes of an option's value in such lines what it says.
abbrev pub Reads : String → (Text → Parsed ℤ) → Parsed ℤ → List Text → Type 0
Reads key parser result lines =
    (value : Text) × (value_of (text key) lines ≡ some value) × (parser value ≡ result)

-- The numbers of a pool's configuration are values of an `int`.
pub record HasInts (c : PoolConfig) : Type 0 where
  pub listen_backlog : IsInt c.listen_backlog
  pub process_priority : IsInt c.process_priority
  pub pm_max_children : IsInt c.pm_max_children
  pub pm_start_servers : IsInt c.pm_start_servers
  pub pm_min_spare_servers : IsInt c.pm_min_spare_servers
  pub pm_max_spare_servers : IsInt c.pm_max_spare_servers
  pub pm_process_idle_timeout : IsInt c.pm_process_idle_timeout
  pub pm_max_requests : IsInt c.pm_max_requests

-- The line of a priority.
priority_read : (a : ℤ) → IsInt a → a ≢ priority_unset → set_integer (priority_to_str a) ≡ ok a
priority_read a int given = rw (eqb_ℤ_ne a priority_unset given) (set_integer-show_int a int)

not_a_number : (a : ℤ) → (message : String) × (set_integer (bool_to_str a) ≡ err message)
unfolding set_integer is_number
not_a_number a = word (eqb_ℤ a (pos 0))
  where
    word :
        (off : Bool)
        → (message : String) × (set_integer (if off then text "no" else text "yes") ≡ err message)
    word true = (_, refl)
    word false = (_, refl)

pm_lower : (a : ℤ) → map to_lower (pm_to_str a) ≡ pm_to_str a
pm_lower a = word (eqb_ℤ a pm_style_static) (eqb_ℤ a pm_style_dynamic)
  where
    word :
        (is_static is_dynamic : Bool)
        → let name : Text =
            if is_static
            then text "static"
            else if is_dynamic
            then text "dynamic"
            else text "ondemand" in
          map to_lower name ≡ name
    word true is_dynamic = refl
    word false true = refl
    word false false = refl

bool_lower : (a : ℤ) → map to_lower (bool_to_str a) ≡ bool_to_str a
bool_lower a = word (eqb_ℤ a (pos 0))
  where
    word :
        (off : Bool)
        → map to_lower (if off then text "no" else text "yes")
          ≡ (if off then text "no" else text "yes")
    word true = refl
    word false = refl

-- A number of seconds that fits in an `int`.
abbrev pub IsSpan : ℤ → Type 0
IsSpan a = (n : ℕ) × (a ≡ pos n) × (n ≤ int_max)

span_read : (a : ℤ) → IsSpan a → set_time (show_int a ++ text "s") ≡ ok a
unfolding show_int
span_read a (n, e, small) =
    rw (e, show_int)
      (set_time-units n Suffix.second (omega arith) ∙ ap (λ k. ok (pos k)) (omega arith))

-- Each number in the lines of a pool, and its style, is read by the parser of its option as it is
-- in the pool, where the numbers are values of an `int`, the priority is set and the style is one
-- of the three; process.dumpable, which is printed as a word and read as a number, is refused.
pub dump_pool-Reads :
    (c : PoolConfig)
    → HasInts c
    → c.process_priority ≢ priority_unset
    → (c.pm_type ≡ pm_style_static)
      ⊎ ((c.pm_type ≡ pm_style_dynamic) ⊎ (c.pm_type ≡ pm_style_ondemand))
    → Reads "listen.backlog" set_integer (ok c.listen_backlog) (dump_pool c)
      × Reads "process.priority" set_integer (ok c.process_priority) (dump_pool c)
      × Reads "pm" set_pm (ok c.pm_type) (dump_pool c)
      × Reads "pm.max_children" set_integer (ok c.pm_max_children) (dump_pool c)
      × Reads "pm.start_servers" set_integer (ok c.pm_start_servers) (dump_pool c)
      × Reads "pm.min_spare_servers" set_integer (ok c.pm_min_spare_servers) (dump_pool c)
      × Reads "pm.max_spare_servers" set_integer (ok c.pm_max_spare_servers) (dump_pool c)
      × Reads "pm.process_idle_timeout" set_integer (ok c.pm_process_idle_timeout) (dump_pool c)
      × Reads "pm.max_requests" set_integer (ok c.pm_max_requests) (dump_pool c)
      × ((message : String) × Reads "process.dumpable" set_integer (err message) (dump_pool c))
unfolding value_of strip_prefix dump_pool
dump_pool-Reads c ints given style =
    let n = set_integer-show_int in
    let (message, refused) = not_a_number c.process_dumpable in
    (
      (show_int c.listen_backlog, refl, n c.listen_backlog ints.listen_backlog),
      (
        priority_to_str c.process_priority,
        refl,
        priority_read c.process_priority ints.process_priority given,
      ),
      (
        pm_to_str c.pm_type,
        refl,
        (set_pm-names (pm_to_str c.pm_type) c.pm_type).1 (style, pm_lower c.pm_type),
      ),
      (show_int c.pm_max_children, refl, n c.pm_max_children ints.pm_max_children),
      (show_int c.pm_start_servers, refl, n c.pm_start_servers ints.pm_start_servers),
      (show_int c.pm_min_spare_servers, refl, n c.pm_min_spare_servers ints.pm_min_spare_servers),
      (show_int c.pm_max_spare_servers, refl, n c.pm_max_spare_servers ints.pm_max_spare_servers),
      (
        show_int c.pm_process_idle_timeout,
        refl,
        n c.pm_process_idle_timeout ints.pm_process_idle_timeout,
      ),
      (show_int c.pm_max_requests, refl, n c.pm_max_requests ints.pm_max_requests),
      (message, (bool_to_str c.process_dumpable, refl, refused)),
    )

-- The numbers and the switch of the global configuration, but for its priority and rlimit_core, are
-- read from the dump as they are, by the parsers of their options, where the numbers are values of
-- an `int`, its times are not negative, its level is one, and daemonize is 0 or 1.
pub dump-Reads :
    (c : GlobalConfig) (log : LogState) (pools : List WorkerPool)
    → IsLevel c.log_level
    → IsSpan c.emergency_restart_interval
    → IsSpan c.process_control_timeout
    → IsInt c.emergency_restart_threshold
    → IsInt c.process_max
    → IsInt c.rlimit_files
    → (c.daemonize ≡ pos 0) ⊎ (c.daemonize ≡ pos 1)
    → Reads "log_level" set_log_level (ok c.log_level) (dump c log pools)
      × Reads "emergency_restart_interval" set_time
          (ok c.emergency_restart_interval)
          (dump c log pools)
      × Reads "emergency_restart_threshold" set_integer
          (ok c.emergency_restart_threshold)
          (dump c log pools)
      × Reads "process_control_timeout" set_time (ok c.process_control_timeout) (dump c log pools)
      × Reads "process.max" set_integer (ok c.process_max) (dump c log pools)
      × Reads "daemonize" set_boolean (ok c.daemonize) (dump c log pools)
      × Reads "rlimit_files" set_integer (ok c.rlimit_files) (dump c log pools)
unfolding value_of strip_prefix dump dump_global
dump-Reads c log pools level interval timeout threshold process_max files switch =
    let n = set_integer-show_int in
    let (name, named, is_read) = set_log_level-get_level_name c.log_level log level in
    (
      (
        level_to_str (get_level_name c.log_level log),
        refl,
        ap (λ x. set_log_level (level_to_str x)) named ∙ is_read,
      ),
      (
        show_int c.emergency_restart_interval ++ text "s",
        refl,
        span_read c.emergency_restart_interval interval,
      ),
      (show_int c.emergency_restart_threshold, refl, n c.emergency_restart_threshold threshold),
      (
        show_int c.process_control_timeout ++ text "s",
        refl,
        span_read c.process_control_timeout timeout,
      ),
      (show_int c.process_max, refl, n c.process_max process_max),
      (
        bool_to_str c.daemonize,
        refl,
        (set_boolean-names (bool_to_str c.daemonize) c.daemonize).1
            (switch, bool_lower c.daemonize),
      ),
      (show_int c.rlimit_files, refl, n c.rlimit_files files),
    )
