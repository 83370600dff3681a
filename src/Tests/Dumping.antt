-- ===== src/Tests/Dumping.antt =====
-- The dump of a configuration with one pool.
use Prim.Native.String.{String}
use pmf.Common.{IsInt, List, [], arith, inl, inr, negsuc, pos, refl, some, ℕ, ◌∷◌, ◌≤◌}
use pmf.Text.Chars.{text}
use pmf.Conf.Values.{
  err, ok, pm_style_dynamic, set_boolean, set_integer, set_log_level, set_pm, set_time,
}
use pmf.Conf.Records.{
  GlobalConfig, PoolConfig, WorkerPool, global_config_initial, pool_config_initial, pool_initial,
}
use pmf.Log.Level.{log_initial}
use pmf.Conf.Dump.{dump, dump_pool}
use pmf.Conf.Dump.Reading.{HasInts, Reads, dump-Reads, dump_pool-Reads}

abbrev quiet : PoolConfig
quiet = record pool_config_initial {
  name = some (text "www");
  process_priority = negsuc 4;
  pm_type = pm_style_dynamic;
  pm_max_children = pos 12;
}

small : (a : ℕ) → a ≤ 1000 → IsInt (pos a)
small a h = record { above = omega arith; below = omega arith }

quiet-HasInts : HasInts quiet
quiet-HasInts = record {
  listen_backlog = small 511 (omega arith);
  process_priority = record { above = omega arith; below = omega arith };
  pm_max_children = small 12 (omega arith);
  pm_start_servers = small 0 (omega arith);
  pm_min_spare_servers = small 0 (omega arith);
  pm_max_spare_servers = small 0 (omega arith);
  pm_process_idle_timeout = small 10 (omega arith);
  pm_max_requests = small 0 (omega arith);
}

dump_pool-Reads_example :
    Reads "listen.backlog" set_integer (ok (pos 511)) (dump_pool quiet)
    × Reads "process.priority" set_integer (ok (negsuc 4)) (dump_pool quiet)
    × Reads "pm" set_pm (ok pm_style_dynamic) (dump_pool quiet)
    × Reads "pm.max_children" set_integer (ok (pos 12)) (dump_pool quiet)
    × Reads "pm.start_servers" set_integer (ok (pos 0)) (dump_pool quiet)
    × Reads "pm.min_spare_servers" set_integer (ok (pos 0)) (dump_pool quiet)
    × Reads "pm.max_spare_servers" set_integer (ok (pos 0)) (dump_pool quiet)
    × Reads "pm.process_idle_timeout" set_integer (ok (pos 10)) (dump_pool quiet)
    × Reads "pm.max_requests" set_integer (ok (pos 0)) (dump_pool quiet)
    × ((message : String) × Reads "process.dumpable" set_integer (err message) (dump_pool quiet))
dump_pool-Reads_example = dump_pool-Reads quiet quiet-HasInts (λ e. cc) (inr (inl refl))

abbrev limits : GlobalConfig
limits = record global_config_initial { emergency_restart_interval = pos 60; process_max = pos 128 }

abbrev one_pool : List WorkerPool
one_pool = record pool_initial { config = quiet } ∷ []

dump-Reads_example :
    Reads "log_level" set_log_level (ok (pos 5)) (dump limits log_initial one_pool)
    × Reads "emergency_restart_interval" set_time (ok (pos 60)) (dump limits log_initial one_pool)
    × Reads "emergency_restart_threshold" set_integer
        (ok (pos 0))
        (dump limits log_initial one_pool)
    × Reads "process_control_timeout" set_time (ok (pos 0)) (dump limits log_initial one_pool)
    × Reads "process.max" set_integer (ok (pos 128)) (dump limits log_initial one_pool)
    × Reads "daemonize" set_boolean (ok (pos 0)) (dump limits log_initial one_pool)
    × Reads "rlimit_files" set_integer (ok (pos 0)) (dump limits log_initial one_pool)
dump-Reads_example =
    dump-Reads limits log_initial one_pool (record { above = omega arith; below = omega arith })
      (60, refl, omega arith) (0, refl, omega arith) (small 0 (omega arith))
      (small 128 (omega arith)) (small 0 (omega arith)) (inl refl)
