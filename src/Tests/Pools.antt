-- ===== src/Tests/Pools.antt =====
-- The check of the pools' configuration on a dynamic and an on-demand pool.
use pmf.Common.{
  [], arith, false, inl, inr, negsuc, pos, refl, some, true, ℕ, ◌↔◌, ◌∷◌, ◌≡◌, ◌≢◌, ◌≤ℤ◌,
}
use pmf.Text.Chars.{Text, text}
use pmf.Text.Search.{all_digits, has_char}
use pmf.Conf.Values.{pm_style_dynamic, pm_style_ondemand}
use pmf.Sockets.Address.{domain_from_address, pmf_af_unix}
use pmf.Conf.Records.{WorkerPool, backlog_default, pool_config_initial, pool_initial}
use pmf.Conf.Check.{
  check_common, check_dynamic, check_listen, check_ondemand, check_pool, check_style, passed,
}
use pmf.Conf.Check.Accept.{IsAcceptable, check_pool-passes, prepared, ready}
use pmf.Conf.Check.Ready.{check_pool-dynamic, check_pool-ondemand}
use pmf.Conf.Check.Again.{check_pool_idem}
use pmf.Conf.Check.Pools.{AllPassed, check_pools, process_all_pools, process_all_pools-passes}

-- With no start servers: the check puts them between the spare servers.
abbrev web : WorkerPool
web = record pool_initial {
  config = record pool_config_initial {
    name = some (text "web");
    listen_address = some (text "/run/web");
    pm_type = pm_style_dynamic;
    pm_max_children = pos 9;
    pm_min_spare_servers = pos 2;
    pm_max_spare_servers = pos 6;
  };
}

abbrev lazy : WorkerPool
lazy = record pool_initial {
  config = record pool_config_initial {
    name = some (text "lazy");
    listen_address = some (text "/run/lazy");
    pm_type = pm_style_ondemand;
    pm_max_children = pos 4;
    listen_backlog = pos 5;
  };
}

unix-absolute : (s : Text) → domain_from_address (b'/' ∷ s) ≡ pmf_af_unix → ◌≡◌ {A = ℕ} b'/' b'/'
unix-absolute s h = refl

web-IsAcceptable : IsAcceptable false web.config
web-IsAcceptable = record {
  listen = record {
    first = b'/';
    rest = text "run/web";
    given = refl;
    absolute = unix-absolute (text "run/web");
  };
  common = record { priority = inl refl; style = inr (inl refl); children = omega arith };
  style = inr (
      inl (
        refl,
        record {
          min_positive = omega arith;
          ordered = omega arith;
          bounded = omega arith;
          start = inl (omega arith);
        },
      ));
}

lazy-IsAcceptable : IsAcceptable true lazy.config
lazy-IsAcceptable = record {
  listen = record {
    first = b'/';
    rest = text "run/lazy";
    given = refl;
    absolute = unix-absolute (text "run/lazy");
  };
  common = record { priority = inl refl; style = inr (inr refl); children = omega arith };
  style = inr (inr (refl, refl, omega arith));
}

abbrev web_ready : WorkerPool
web_ready = ready web (text "/run/web")

abbrev lazy_ready : WorkerPool
lazy_ready = ready lazy (text "/run/lazy")

web-passes : check_pool false web ≡ passed web_ready
unfolding web-IsAcceptable
web-passes = check_pool-passes false web web-IsAcceptable

lazy-passes : check_pool true lazy ≡ passed lazy_ready
unfolding lazy-IsAcceptable
lazy-passes = check_pool-passes true lazy lazy-IsAcceptable

check_pool-dynamic_example :
    (pos 1 ≤ℤ web_ready.config.pm_min_spare_servers)
    × (web_ready.config.pm_min_spare_servers ≤ℤ web_ready.config.pm_start_servers)
    × (web_ready.config.pm_start_servers ≤ℤ web_ready.config.pm_max_spare_servers)
    × (web_ready.config.pm_max_spare_servers ≤ℤ web_ready.config.pm_max_children)
check_pool-dynamic_example =
    check_pool-dynamic false web (omega arith) web-passes (unfold prepared in refl)

check_pool-ondemand_test :
    (true ≡ true)
    × (pos 1 ≤ℤ lazy_ready.config.pm_process_idle_timeout)
    × (backlog_default ≤ℤ lazy_ready.config.listen_backlog)
    × (lazy_ready.config.pm_start_servers ≡ pos 0)
    × (lazy_ready.config.pm_min_spare_servers ≡ pos 0)
    × (lazy_ready.config.pm_max_spare_servers ≡ pos 0)
check_pool-ondemand_test =
    check_pool-ondemand true lazy (omega arith) lazy-passes (unfold prepared in refl)

check_pool_idem_test : check_pool false web_ready ≡ passed web_ready
check_pool_idem_test = check_pool_idem false web (omega arith) web-passes

process_all_pools-passes_example :
    (process_all_pools false (web ∷ []) ≡ (pos 0, web_ready ∷ []))
    ↔ ((web ∷ [] ≢ []) × AllPassed false (web ∷ []) (web_ready ∷ []))
process_all_pools-passes_example = process_all_pools-passes false (web ∷ []) (web_ready ∷ [])

process_all_pools_test :
    ((process_all_pools false (web ∷ [])).0 ≡ pos 0)
    × ((process_all_pools false (web ∷ lazy ∷ [])).0 ≡ negsuc 0)
    × ((process_all_pools false []).0 ≡ negsuc 0)
unfolding process_all_pools check_pools check_pool check_listen domain_from_address has_char
    all_digits check_common check_style check_dynamic check_ondemand
process_all_pools_test = (refl, refl, refl)
