-- ===== src/Conf/Load/Configured.antt =====
-- What pmf_conf_init_main establishes, and what its parts leave of it.
use pmf.Common.{
  All, Bool, List, Option, Pairwise, Pairwise-map, Pairwise-right, Pairwise-some, [], ap, arith,
  eqb_ℤ, false, none, not, pos, some, subst, sym, ◌≡◌, ◌≢◌, ◌≤ℤ◌,
}
use pmf.Outcome.{done, of_code-done}
use pmf.Text.Chars.{Text}
use pmf.Conf.Records.{WorkerPool}
use pmf.Events.{pre_init, support_edge_trigger}
use pmf.Conf.Parse.Names.{Distinct}
use pmf.Conf.Check.{priority_invalid}
use pmf.Conf.Check.Pools.{process_all_pools, process_all_pools-code, process_all_pools-passes}
use pmf.Conf.Load.{all_pools, choose_events}
use pmf.Master.{Master}
use pmf.Conf.Load.Passed.{AllPassed-Left, IsReady, Left, SameName, SameName-Distinct}

-- What pmf_event_support_edge_trigger says of the mechanism that is chosen.
abbrev pub edge_of : Master → Bool
edge_of s = not (eqb_ℤ (support_edge_trigger s.event_module) (pos 0))

-- The configuration of a program that can be started.
pub record IsConfigured (s : Master) : Type 0 where
  pub process_max : pos 0 ≤ℤ s.config.process_max
  pub priority : priority_invalid s.config.process_priority ≡ false
  pub error_log_fd : pos 0 ≤ℤ s.globals.error_log_fd
  pub log_level : s.globals.log_level ≡ s.config.log_level
  pub event_module : s.event_module ≢ none
  pub some_pool : s.pools ≢ []
  pub names : Distinct s.pools
  pub ready : All (IsReady (edge_of s)) s.pools

-- The part that is there before the pools are checked.
pub record IsLoaded (s : Master) : Type 0 where
  pub process_max : pos 0 ≤ℤ s.config.process_max
  pub priority : priority_invalid s.config.process_priority ≡ false
  pub error_log_fd : pos 0 ≤ℤ s.globals.error_log_fd
  pub log_level : s.globals.log_level ≡ s.config.log_level
  pub event_module : s.event_module ≢ none
  pub names : Distinct s.pools

pub pre_init-chosen : (mechanism : Option Text) → (pre_init mechanism).1 ≢ none
unfolding pre_init
pre_init-chosen none e = cc
pre_init-chosen (some mechanism) e = ground arith

pub all_pools-IsConfigured :
    (s : Master) {s' : Master} → IsLoaded s → all_pools s ≡ done s' → IsConfigured s'
all_pools-IsConfigured s {s'} l h =
    let edge : Bool = edge_of s in
    let (k, same) =
      of_code-done (process_all_pools edge s.pools).0
        (record s { pools = (process_all_pools edge s.pools).1 }) h in
    let zero_code = process_all_pools-code edge s.pools k in
    let (some_pool, all) =
      (process_all_pools-passes edge s.pools (process_all_pools edge s.pools).1).0
        (ap (λ c. (c, (process_all_pools edge s.pools).1)) zero_code) in
    let rest : List WorkerPool = (process_all_pools edge s.pools).1 in
    let left : Pairwise (Left edge) s.pools rest = AllPassed-Left all in
    subst IsConfigured same (record {
      process_max = l.process_max;
      priority = l.priority;
      error_log_fd = l.error_log_fd;
      log_level = l.log_level;
      event_module = l.event_module;
      some_pool = Pairwise-some (Left edge) s.pools rest left some_pool;
      names =
          SameName-Distinct s.pools rest
            (Pairwise-map (Left edge) SameName s.pools rest (λ p q h. h.1) left) l.names;
      ready = Pairwise-right (Left edge) (IsReady edge) s.pools rest (λ p q h. h.0) left;
    })

pub choose_events-done :
    (s : Master) {s' : Master}
    → choose_events s ≡ done s'
    → (s'.event_module ≢ none)
      × (s'.config ≡ s.config)
      × (s'.pools ≡ s.pools)
      × (s'.globals ≡ s.globals)
choose_events-done s {s'} h =
    let (code, chosen) = pre_init s.config.event_mechanism in
    let (k, same) = of_code-done code (record s { event_module = chosen }) h in
    (
      subst (λ t. t.event_module ≢ none) same (pre_init-chosen s.config.event_mechanism),
      sym (ap (λ t. t.config) same),
      sym (ap (λ t. t.pools) same),
      sym (ap (λ t. t.globals) same),
    )
