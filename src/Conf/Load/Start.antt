-- ===== src/Conf/Load/Start.antt =====
-- What holds of the configuration once pmf_conf_init_main has succeeded.
use pmf.Common.{
  List, Option, ap, arith, false, if◌then◌else◌, inl, inr, ltb_ℤ, none, pos, refl, some, subst, sym,
  ◌∙◌, ◌≡◌, ◌≤ℤ◌,
}
use pmf.Outcome.{
  >>=-done, Outcome, done, done-inj, failed, if-done, if-either, if_failing, map_outcome-done,
  of_code, of_code-done,
}
use pmf.Text.Chars.{Text}
use pmf.Conf.Records.{WorkerPool}
use pmf.Conf.Parse.{Ini}
use pmf.Conf.Parse.Names.{Distinct}
use pmf.Conf.Check.{priority_invalid}
use pmf.Conf.Load.{
  ConfAnswers, apply_level, check_global, choose_events, conf_file, conf_init_main, include_pools,
  is_dir, load_conf_file, open_log, parse_pool_config, proc_config, with_conf_file, with_error_log,
  with_names, with_pools,
}
use pmf.Conf.Load.Directory.{files_loop-reads}
use pmf.Master.{Master}
use pmf.Stdio.{open_error_log}
use pmf.Stdio.Files.{open_error_log-first}
use pmf.Conf.Load.Configured.{IsConfigured, IsLoaded, all_pools-IsConfigured, choose_events-done}

module _ (answers : ConfAnswers) where
  check_global-done :
      (s : Master) {s' : Master}
      → check_global answers s ≡ done s'
      → (pos 0 ≤ℤ s.config.process_max)
        × (priority_invalid s.config.process_priority ≡ false)
        × (with_error_log answers s ≡ s')
  unfolding check_global
  check_global-done s {s'} h =
      let (positive, rest) = if-done (ltb_ℤ s.config.process_max (pos 0)) s _ h in
      let (legal, last) = if-done (priority_invalid s.config.process_priority) s _ rest in
      (ground arith, legal, done-inj (with_error_log answers s) s' last)

  open_log-done :
      (s : Master) {s' : Master}
      → open_log answers s ≡ done s'
      → (pos 0 ≤ℤ s'.globals.error_log_fd)
        × (s'.config ≡ s.config)
        × (s'.pools ≡ s.pools)
        × (s'.globals.log_level ≡ s.globals.log_level)
  open_log-done s {s'} h = opened_log s.config.error_log h
    where
      opened_log :
          (path : Option Text)
          → elim path as (λ _. Outcome Master) [
            | none ↦ failed s
            | some p ↦
                of_code (
                  (open_error_log answers.stdio false s).0,
                  (open_error_log answers.stdio false s).1,
                )
          ]
            ≡ done s'
          → (pos 0 ≤ℤ s'.globals.error_log_fd)
            × (s'.config ≡ s.config)
            × (s'.pools ≡ s.pools)
            × (s'.globals.log_level ≡ s.globals.log_level)
      opened_log none e = cc
      opened_log (some p) e =
          let (k, same) =
            of_code-done (open_error_log answers.stdio false s).0
              (open_error_log answers.stdio false s).1 e in
          let (code, fd, plog, config, pools, level, plevel) =
            open_error_log-first answers.stdio s in
          let opened_fd : ltb_ℤ answers.stdio.fd (pos 0) ≡ false =
            if_failing _ (ap (λ c. ltb_ℤ c (pos 0)) (sym code) ∙ k) in
          let here : s'.globals.error_log_fd ≡ answers.stdio.fd =
            ap (λ t. t.globals.error_log_fd) (sym same)
            ∙ fd
            ∙ ap (λ b. if b then s.globals.error_log_fd else answers.stdio.fd) opened_fd in
          (
            ground arith,
            ap (λ t. t.config) (sym same) ∙ config,
            ap (λ t. t.pools) (sym same) ∙ pools,
            ap (λ t. t.globals.log_level) (sym same) ∙ level,
          )

  after_checks :
      (a c s' : Master)
      → Distinct a.pools
      → a.globals.log_level ≡ a.config.log_level
      → (pos 0 ≤ℤ a.config.process_max) × (priority_invalid a.config.process_priority ≡ false)
      → open_log answers (with_error_log answers a) ≡ done c
      → choose_events c ≡ done s'
      → IsLoaded s'
  after_checks a c s' apart applied (positive, legal) opening events =
      let (fd, config, pools, level) = open_log-done (with_error_log answers a) opening in
      let (chosen, config', pools', globals') = choose_events-done c events in
      let same : s'.config ≡ (with_error_log answers a).config = config' ∙ config in
      record {
        process_max = subst (λ g. pos 0 ≤ℤ g.process_max) (sym same) positive;
        priority = ap (λ g. priority_invalid g.process_priority) same ∙ legal;
        error_log_fd = subst (λ g. pos 0 ≤ℤ g.error_log_fd) (sym globals') fd;
        log_level =
            ap (λ g. g.log_level) globals' ∙ level ∙ applied ∙ ap (λ g. g.log_level) (sym same);
        event_module = chosen;
        names = subst Distinct (sym (pools' ∙ pools)) apart;
      }

module _ {D : Type 0} (ini : Ini D) (answers : ConfAnswers) where
  parse_pool_config-Distinct :
      (include_dir : Text) (m : Option (List Text)) (pools : List WorkerPool)
      {pools' : List WorkerPool}
      → ((path : Text) → (answers.stat path).0 ≤ℤ pos 0)
      → Distinct pools
      → with_names ini answers include_dir m pools ≡ done pools'
      → Distinct pools'
  parse_pool_config-Distinct include_dir none pools k d h = cc
  parse_pool_config-Distinct include_dir (some names) pools {pools'} k d h =
      (files_loop-reads ini answers include_dir names pools pools' k d h).0

  parse_pool_config-eq :
      (include_dir : Text) (pools : List WorkerPool) {pools' : List WorkerPool}
      → parse_pool_config ini answers include_dir pools ≡ done pools'
      → with_names ini answers include_dir (answers.opendir include_dir) pools ≡ done pools'
  unfolding parse_pool_config
  parse_pool_config-eq include_dir pools h = h

  include_pools-done :
      (include_dir : Option Text) (s : Master) {s' : Master}
      → ((path : Text) → (answers.stat path).0 ≤ℤ pos 0)
      → Distinct s.pools
      → include_pools ini answers include_dir s ≡ done s'
      → Distinct s'.pools × ((pools : List WorkerPool) × (record s { pools = pools } ≡ s'))
  include_pools-done none s {s'} k d h =
      let same = done-inj s s' h in (subst (λ t. Distinct t.pools) same d, (s.pools, same))
  include_pools-done (some include_dir) s {s'} k d h =
      elim (if-either (is_dir answers include_dir) _ _ h) [
        | inl read ↦
            let (pools, loaded, same) =
              map_outcome-done (with_pools s) (parse_pool_config ini answers include_dir s.pools)
                read in
            let apart =
              parse_pool_config-Distinct include_dir (answers.opendir include_dir) s.pools k d
                (parse_pool_config-eq include_dir s.pools loaded) in
            (subst (λ t. Distinct t.pools) same apart, (pools, same))
        | inr kept ↦
            let same = done-inj s s' kept in (subst (λ t. Distinct t.pools) same d, (s.pools, same))
      ]

  proc_config-IsLoaded :
      (s : Master) {s' : Master}
      → ((path : Text) → (answers.stat path).0 ≤ℤ pos 0)
      → Distinct s.pools
      → proc_config ini answers s ≡ done s'
      → IsLoaded s'
  unfolding proc_config
  proc_config-IsLoaded s {s'} k d h =
      let (c, to_c, events) = >>=-done _ _ h in
      let (b, to_b, opening) = >>=-done _ _ to_c in
      let (a, including, checking) = >>=-done _ _ to_b in
      let (apart, (pools, is_a)) =
        include_pools-done s.config.include_dir (apply_level s) k d including in
      let (positive, legal, is_b) = check_global-done answers a checking in
      after_checks answers a c s' apart
        (subst (λ t. t.globals.log_level ≡ t.config.log_level) is_a refl) (positive, legal)
        (subst (λ t. open_log answers t ≡ done c) (sym is_b) opening) events

  -- Where pmf_conf_init_main succeeds the program is configured: the log is open, an event
  -- mechanism is chosen, and there is at least one pool. The pools' names differ, whatever their
  -- case, and each pool has a legal priority, style and number of children and an address of known
  -- domain; a dynamic pool has its spare servers in order and within its children, and its start
  -- servers in their middle or between them; an on-demand pool has an edge-triggered mechanism, an
  -- idle timeout, a backlog that is long enough, and no servers to start or to spare. (No `stat`
  -- returns more than 0, and before the call the names of the pools differ, as those of no pools
  -- do.)
  pub conf_init_main-IsConfigured :
      (s s' : Master)
      → ((path : Text) → (answers.stat path).0 ≤ℤ pos 0)
      → Distinct s.pools
      → conf_init_main ini answers s ≡ done s'
      → IsConfigured s'
  unfolding conf_init_main load_conf_file
  conf_init_main-IsConfigured s s' k d h =
      let (b, to_b, checking) = >>=-done _ _ h in
      let (a, loading, proceeding) = >>=-done _ _ to_b in
      all_pools-IsConfigured b
        (proc_config-IsLoaded a k (loaded (ini.load conf_file) loading) proceeding) checking
    where
      loaded :
          (m : Option D) {a : Master} → with_conf_file ini answers m s ≡ done a → Distinct a.pools
      loaded none e = cc
      loaded (some dict) e =
          let (g, parsed, same) = map_outcome-done (λ g. record s { config = g }) _ e in
          subst (λ t. Distinct t.pools) same d
