-- ===== src/Main/Running.antt =====
-- What holds once pmf_init has succeeded.
use pmf.Common.{
  All, List, Pairwise, Pairwise-All, Pairwise-map, Pairwise-right, [], ap, negsuc, pos, refl, subst,
  sym, ℤ, ◌∙◌, ◌∷◌, ◌≡◌, ◌≢◌, ◌≤ℤ◌,
}
use pmf.Outcome.{
  done, map_outcome-done, of_call, of_call-done, of_code, of_code-done, run_all, run_all-done,
  run_all-nil,
}
use pmf.Text.Chars.{Text}
use pmf.Conf.Records.{WorkerPool}
use pmf.Conf.Parse.Names.{Distinct}
use pmf.Conf.Load.{with_pools}
use pmf.Conf.Load.Passed.{SameSetting}
use pmf.Conf.Load.Configured.{IsConfigured}
use pmf.Conf.Load.Start.{conf_init_main-IsConfigured}
use pmf.Scoreboard.Setup.Layout.{HasScoreboard}
use pmf.Scoreboard.Setup.Boards.{
  Boarded, Boarded-HasScoreboard, Boarded-SameSetting, init_main-Boarded,
}
use pmf.Unix.Start.Roles.{unix_init_main-Role}
use pmf.Signals.Ready.{signals_init_main-ready}
use pmf.Scoreboard.Setup
use pmf.Events
use pmf.Stdio.{stdio_init_main}
use pmf.Conf.Pid.{write_pid}
use pmf.Signals.{signals_init_main}
use pmf.Children.{children_init_main-rest}
use pmf.Sockets.Setup.Listening.{Listens, sockets_init_main-Listens}
use pmf.Master.{Master}
use pmf.Main.{
  World, init_children, init_events, init_pid, init_scoreboards, init_signals, init_sockets,
  init_worker_pools, pmf_init, worker_pool_init_main,
}
use pmf.Main.Kept.{IsConfigured-same, IsRunning, Role-IsConfigured, SameGlobal, same_pools}

module _ {D : Type 0} (w : World D) where
  boards_read :
      (s : Master) (pools : List WorkerPool)
      → of_call (Setup.init_main w.sizes w.now w.shm w.board_left_over s.pools) ≡ done pools
      → Pairwise Boarded s.pools pools
  boards_read s pools h =
      let (code, run, good) =
        of_call-done (Setup.init_main w.sizes w.now w.shm w.board_left_over s.pools) h in
      init_main-Boarded w.sizes w.now w.shm w.board_left_over code s.pools pools run

  init_scoreboards-done :
      (s : Master) {t : Master}
      → init_scoreboards w s ≡ done t
      → SameGlobal s t × Pairwise Boarded s.pools t.pools
  init_scoreboards-done s h =
      let (pools, run, same) =
        map_outcome-done (with_pools s)
          (of_call (Setup.init_main w.sizes w.now w.shm w.board_left_over s.pools)) h in
      subst (λ x. SameGlobal s x × Pairwise Boarded s.pools x.pools) same
        ((refl, refl, refl, refl), boards_read s pools run)

  init_signals-done :
      (s : Master) {t : Master} → init_signals w s ≡ done t → SameGlobal s t × (t.pools ≡ s.pools)
  init_signals-done s {t} h =
      let (same, exact, blocking) =
        signals_init_main-ready w.signals s t (signals_init_main w.signals s).1
          (ap (λ m. (m, (signals_init_main w.signals s).1)) h) in
      subst (λ x. SameGlobal s x × (x.pools ≡ s.pools)) (sym same) ((refl, refl, refl, refl), refl)

  init_children-done :
      (s : Master) {t : Master} → init_children w s ≡ done t → SameGlobal s t × (t.pools ≡ s.pools)
  init_children-done s {t} h =
      subst (λ x. SameGlobal s x × (x.pools ≡ s.pools)) (children_init_main-rest w.malloc_ok s t h)
        ((refl, refl, refl, refl), refl)

  -- The program is configured, and its pools have scoreboards.
  abbrev HasBoards : Master → Type 0
  HasBoards s = IsConfigured s × All HasScoreboard s.pools

  boards-HasBoards :
      (s : Master) {t : Master} → IsConfigured s → init_scoreboards w s ≡ done t → HasBoards t
  boards-HasBoards s {t} c h =
      let (global, boards) = init_scoreboards-done s h in
      (
        IsConfigured-same s t global
            (Pairwise-map Boarded SameSetting s.pools t.pools Boarded-SameSetting boards) c,
        Pairwise-right Boarded HasScoreboard s.pools t.pools Boarded-HasScoreboard boards,
      )

  same_pools-HasBoards :
      (s t : Master) → SameGlobal s t × (t.pools ≡ s.pools) → HasBoards s → HasBoards t
  same_pools-HasBoards s t (global, same) (c, boards) = (
    IsConfigured-same s t global
        (subst (Pairwise SameSetting s.pools) (sym same) (same_pools s.pools)) c,
    subst (All HasScoreboard) (sym same) boards,
  )

  sockets-IsRunning :
      (s : Master) {t : Master} → HasBoards s → init_sockets w s ≡ done t → IsRunning t
  sockets-IsRunning s {t} (c, boards) h =
      let (listens, (config, globals, events)) = sockets_init_main-Listens w.sockets s t h in
      let L : WorkerPool → WorkerPool → Type 0 = Listens w.sockets in
      record {
        configured =
            IsConfigured-same s t
              (config, ap (λ g. g.error_log_fd) globals, ap (λ g. g.log_level) globals, events)
              (Pairwise-map L SameSetting s.pools t.pools (λ p q l. l.0) listens) c;
        scoreboards =
            Pairwise-All L HasScoreboard HasScoreboard s.pools t.pools (λ p q l. l.2) listens
              boards;
        sockets =
            Pairwise-right L (λ wp. wp.listening_socket_fd ≢ negsuc 0) s.pools t.pools
              (λ p q l. l.1) listens;
      }

  kept : (code : ℤ) (s : Master) {t : Master} → of_code (code, s) ≡ done t → s ≡ t
  kept code s h = (of_code-done code s h).1

  -- The last calls leave the state as it is.
  end-IsRunning :
      (s : Master) {t : Master}
      → IsRunning s
      → run_all (init_worker_pools w ∷ init_events w ∷ init_pid w ∷ []) s ≡ done t
      → IsRunning t
  end-IsRunning s {t} running h =
      let (a, pools, h1) = run_all-done _ _ s h in
      let (b, events, h2) = run_all-done _ _ a h1 in
      let (c, pid, h3) = run_all-done _ _ b h2 in
      let s_a = kept (worker_pool_init_main w) s pools in
      let a_b = kept (Events.init_main a.event_module w.event_init a.pools) a events in
      let b_c = kept (write_pid w.pid b).0 b pid in
      subst IsRunning (s_a ∙ a_b ∙ b_c ∙ run_all-nil c t h3) running

  boards_to_end :
      (s : Master) {t : Master}
      → IsConfigured s
      → run_all
          (init_scoreboards w
            ∷ init_signals w
            ∷ init_children w
            ∷ init_sockets w
            ∷ init_worker_pools w
            ∷ init_events w
            ∷ init_pid w
            ∷ [])
          s
        ≡ done t
      → IsRunning t
  boards_to_end s configured h =
      let (a, boards, h1) = run_all-done _ _ s h in
      let (b, signals, h2) = run_all-done _ _ a h1 in
      let (c, children, h3) = run_all-done _ _ b h2 in
      let (e, sockets, h4) = run_all-done _ _ c h3 in
      let has_a = boards-HasBoards s configured boards in
      let has_b = same_pools-HasBoards a b (init_signals-done a signals) has_a in
      let has_c = same_pools-HasBoards b c (init_children-done b children) has_b in
      end-IsRunning e (sockets-IsRunning c has_c sockets) h4

  -- Where pmf_init succeeds the program is ready to run: the configuration is legal and the log is
  -- open; the event mechanism is chosen; there is a pool, and the names of the pools differ. Each
  -- pool has a legal priority, style and number of children, an address of known domain, a valid
  -- scoreboard, and a descriptor other than -1 for its listening socket; a dynamic pool has its
  -- spare servers in order and within its children, and its start servers in their middle or between
  -- them; an on-demand pool has an edge-triggered mechanism, an idle timeout, a backlog that is long
  -- enough, and no servers to start or to spare. (No `stat` returns more than 0, and there are no
  -- two pools of one name before the call; at the start there are none.)
  pub pmf_init-IsRunning :
      (s s' : Master)
      → ((path : Text) → (w.conf.stat path).0 ≤ℤ pos 0)
      → Distinct s.pools
      → pmf_init w s ≡ done s'
      → IsRunning s'
  unfolding pmf_init
  pmf_init-IsRunning s s' k d h =
      let (a, stdio, h1) = run_all-done _ _ s h in
      let (b, conf, h2) = run_all-done _ _ a h1 in
      let (c, unix, h3) = run_all-done _ _ b h2 in
      let fresh : Distinct a.pools =
        subst (λ x. Distinct x.pools) (kept (stdio_init_main w.stdio).0 s stdio) d in
      let configured = conf_init_main-IsConfigured w.ini w.conf a b k fresh conf in
      boards_to_end c
        (Role-IsConfigured w.unix b c (unix_init_main-Role w.unix b c unix) configured) h3
