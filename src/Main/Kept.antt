-- ===== src/Main/Kept.antt =====
-- What pmf_init establishes, and what its calls leave of it.
use pmf.Common.{
  All, List, Pairwise, Pairwise-All, Pairwise-map, Pairwise-some, [], ap, eqb_ℤ, negsuc, none, not,
  pos, refl, subst, sym, ◌∙◌, ◌∷◌, ◌≡◌, ◌≢◌, ◌≤ℤ◌,
}
use pmf.Conf.Records.{WorkerPool}
use pmf.Conf.Check.{priority_invalid}
use pmf.Conf.Load.Passed.{
  IsReady, SameName, SameName-Distinct, SameSetting, SameSetting-IsReady, SameSetting-SameName,
}
use pmf.Events.{support_edge_trigger}
use pmf.Conf.Load.Configured.{IsConfigured, edge_of}
use pmf.Scoreboard.Setup.Layout.{HasScoreboard}
use pmf.Unix.Start.{UnixAnswers, with_pipe}
use pmf.Unix.Start.Pools.{HasAccount, HasAccount-SameSetting}
use pmf.Unix.Start.Roles.{Role}
use pmf.Master.{Master}

-- A program that is ready to run: it is configured, and each pool has a valid scoreboard and a
-- descriptor other than -1 for its socket.
pub record IsRunning (s : Master) : Type 0 where
  pub configured : IsConfigured s
  pub scoreboards : All HasScoreboard s.pools
  pub sockets : All (λ wp. wp.listening_socket_fd ≢ negsuc 0) s.pools

-- What the configuration is read from is the same.
abbrev pub SameGlobal : Master → Master → Type 0
SameGlobal s t =
    (t.config ≡ s.config)
    × (t.globals.error_log_fd ≡ s.globals.error_log_fd)
    × (t.globals.log_level ≡ s.globals.log_level)
    × (t.event_module ≡ s.event_module)

pub IsConfigured-same :
    (s t : Master)
    → SameGlobal s t
    → Pairwise SameSetting s.pools t.pools
    → IsConfigured s
    → IsConfigured t
IsConfigured-same s t (config, fd, level, events) same c = record {
  process_max = subst (λ g. pos 0 ≤ℤ g.process_max) (sym config) c.process_max;
  priority = ap (λ g. priority_invalid g.process_priority) config ∙ c.priority;
  error_log_fd = subst (λ n. pos 0 ≤ℤ n) (sym fd) c.error_log_fd;
  log_level = level ∙ c.log_level ∙ ap (λ g. g.log_level) (sym config);
  event_module = subst (λ m. m ≢ none) (sym events) c.event_module;
  some_pool = Pairwise-some SameSetting s.pools t.pools same c.some_pool;
  names =
      SameName-Distinct s.pools t.pools
        (Pairwise-map SameSetting SameName s.pools t.pools SameSetting-SameName same) c.names;
  ready =
      subst (λ m. All (IsReady (not (eqb_ℤ (support_edge_trigger m) (pos 0)))) t.pools) (sym events)
        (Pairwise-All SameSetting (IsReady (edge_of s)) (IsReady (edge_of s)) s.pools t.pools
          (SameSetting-IsReady (edge_of s)) same c.ready);
}

pub Pairwise-refl :
    {A : Type 0} (R : A → A → Type 0) (xs : List A) → ((x : A) → R x x) → Pairwise R xs xs
Pairwise-refl R [] h = tt
Pairwise-refl R (x ∷ xs) h = (h x, Pairwise-refl R xs h)

pub same_pools : (pools : List WorkerPool) → Pairwise SameSetting pools pools
same_pools pools = Pairwise-refl SameSetting pools (λ wp. (refl, refl))

pub Role-IsConfigured :
    (answers : UnixAnswers) (s t : Master) → Role answers s t → IsConfigured s → IsConfigured t
Role-IsConfigured answers s t (Role.master becomes pid pools config others) c =
    IsConfigured-same s t (config, others.0, others.1, others.2)
      (Pairwise-map (HasAccount answers.accounts) SameSetting s.pools t.pools
        (HasAccount-SameSetting answers.accounts) pools)
      c
Role-IsConfigured answers s t (Role.caller daemon child alive found was_read answer same) c =
    subst IsConfigured same (
      IsConfigured-same s (with_pipe answers.pipe.1 s) (refl, refl, refl, refl) (same_pools s.pools)
        c)
