-- ===== src/Conf/Check/Accept.antt =====
-- Which pools pass the check, and what a pool that passed is like.
use pmf.Common.{
  Bool, ap, eqb_ℤ, if◌then◌else◌, inl, inr, pos, sym, true, ℤ, ◌↔◌, ◌∙◌, ◌∷◌, ◌≡◌, ◌≤ℤ◌, ◌⊎◌,
}
use pmf.Conf.Values.{pm_style_dynamic, pm_style_ondemand, pm_style_static}
use pmf.Text.Chars.{Text}
use pmf.Sockets.Address.{domain_from_address}
use pmf.Conf.Records.{PoolConfig, WorkerPool}
use pmf.Conf.Check.{
  check_common, check_listen, check_ondemand, check_pool, check_style, dispatch_style, has_domain,
  ondemand_config, passed, with_config,
}
use pmf.Conf.Check.Parts.{
  >>=-passed, HasListen, IsCommon, IsDynamic, check_common-inv, check_common-passes,
  check_dynamic-inv, check_dynamic-passes, check_listen-inv, check_listen-passes,
  check_ondemand-inv, check_ondemand-passes, passed-injective, started,
}

-- What the styles ask of a configuration that is there.
abbrev pub StyleIs : Bool → PoolConfig → Type 0
StyleIs edge_trigger c =
    (c.pm_type ≡ pm_style_static)
    ⊎ (((c.pm_type ≡ pm_style_dynamic) × IsDynamic c)
        ⊎ ((c.pm_type ≡ pm_style_ondemand)
            × (edge_trigger ≡ true)
            × (pos 1 ≤ℤ c.pm_process_idle_timeout)))

-- The rules for a pool's configuration.
pub record IsAcceptable (edge_trigger : Bool) (c : PoolConfig) : Type 0 where
  pub listen : HasListen c
  pub common : IsCommon c
  pub style : StyleIs edge_trigger c

-- What the check makes of the configuration of a pool that passes, by its style.
abbrev pub prepare : ℤ → PoolConfig → PoolConfig
prepare pm_type c =
    if eqb_ℤ pm_type pm_style_dynamic
    then started c
    else if eqb_ℤ pm_type pm_style_ondemand
    then ondemand_config c
    else c

unfoldable pub prepared : PoolConfig → PoolConfig
prepared c = prepare c.pm_type c

-- The pool after the check: its domain is set, and its configuration prepared.
abbrev pub ready : WorkerPool → Text → WorkerPool
ready wp address = record wp {
  config = prepared wp.config;
  listen_address_domain = domain_from_address address;
}

module _ (edge_trigger : Bool) (wp : WorkerPool) where
  pub style-eq :
      {t : ℤ}
      → wp.config.pm_type ≡ t
      → (check_style edge_trigger wp ≡ dispatch_style t edge_trigger wp)
        × (prepared wp.config ≡ prepare t wp.config)
  unfolding check_style prepared
  style-eq e = (ap (λ t. dispatch_style t edge_trigger wp) e, ap (λ t. prepare t wp.config) e)

  check_style-inv :
      {w : WorkerPool}
      → IsCommon wp.config
      → check_style edge_trigger wp ≡ passed w
      → StyleIs edge_trigger wp.config × (w ≡ with_config wp (prepared wp.config))
  check_style-inv {w} common h = elim common.style [
    | inl e ↦
        let (run, conf) = style-eq e in
        let same : passed wp ≡ passed w = sym run ∙ h in
        (inl e, sym (passed-injective same) ∙ ap (with_config wp) (sym conf))
    | inr (inl e) ↦
        let (run, conf) = style-eq e in
        let (d, same) = check_dynamic-inv wp (sym run ∙ h) in
        (inr (inl (e, d)), same ∙ ap (with_config wp) (sym conf))
    | inr (inr e) ↦
        let (run, conf) = style-eq e in
        let (edge, idle, same) = check_ondemand-inv edge_trigger wp (sym run ∙ h) in
        (inr (inr (e, edge, idle)), same ∙ ap (with_config wp) (sym conf))
  ]

  check_style-passes :
      StyleIs edge_trigger wp.config
      → check_style edge_trigger wp ≡ passed (with_config wp (prepared wp.config))
  check_style-passes (inl e) =
      let (run, conf) = style-eq e in run ∙ ap (λ c. passed (with_config wp c)) (sym conf)
  check_style-passes (inr (inl (e, d))) =
      let (run, conf) = style-eq e in
      run ∙ check_dynamic-passes wp d ∙ ap (λ c. passed (with_config wp c)) (sym conf)
  check_style-passes (inr (inr (e, edge, idle))) =
      let (run, conf) = style-eq e in
      run
      ∙ ap (λ b. check_ondemand b wp) edge
      ∙ check_ondemand-passes wp idle
      ∙ ap (λ c. passed (with_config wp c)) (sym conf)

pub check_pool-passes :
    (edge_trigger : Bool) (wp : WorkerPool) (a : IsAcceptable edge_trigger wp.config)
    → check_pool edge_trigger wp ≡ passed (ready wp (a.listen.first ∷ a.listen.rest))
unfolding check_pool
check_pool-passes edge_trigger wp a =
    let addressed : WorkerPool = has_domain wp (a.listen.first ∷ a.listen.rest) in
    rw (check_listen-passes wp a.listen, check_common-passes addressed a.common)
      (check_style-passes edge_trigger addressed a.style)

pub check_pool-inv :
    (edge_trigger : Bool) (wp : WorkerPool) {w : WorkerPool}
    → check_pool edge_trigger wp ≡ passed w
    → (a : IsAcceptable edge_trigger wp.config) × (w ≡ ready wp (a.listen.first ∷ a.listen.rest))
unfolding check_pool
check_pool-inv edge_trigger wp {w} h =
    let (addressed, listened, h₁) = >>=-passed (check_listen wp) _ h in
    let (valid, checked, h₂) = >>=-passed (check_common addressed) _ h₁ in
    let (l, is_addressed) = check_listen-inv wp listened in
    let domain_set : WorkerPool = has_domain wp (l.first ∷ l.rest) in
    let (common, is_valid) =
      check_common-inv domain_set (ap check_common (sym is_addressed) ∙ checked) in
    let styled : check_style edge_trigger domain_set ≡ passed w =
      ap (check_style edge_trigger) (sym is_valid) ∙ h₂ in
    let (style, same) = check_style-inv edge_trigger domain_set common styled in
    (record { listen = l; common = common; style = style }, same)

pub check_pool-accepts :
    (edge_trigger : Bool) (wp w : WorkerPool)
    → (check_pool edge_trigger wp ≡ passed w) ↔ (
        (a : IsAcceptable edge_trigger wp.config) × (w ≡ ready wp (a.listen.first ∷ a.listen.rest)))
unfolding check_pool
check_pool-accepts edge_trigger wp w = (
  check_pool-inv edge_trigger wp,
  λ (a, e). check_pool-passes edge_trigger wp a ∙ ap passed (sym e),
)
