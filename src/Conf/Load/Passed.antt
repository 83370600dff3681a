-- ===== src/Conf/Load/Passed.antt =====
-- The pools as the loop of checks leaves them.
use pmf.Common.{
  Bool, Bool-cases, List, Option, Pairwise, Pairwise-All, [], ap, arith, inl, inr, leb_ℤ, negsuc,
  none, pos, refl, some, subst, sym, true, ℤ, ◌∙◌, ◌∷◌, ◌≡◌, ◌≤ℤ◌, ◌⊎◌,
}
use pmf.Text.Chars.{Text}
use pmf.Sockets.Address.{domain_from_address}
use pmf.Conf.Values.{pm_style_dynamic, pm_style_ondemand, pm_style_static}
use pmf.Conf.Records.{PoolConfig, WorkerPool, backlog_default, priority_unset}
use pmf.Conf.Parse.{same_name}
use pmf.Conf.Parse.Names.{Distinct, NotNamed}
use pmf.Conf.Check.{check_pool, has_domain, middle, passed, with_config}
use pmf.Conf.Check.Parts.{HasListen, IsCommon, IsDynamic, IsStyle, started}
use pmf.Conf.Check.Accept.{StyleIs, check_pool-accepts, prepare, prepared, style-eq}
use pmf.Conf.Check.Pools.{AllPassed}

-- What the check of a style leaves: spare servers in order and within the children, with the start
-- servers in their middle or as they were given between them; or an edge-triggered event mechanism,
-- an idle timeout, a long enough backlog, and no servers to start or to spare.
abbrev pub IsStyled : Bool → PoolConfig → Type 0
IsStyled edge_trigger c =
    (c.pm_type ≡ pm_style_static)
    ⊎ (((c.pm_type ≡ pm_style_dynamic)
          × (pos 1 ≤ℤ c.pm_min_spare_servers)
          × (c.pm_min_spare_servers ≤ℤ c.pm_max_spare_servers)
          × (c.pm_max_spare_servers ≤ℤ c.pm_max_children)
          × ((c.pm_start_servers ≡ middle c.pm_min_spare_servers c.pm_max_spare_servers)
              ⊎ ((c.pm_min_spare_servers ≤ℤ c.pm_start_servers)
                  × (c.pm_start_servers ≤ℤ c.pm_max_spare_servers))))
        ⊎ ((c.pm_type ≡ pm_style_ondemand)
            × (edge_trigger ≡ true)
            × (pos 1 ≤ℤ c.pm_process_idle_timeout)
            × (backlog_default ≤ℤ c.listen_backlog)
            × (c.pm_start_servers ≡ pos 0)
            × (c.pm_min_spare_servers ≡ pos 0)
            × (c.pm_max_spare_servers ≡ pos 0)))

started-IsStyled :
    (edge_trigger : Bool) (c : PoolConfig)
    → c.pm_type ≡ pm_style_dynamic
    → IsDynamic c
    → IsStyled edge_trigger (started c)
started-IsStyled edge_trigger c e d = elim (Bool-cases (leb_ℤ c.pm_start_servers (pos 0))) [
  | inl unset ↦ rw unset (inr (inl (e, d.min_positive, d.ordered, d.bounded, inl refl)))
  | inr given ↦
      let low : c.pm_min_spare_servers ≤ℤ c.pm_start_servers = ground (arith, d.start) in
      let high : c.pm_start_servers ≤ℤ c.pm_max_spare_servers = ground (arith, d.start) in
      rw given (inr (inl (e, d.min_positive, d.ordered, d.bounded, inr (low, high))))
]

prepared-IsStyled :
    (edge_trigger : Bool) (wp : WorkerPool)
    → StyleIs edge_trigger wp.config
    → IsStyled edge_trigger (prepared wp.config)
prepared-IsStyled edge_trigger wp (inl e) =
    subst (IsStyled edge_trigger) (sym (style-eq edge_trigger wp e).1) (inl e)
prepared-IsStyled edge_trigger wp (inr (inl (e, d))) =
    subst (IsStyled edge_trigger) (sym (style-eq edge_trigger wp e).1)
      (started-IsStyled edge_trigger wp.config e d)
prepared-IsStyled edge_trigger wp (inr (inr (e, edge, idle))) =
    subst (IsStyled edge_trigger) (sym (style-eq edge_trigger wp e).1)
      (inr (inr (e, edge, idle, ground arith, refl, refl, refl)))

-- A pool that can be started: a legal priority, style and number of children, an address whose
-- domain is known, and what its style asks for.
pub record IsReady (edge_trigger : Bool) (wp : WorkerPool) : Type 0 where
  pub common : IsCommon wp.config
  pub listen : HasListen wp.config
  pub domain : wp.listen_address_domain ≡ domain_from_address (listen.first ∷ listen.rest)
  pub styled : IsStyled edge_trigger wp.config

abbrev pub Left : Bool → WorkerPool → WorkerPool → Type 0
Left edge_trigger wp w = IsReady edge_trigger w × (w.config.name ≡ wp.config.name)

-- What the preparation of a configuration leaves as it is.
record Same (c d : PoolConfig) : Type 0 where
  name : d.name ≡ c.name
  listen_address : d.listen_address ≡ c.listen_address
  process_priority : d.process_priority ≡ c.process_priority
  pm_type : d.pm_type ≡ c.pm_type
  pm_max_children : d.pm_max_children ≡ c.pm_max_children

prepare-Same : (pm_type : ℤ) (c : PoolConfig) → Same c (prepare pm_type c)
prepare-Same pm_type c = record {
  name = ground arith;
  listen_address = ground arith;
  process_priority = ground arith;
  pm_type = ground arith;
  pm_max_children = ground arith;
}

IsCommon-Same : (c d : PoolConfig) → Same c d → IsCommon c → IsCommon d
IsCommon-Same c d same common = record {
  priority =
      subst (λ p. (p ≡ priority_unset) ⊎ ((negsuc 18 ≤ℤ p) × (p ≤ℤ pos 20)))
        (sym same.process_priority) common.priority;
  style = subst IsStyle (sym same.pm_type) common.style;
  children = subst (λ n. pos 1 ≤ℤ n) (sym same.pm_max_children) common.children;
}

ready-Left :
    (edge_trigger : Bool) (wp : WorkerPool) (l : HasListen wp.config) (d : PoolConfig)
    → IsCommon wp.config
    → Same wp.config d
    → IsStyled edge_trigger d
    → Left edge_trigger wp (with_config (has_domain wp (l.first ∷ l.rest)) d)
ready-Left edge_trigger wp l d common same styled = (
  record {
    common = IsCommon-Same wp.config d same common;
    listen = record {
      first = l.first;
      rest = l.rest;
      given = same.listen_address ∙ l.given;
      absolute = l.absolute;
    };
    domain = refl;
    styled = styled;
  },
  same.name,
)

check_pool-Left :
    (edge_trigger : Bool) (wp : WorkerPool) {w : WorkerPool}
    → check_pool edge_trigger wp ≡ passed w
    → Left edge_trigger wp w
check_pool-Left edge_trigger wp {w} h =
    let (a, same) = (check_pool-accepts edge_trigger wp w).0 h in
    subst (Left edge_trigger wp) (sym same) (
      ready-Left edge_trigger wp a.listen (prepared wp.config) a.common
        (unfold prepared in prepare-Same wp.config.pm_type wp.config)
        (prepared-IsStyled edge_trigger wp a.style))

same_name-cong :
    (section : Text) (p p' : WorkerPool)
    → p'.config.name ≡ p.config.name
    → same_name section p' ≡ same_name section p
same_name-cong section p p' e = rw e

NotNamed-cong :
    (n : Option Text) (p p' : WorkerPool)
    → p'.config.name ≡ p.config.name
    → NotNamed n p
    → NotNamed n p'
NotNamed-cong none p p' e h = tt
NotNamed-cong (some section) p p' e h = same_name-cong section p p' e ∙ h

abbrev pub SameName : WorkerPool → WorkerPool → Type 0
SameName p q = q.config.name ≡ p.config.name

-- Names that differ still do in pools of the same names.
pub SameName-Distinct :
    (pools rest : List WorkerPool) → Pairwise SameName pools rest → Distinct pools → Distinct rest
SameName-Distinct [] [] p d = tt
SameName-Distinct [] (w ∷ rest) p d = absurd p
SameName-Distinct (wp ∷ pools) [] p d = absurd p
SameName-Distinct (wp ∷ pools) (w ∷ rest) p d = (
  Pairwise-All SameName (λ q. NotNamed q.config.name wp) (λ q. NotNamed q.config.name w) pools rest
      (λ q r same h. subst (λ n. NotNamed n w) (sym same) (NotNamed-cong q.config.name wp w p.0 h))
      p.1 d.0,
  SameName-Distinct pools rest p.1 d.1,
)

pub AllPassed-Left :
    {edge_trigger : Bool} {pools rest : List WorkerPool}
    → AllPassed edge_trigger pools rest
    → Pairwise (Left edge_trigger) pools rest
AllPassed-Left AllPassed.nil = tt
AllPassed-Left {edge_trigger} (AllPassed.cons {wp} passes all) =
    (check_pool-Left edge_trigger wp passes, AllPassed-Left all)

-- The pool has the same configuration and the same kind of address.
abbrev pub SameSetting : WorkerPool → WorkerPool → Type 0
SameSetting p q = (q.config ≡ p.config) × (q.listen_address_domain ≡ p.listen_address_domain)

pub SameSetting-SameName : (p q : WorkerPool) → SameSetting p q → SameName p q
SameSetting-SameName p q h = ap (λ c. c.name) h.0

pub SameSetting-IsReady :
    (edge_trigger : Bool) (p q : WorkerPool)
    → SameSetting p q
    → IsReady edge_trigger p
    → IsReady edge_trigger q
SameSetting-IsReady edge_trigger p q h r = record {
  common = subst IsCommon (sym h.0) r.common;
  listen = record {
    first = r.listen.first;
    rest = r.listen.rest;
    given = ap (λ c. c.listen_address) h.0 ∙ r.listen.given;
    absolute = r.listen.absolute;
  };
  domain = h.1 ∙ r.domain;
  styled = subst (IsStyled edge_trigger) (sym h.0) r.styled;
}

pub SameSetting-trans : (p q r : WorkerPool) → SameSetting p q → SameSetting q r → SameSetting p r
SameSetting-trans p q r h k = (k.0 ∙ h.0, k.1 ∙ h.1)
