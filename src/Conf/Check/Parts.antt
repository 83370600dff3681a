-- ===== src/Conf/Check/Parts.antt =====
-- What each part of the check asks of a pool, and that it passes exactly then.
use pmf.Common.{
  Bool, Bool-cases, Option, [], ap, arith, eqb_ℤ, false, if◌then◌else◌, inl, inr, leb_ℤ, negsuc,
  none, not, pos, refl, some, true, ℕ, ℤ, ◌&&◌, ◌∙◌, ◌∷◌, ◌≡◌, ◌≤ℤ◌, ◌⊎◌,
}
use pmf.Text.Chars.{Text}
use pmf.Conf.Values.{pm_style_dynamic, pm_style_ondemand, pm_style_static}
use pmf.Conf.Records.{PoolConfig, WorkerPool, priority_unset}
use pmf.Conf.Check.{
  Checked, check_common, check_dynamic, check_listen, check_ondemand, has_domain, listen_of, middle,
  ondemand_config, passed, priority_invalid, refused, with_config, ◌>>=◌,
}
use pmf.Sockets.Address.{domain_from_address, pmf_af_unix}

pub >>=-passed :
    (m : Checked) (f : WorkerPool → Checked) {wp : WorkerPool}
    → (m >>= f) ≡ passed wp
    → (w : WorkerPool) × (m ≡ passed w) × (f w ≡ passed wp)
>>=-passed (passed w) f h = (w, refl, h)
>>=-passed (refused r w) f h = cc

pub passed-injective : {v w : WorkerPool} → passed v ≡ passed w → v ≡ w
passed-injective h = cc

-- The address is there, and a path of a Unix socket is absolute.
pub record HasListen (c : PoolConfig) : Type 0 where
  pub first : ℕ
  pub rest : Text
  pub given : c.listen_address ≡ some (first ∷ rest)
  pub absolute : domain_from_address (first ∷ rest) ≡ pmf_af_unix → first ≡ b'/'

pub record IsCommon (c : PoolConfig) : Type 0 where
  pub priority :
      (c.process_priority ≡ priority_unset)
      ⊎ ((negsuc 18 ≤ℤ c.process_priority) × (c.process_priority ≤ℤ pos 20))
  pub style :
      (c.pm_type ≡ pm_style_static)
      ⊎ ((c.pm_type ≡ pm_style_dynamic) ⊎ (c.pm_type ≡ pm_style_ondemand))
  pub children : pos 1 ≤ℤ c.pm_max_children

-- The spare servers of a dynamic pool, before the number of start servers is filled in.
pub record IsDynamic (c : PoolConfig) : Type 0 where
  pub min_positive : pos 1 ≤ℤ c.pm_min_spare_servers
  pub ordered : c.pm_min_spare_servers ≤ℤ c.pm_max_spare_servers
  pub bounded : c.pm_max_spare_servers ≤ℤ c.pm_max_children
  pub start :
      (c.pm_start_servers ≤ℤ pos 0)
      ⊎ ((c.pm_min_spare_servers ≤ℤ c.pm_start_servers)
          × (c.pm_start_servers ≤ℤ c.pm_max_spare_servers))

listen_of-inv :
    (address : Option Text) (wp : WorkerPool) {w : WorkerPool}
    → listen_of address wp ≡ passed w
    → (c : ℕ) × (s : Text) × (address ≡ some (c ∷ s))
      × (w ≡ has_domain wp (c ∷ s))
      × (domain_from_address (c ∷ s) ≡ pmf_af_unix → c ≡ b'/')
listen_of-inv none wp h = cc
listen_of-inv (some []) wp h = cc
listen_of-inv (some (c ∷ s)) wp h = (c, s, refl, ground arith, λ u. ground arith)

pub check_listen-inv :
    (wp : WorkerPool) {w : WorkerPool}
    → check_listen wp ≡ passed w
    → (l : HasListen wp.config) × (w ≡ has_domain wp (l.first ∷ l.rest))
unfolding check_listen
check_listen-inv wp h =
    let (c, s, e, same, slash) = listen_of-inv wp.config.listen_address wp h in
    (record { first = c; rest = s; given = e; absolute = slash }, same)

listen_of-passes :
    (c : ℕ) (s : Text) (wp : WorkerPool)
    → (domain_from_address (c ∷ s) ≡ pmf_af_unix → c ≡ b'/')
    → listen_of (some (c ∷ s)) wp ≡ passed (has_domain wp (c ∷ s))
listen_of-passes c s wp h = ground arith

pub check_listen-passes :
    (wp : WorkerPool) (l : HasListen wp.config)
    → check_listen wp ≡ passed (has_domain wp (l.first ∷ l.rest))
unfolding check_listen
check_listen-passes wp l =
    ap (λ a. listen_of a wp) l.given ∙ listen_of-passes l.first l.rest wp l.absolute

priority_invalid-inv :
    (p : ℤ) → priority_invalid p ≡ false → (p ≡ priority_unset) ⊎ ((negsuc 18 ≤ℤ p) × (p ≤ℤ pos 20))
priority_invalid-inv p h = elim (Bool-cases (eqb_ℤ p priority_unset)) [
  | inl e ↦ inl (ground arith)
  | inr e ↦ inr (ground arith)
]

abbrev pub IsStyle : ℤ → Type 0
IsStyle a = (a ≡ pm_style_static) ⊎ ((a ≡ pm_style_dynamic) ⊎ (a ≡ pm_style_ondemand))

IsStyle-inv :
    (a : ℤ)
    → (not (eqb_ℤ a pm_style_static)
        && not (eqb_ℤ a pm_style_dynamic)
        && not (eqb_ℤ a pm_style_ondemand))
      ≡ false
    → IsStyle a
IsStyle-inv a h = elim (Bool-cases (eqb_ℤ a pm_style_static)) [
  | inl e ↦ inl (ground arith)
  | inr n ↦ elim (Bool-cases (eqb_ℤ a pm_style_dynamic)) [
    | inl e ↦ inr (inl (ground arith))
    | inr m ↦ inr (inr (ground arith))
  ]
]

pub check_common-inv :
    (wp : WorkerPool) {w : WorkerPool} → check_common wp ≡ passed w → IsCommon wp.config × (w ≡ wp)
unfolding check_common
check_common-inv wp h = (
  record {
    priority = priority_invalid-inv wp.config.process_priority (ground arith);
    style = IsStyle-inv wp.config.pm_type (ground arith);
    children = ground arith;
  },
  ground arith,
)

pub check_common-passes : (wp : WorkerPool) → IsCommon wp.config → check_common wp ≡ passed wp
unfolding check_common
check_common-passes wp v = ground arith

-- A number of start servers that is not set becomes the middle between the spare servers.
abbrev pub started : PoolConfig → PoolConfig
started c =
    if leb_ℤ c.pm_start_servers (pos 0)
    then record c { pm_start_servers = middle c.pm_min_spare_servers c.pm_max_spare_servers }
    else c

check_dynamic-start :
    (wp : WorkerPool) {w : WorkerPool}
    → check_dynamic wp ≡ passed w
    → (wp.config.pm_start_servers ≤ℤ pos 0)
      ⊎ ((wp.config.pm_min_spare_servers ≤ℤ wp.config.pm_start_servers)
          × (wp.config.pm_start_servers ≤ℤ wp.config.pm_max_spare_servers))
unfolding check_dynamic
check_dynamic-start wp h = elim (Bool-cases (leb_ℤ wp.config.pm_start_servers (pos 0))) [
  | inl e ↦ inl (ground arith)
  | inr e ↦ inr (ground arith, ground arith)
]

pub check_dynamic-inv :
    (wp : WorkerPool) {w : WorkerPool}
    → check_dynamic wp ≡ passed w
    → IsDynamic wp.config × (w ≡ with_config wp (started wp.config))
unfolding check_dynamic
check_dynamic-inv wp h = (
  record {
    min_positive = ground arith;
    ordered = ground arith;
    bounded = ground arith;
    start = check_dynamic-start wp h;
  },
  ground arith,
)

pub check_dynamic-passes :
    (wp : WorkerPool)
    → IsDynamic wp.config
    → check_dynamic wp ≡ passed (with_config wp (started wp.config))
unfolding check_dynamic
check_dynamic-passes wp d = ground arith

pub check_ondemand-inv :
    (edge_trigger : Bool) (wp : WorkerPool) {w : WorkerPool}
    → check_ondemand edge_trigger wp ≡ passed w
    → (edge_trigger ≡ true)
      × (pos 1 ≤ℤ wp.config.pm_process_idle_timeout)
      × (w ≡ with_config wp (ondemand_config wp.config))
unfolding check_ondemand
check_ondemand-inv edge_trigger wp h = (ground arith, ground arith, ground arith)

pub check_ondemand-passes :
    (wp : WorkerPool)
    → pos 1 ≤ℤ wp.config.pm_process_idle_timeout
    → check_ondemand true wp ≡ passed (with_config wp (ondemand_config wp.config))
unfolding check_ondemand
check_ondemand-passes wp h = ground arith
