-- ===== src/Conf/Check.antt =====
-- pmf_conf_process_all_pools of pmf_conf.c: what a pool's configuration must satisfy, and what is
-- filled in.
pub mod Parts
pub mod Accept
pub mod Ready
pub mod Again
pub mod Pools
use pmf.Common.{
  Bool, Option, [], div_trunc, eqb_ℤ, false, if◌then◌else◌, leb_ℤ, ltb_ℤ, negsuc, none, not, pos,
  some, true, wrap_int, ℤ, ◌&&◌, ◌+ℤ◌, ◌-ℤ◌, ◌==◌, ◌||◌, ◌∷◌,
}
use pmf.Text.Chars.{Text}
use pmf.Conf.Values.{pm_style_dynamic, pm_style_ondemand, pm_style_static}
use pmf.Conf.Records.{PoolConfig, WorkerPool, backlog_default, priority_unset}
use pmf.Sockets.Address.{domain_from_address, pmf_af_unix}

-- Why a pool is refused: a constructor for each message that goes with `return -1`.
pub data Reason : Type 0 where
  unix_path_relative : Reason
  no_listen_address : Reason
  priority_out_of_range : Reason
  pm_missing : Reason
  max_children_not_positive : Reason
  min_spare_not_positive : Reason
  max_spare_not_positive : Reason
  spare_above_max_children : Reason
  max_spare_below_min_spare : Reason
  start_servers_out_of_range : Reason
  ondemand_without_edge_trigger : Reason
  idle_timeout_not_positive : Reason

-- The pool as the round of the loop leaves it, also when it returns -1.
pub data Checked : Type 0 where
  passed : WorkerPool → Checked
  refused : Reason → WorkerPool → Checked

infixl 5 ◌>>=◌
abbrev pub ◌>>=◌ : Checked → (WorkerPool → Checked) → Checked
passed wp >>= f = f wp
refused reason wp >>= f = refused reason wp

-- `return -1` with a message, under a condition.
abbrev pub refuse_if : Bool → Reason → WorkerPool → Checked
refuse_if true reason wp = refused reason wp
refuse_if false reason wp = passed wp

abbrev pub has_domain : WorkerPool → Text → WorkerPool
has_domain wp address = record wp { listen_address_domain = domain_from_address address }

-- An address that is NULL or empty is none.
abbrev pub listen_of : Option Text → WorkerPool → Checked
listen_of none wp = refused no_listen_address wp
listen_of (some []) wp = refused no_listen_address wp
listen_of (some (c ∷ s)) wp =
    let wp' : WorkerPool = has_domain wp (c ∷ s) in
    refuse_if (wp'.listen_address_domain == pmf_af_unix && not (c == b'/')) unix_path_relative wp'

unfoldable pub check_listen : WorkerPool → Checked
check_listen wp = listen_of wp.config.listen_address wp

abbrev pub priority_invalid : ℤ → Bool
priority_invalid p = not (eqb_ℤ p priority_unset) && (ltb_ℤ p (negsuc 18) || ltb_ℤ (pos 20) p)

unfoldable pub check_common : WorkerPool → Checked
check_common wp =
    let c : PoolConfig = wp.config in
    if priority_invalid c.process_priority
    then refused priority_out_of_range wp
    else if not (eqb_ℤ c.pm_type pm_style_static)
        && not (eqb_ℤ c.pm_type pm_style_dynamic)
        && not (eqb_ℤ c.pm_type pm_style_ondemand)
    then refused pm_missing wp
    else if ltb_ℤ c.pm_max_children (pos 1)
    then refused max_children_not_positive wp
    else passed wp

-- `min + ((max - min) / 2)` in `int`.
abbrev pub middle : ℤ → ℤ → ℤ
middle low high = wrap_int (low +ℤ div_trunc (wrap_int (high -ℤ low)) 2)

abbrev pub with_config : WorkerPool → PoolConfig → WorkerPool
with_config wp c = record wp { config = c }

unfoldable pub check_dynamic : WorkerPool → Checked
check_dynamic wp =
    let c : PoolConfig = wp.config in
    if leb_ℤ c.pm_min_spare_servers (pos 0)
    then refused min_spare_not_positive wp
    else if leb_ℤ c.pm_max_spare_servers (pos 0)
    then refused max_spare_not_positive wp
    else if ltb_ℤ c.pm_max_children c.pm_min_spare_servers
        || ltb_ℤ c.pm_max_children c.pm_max_spare_servers
    then refused spare_above_max_children wp
    else if ltb_ℤ c.pm_max_spare_servers c.pm_min_spare_servers
    then refused max_spare_below_min_spare wp
    else if leb_ℤ c.pm_start_servers (pos 0)
    then passed (
        with_config wp
          (record c { pm_start_servers = middle c.pm_min_spare_servers c.pm_max_spare_servers }))
    else if ltb_ℤ c.pm_start_servers c.pm_min_spare_servers
        || ltb_ℤ c.pm_max_spare_servers c.pm_start_servers
    then refused start_servers_out_of_range wp
    else passed wp

-- What is put into the configuration of an on-demand pool.
abbrev pub ondemand_config : PoolConfig → PoolConfig
ondemand_config c = record c {
  listen_backlog =
      if ltb_ℤ c.listen_backlog backlog_default then backlog_default else c.listen_backlog;
  pm_start_servers = pos 0;
  pm_min_spare_servers = pos 0;
  pm_max_spare_servers = pos 0;
}

-- `edge_trigger` is what pmf_event_support_edge_trigger returns.
unfoldable pub check_ondemand : Bool → WorkerPool → Checked
check_ondemand edge_trigger wp =
    if not edge_trigger
    then refused ondemand_without_edge_trigger wp
    else if ltb_ℤ wp.config.pm_process_idle_timeout (pos 1)
    then refused idle_timeout_not_positive wp
    else passed (with_config wp (ondemand_config wp.config))

abbrev pub dispatch_style : ℤ → Bool → WorkerPool → Checked
dispatch_style pm_type edge_trigger wp =
    if eqb_ℤ pm_type pm_style_dynamic
    then check_dynamic wp
    else if eqb_ℤ pm_type pm_style_ondemand
    then check_ondemand edge_trigger wp
    else passed wp

unfoldable pub check_style : Bool → WorkerPool → Checked
check_style edge_trigger wp = dispatch_style wp.config.pm_type edge_trigger wp

-- One round of the loop.
unfoldable pub check_pool : Bool → WorkerPool → Checked
check_pool edge_trigger wp = do
  addressed ← check_listen wp
  valid ← check_common addressed
  check_style edge_trigger valid
