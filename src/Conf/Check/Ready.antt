-- ===== src/Conf/Check/Ready.antt =====
-- What a pool that passed the check is like, and that the check would let it pass again unchanged.
use pmf.Common.{
  Bool, Bool-cases, ap, arith, div_trunc, eqb_ℤ, false, inl, inr, int_max, leb_ℤ, negsuc, pos, refl,
  subst, sym, true, wrap_int, wrap_int_lem, ℕ, ℤ, ◌+ℤ◌, ◌+◌, ◌-ℤ◌, ◌-◌, ◌/◌, ◌∙◌, ◌∷◌, ◌≡◌, ◌≤ℤ◌,
  ◌≤◌,
}
use pmf.Conf.Values.{pm_style_dynamic, pm_style_ondemand}
use pmf.Conf.Records.{PoolConfig, WorkerPool, backlog_default}
use pmf.Conf.Check.{check_pool, middle, ondemand_config, passed}
use pmf.Conf.Check.Parts.{IsCommon, IsDynamic, IsStyle, started}
use pmf.Conf.Check.Accept.{
  IsAcceptable, StyleIs, check_pool-inv, prepare, prepared, ready, style-eq,
}

pos-difference : (a b : ℕ) → a ≤ b → pos b -ℤ pos a ≡ pos (b - a)
unfolding ◌-ℤ◌
pos-difference a b h = ground arith

pos-half : (a d : ℕ) → pos a +ℤ div_trunc (pos d) 2 ≡ pos (a + d / 2)
unfolding ◌+ℤ◌ div_trunc
pos-half a d = ground arith

middle_lem : (a b : ℕ) → a ≤ b → b ≤ int_max → middle (pos a) (pos b) ≡ pos (a + (b - a) / 2)
middle_lem a b h small =
    ap (λ d. wrap_int (pos a +ℤ div_trunc d 2)) difference
    ∙ ap wrap_int (pos-half a (b - a))
    ∙ wrap_int_lem (pos (a + (b - a) / 2)) (omega arith)
  where
    difference : wrap_int (pos b -ℤ pos a) ≡ pos (b - a)
    difference = ap wrap_int (pos-difference a b h) ∙ wrap_int_lem (pos (b - a)) (omega arith)

middle-between :
    (low high : ℤ)
    → pos 1 ≤ℤ low
    → low ≤ℤ high
    → high ≤ℤ pos int_max
    → (low ≤ℤ middle low high) × (middle low high ≤ℤ high)
middle-between (pos a) (pos b) one h small =
    rw (middle_lem a b (omega arith) (omega arith)) (omega arith, omega arith)
middle-between (pos a) (negsuc b) one h small = absurd (omega arith)
middle-between (negsuc a) high one h small = absurd (omega arith)

-- The spare servers of a dynamic pool are in order, with the start servers between them; an
-- on-demand pool has an edge-triggered event mechanism, a timeout, a long enough backlog and none
-- of the others.
record IsReady (edge_trigger : Bool) (c : PoolConfig) : Type 0 where
  style : IsStyle c.pm_type
  children : pos 1 ≤ℤ c.pm_max_children
  dynamic :
      c.pm_type ≡ pm_style_dynamic
      → (pos 1 ≤ℤ c.pm_min_spare_servers)
        × (c.pm_min_spare_servers ≤ℤ c.pm_start_servers)
        × (c.pm_start_servers ≤ℤ c.pm_max_spare_servers)
        × (c.pm_max_spare_servers ≤ℤ c.pm_max_children)
  ondemand :
      c.pm_type ≡ pm_style_ondemand
      → (edge_trigger ≡ true)
        × (pos 1 ≤ℤ c.pm_process_idle_timeout)
        × (backlog_default ≤ℤ c.listen_backlog)
        × (c.pm_start_servers ≡ pos 0)
        × (c.pm_min_spare_servers ≡ pos 0)
        × (c.pm_max_spare_servers ≡ pos 0)

pub started-between :
    (c : PoolConfig)
    → IsDynamic c
    → c.pm_max_spare_servers ≤ℤ pos int_max
    → (c.pm_min_spare_servers ≤ℤ (started c).pm_start_servers)
      × ((started c).pm_start_servers ≤ℤ c.pm_max_spare_servers)
      × (started c ≡ record c { pm_start_servers = (started c).pm_start_servers })
started-between c d small = elim (Bool-cases (leb_ℤ c.pm_start_servers (pos 0))) [
  | inl e ↦
      let (low, high) =
        middle-between c.pm_min_spare_servers c.pm_max_spare_servers d.min_positive d.ordered
          small in
      rw e (low, high, refl)
  | inr e ↦ rw e (ground (arith, d.start), ground (arith, d.start), refl)
]

styles_differ : {t u v : ℤ} → t ≡ u → t ≡ v → eqb_ℤ u v ≡ false → ⊥
styles_differ {t} {u} {v} e f n = ground arith

dynamic-IsReady :
    (edge_trigger : Bool) (c : PoolConfig) (start : ℤ)
    → IsCommon c
    → IsDynamic c
    → c.pm_type ≡ pm_style_dynamic
    → c.pm_min_spare_servers ≤ℤ start
    → start ≤ℤ c.pm_max_spare_servers
    → IsReady edge_trigger (record c { pm_start_servers = start })
dynamic-IsReady edge_trigger c start common d e low high = record {
  style = common.style;
  children = common.children;
  dynamic = λ _. (d.min_positive, low, high, d.bounded);
  ondemand = λ o. absurd (styles_differ e o refl);
}

started-IsReady :
    (edge_trigger : Bool) (c : PoolConfig)
    → IsCommon c
    → IsDynamic c
    → c.pm_type ≡ pm_style_dynamic
    → c.pm_max_spare_servers ≤ℤ pos int_max
    → IsReady edge_trigger (started c)
started-IsReady edge_trigger c common d e small =
    let (low, high, same) = started-between c d small in
    subst (IsReady edge_trigger) (sym same)
      (dynamic-IsReady edge_trigger c (started c).pm_start_servers common d e low high)

ondemand-IsReady :
    (c : PoolConfig)
    → IsCommon c
    → c.pm_type ≡ pm_style_ondemand
    → pos 1 ≤ℤ c.pm_process_idle_timeout
    → IsReady true (ondemand_config c)
ondemand-IsReady c common e idle = record {
  style = inr (inr e);
  children = common.children;
  dynamic = λ n. absurd (styles_differ e n refl);
  ondemand = λ _. (refl, idle, ground arith, refl, refl, refl);
}

check_pool-IsReady :
    (edge_trigger : Bool) (wp : WorkerPool) {w : WorkerPool}
    → wp.config.pm_max_spare_servers ≤ℤ pos int_max
    → check_pool edge_trigger wp ≡ passed w
    → IsReady edge_trigger w.config
check_pool-IsReady edge_trigger wp {w} small h =
    subst (λ p. IsReady edge_trigger p.config) (sym same) (ready_config a.style)
  where
    a : IsAcceptable edge_trigger wp.config
    a = (check_pool-inv edge_trigger wp h).0

    same : w ≡ ready wp (a.listen.first ∷ a.listen.rest)
    same = (check_pool-inv edge_trigger wp h).1

    common : IsCommon wp.config
    common = a.common

    conf : {t : ℤ} → wp.config.pm_type ≡ t → prepared wp.config ≡ prepare t wp.config
    conf e = (style-eq edge_trigger wp e).1

    ready_config : StyleIs edge_trigger wp.config → IsReady edge_trigger (prepared wp.config)
    ready_config (inl e) = subst (IsReady edge_trigger) (sym (conf e)) (record {
      style = common.style;
      children = common.children;
      dynamic = λ d. absurd (styles_differ e d refl);
      ondemand = λ o. absurd (styles_differ e o refl);
    })
    ready_config (inr (inl (e, d))) =
        subst (IsReady edge_trigger) (sym (conf e))
          (started-IsReady edge_trigger wp.config common d e small)
    ready_config (inr (inr (e, edge, idle))) = subst (IsReady edge_trigger) (sym (conf e)) (
        subst (λ b. IsReady b (ondemand_config wp.config)) (sym edge)
          (ondemand-IsReady wp.config common e idle))

-- A dynamic pool that passes is left with its start servers between its spare servers, and these
-- between 1 and its children.
pub check_pool-dynamic :
    (edge_trigger : Bool) (wp : WorkerPool) {w : WorkerPool}
    → wp.config.pm_max_spare_servers ≤ℤ pos int_max
    → check_pool edge_trigger wp ≡ passed w
    → w.config.pm_type ≡ pm_style_dynamic
    → (pos 1 ≤ℤ w.config.pm_min_spare_servers)
      × (w.config.pm_min_spare_servers ≤ℤ w.config.pm_start_servers)
      × (w.config.pm_start_servers ≤ℤ w.config.pm_max_spare_servers)
      × (w.config.pm_max_spare_servers ≤ℤ w.config.pm_max_children)
check_pool-dynamic edge_trigger wp small h = (check_pool-IsReady edge_trigger wp small h).dynamic

-- An on-demand pool that passes is left with an edge-triggered event mechanism, an idle timeout of
-- at least 1, a backlog of at least the default, and no start or spare servers.
pub check_pool-ondemand :
    (edge_trigger : Bool) (wp : WorkerPool) {w : WorkerPool}
    → wp.config.pm_max_spare_servers ≤ℤ pos int_max
    → check_pool edge_trigger wp ≡ passed w
    → w.config.pm_type ≡ pm_style_ondemand
    → (edge_trigger ≡ true)
      × (pos 1 ≤ℤ w.config.pm_process_idle_timeout)
      × (backlog_default ≤ℤ w.config.listen_backlog)
      × (w.config.pm_start_servers ≡ pos 0)
      × (w.config.pm_min_spare_servers ≡ pos 0)
      × (w.config.pm_max_spare_servers ≡ pos 0)
check_pool-ondemand edge_trigger wp small h = (check_pool-IsReady edge_trigger wp small h).ondemand
