-- ===== src/Conf/Check/Again.antt =====
-- A second check of a pool that passed changes nothing.
use pmf.Common.{
  Bool, ap, arith, inl, inr, int_max, pos, refl, subst, sym, true, ℤ, ◌∙◌, ◌∷◌, ◌≡◌, ◌≤ℤ◌,
}
use pmf.Conf.Values.{pm_style_dynamic, pm_style_ondemand}
use pmf.Conf.Records.{PoolConfig, WorkerPool}
use pmf.Conf.Check.{check_pool, ondemand_config, passed}
use pmf.Conf.Check.Parts.{HasListen, IsCommon, IsDynamic, started}
use pmf.Conf.Check.Accept.{
  IsAcceptable, StyleIs, check_pool-inv, check_pool-passes, prepare, prepared, ready,
}
use pmf.Conf.Check.Ready.{started-between}

-- A configuration that passes with the same address and is left as it is.
record IsSettled (edge_trigger : Bool) (c d : PoolConfig) : Type 0 where
  common : IsCommon d
  style : StyleIs edge_trigger d
  address : d.listen_address ≡ c.listen_address
  fixed : prepared d ≡ d

prepared-eq : (c : PoolConfig) {t : ℤ} → c.pm_type ≡ t → prepared c ≡ prepare t c
unfolding prepared
prepared-eq c e = ap (λ t. prepare t c) e

IsSettled-dynamic :
    (edge_trigger : Bool) (c : PoolConfig) (start : ℤ)
    → IsCommon c
    → IsDynamic c
    → c.pm_type ≡ pm_style_dynamic
    → c.pm_min_spare_servers ≤ℤ start
    → start ≤ℤ c.pm_max_spare_servers
    → IsSettled edge_trigger c (record c { pm_start_servers = start })
IsSettled-dynamic edge_trigger c start common d e low high = record {
  common = record { priority = common.priority; style = common.style; children = common.children };
  style = inr (
      inl (
        e,
        record {
          min_positive = d.min_positive;
          ordered = d.ordered;
          bounded = d.bounded;
          start = inr (low, high);
        },
      ));
  address = refl;
  fixed = prepared-eq (record c { pm_start_servers = start }) e ∙ unchanged;
}
  where
    unchanged :
        started (record c { pm_start_servers = start }) ≡ record c { pm_start_servers = start }
    unchanged = ground (arith, d.min_positive)

IsSettled-ondemand :
    (c : PoolConfig)
    → IsCommon c
    → c.pm_type ≡ pm_style_ondemand
    → pos 1 ≤ℤ c.pm_process_idle_timeout
    → IsSettled true c (ondemand_config c)
IsSettled-ondemand c common e idle = record {
  common = record { priority = common.priority; style = common.style; children = common.children };
  style = inr (inr (e, refl, idle));
  address = refl;
  fixed = prepared-eq (ondemand_config c) e ∙ ground arith;
}

settled :
    (edge_trigger : Bool) (c : PoolConfig)
    → c.pm_max_spare_servers ≤ℤ pos int_max
    → IsCommon c
    → StyleIs edge_trigger c
    → IsSettled edge_trigger c (prepared c)
settled edge_trigger c small common (inl e) =
    subst (IsSettled edge_trigger c) (sym (prepared-eq c e))
      (record { common = common; style = inl e; address = refl; fixed = prepared-eq c e })
settled edge_trigger c small common (inr (inl (e, d))) =
    let (low, high, same) = started-between c d small in
    subst (IsSettled edge_trigger c) (sym (prepared-eq c e ∙ same))
      (IsSettled-dynamic edge_trigger c (started c).pm_start_servers common d e low high)
settled edge_trigger c small common (inr (inr (e, edge, idle))) =
    subst (IsSettled edge_trigger c) (sym (prepared-eq c e)) (
      subst (λ b. IsSettled b c (ondemand_config c)) (sym edge)
        (IsSettled-ondemand c common e idle))

-- Checking a pool that passed once more lets it pass as it is.
pub check_pool_idem :
    (edge_trigger : Bool) (wp : WorkerPool) {w : WorkerPool}
    → wp.config.pm_max_spare_servers ≤ℤ pos int_max
    → check_pool edge_trigger wp ≡ passed w
    → check_pool edge_trigger w ≡ passed w
check_pool_idem edge_trigger wp {w} small h =
    let (a, same) = check_pool-inv edge_trigger wp h in
    subst (λ p. check_pool edge_trigger p ≡ passed p) (sym same) (again a)
  where
    again :
        (a : IsAcceptable edge_trigger wp.config)
        → check_pool edge_trigger (ready wp (a.listen.first ∷ a.listen.rest))
          ≡ passed (ready wp (a.listen.first ∷ a.listen.rest))
    again a =
        let s = settled edge_trigger wp.config small a.common a.style in
        let l : HasListen (prepared wp.config) = record {
          first = a.listen.first;
          rest = a.listen.rest;
          given = s.address ∙ a.listen.given;
          absolute = a.listen.absolute;
        } in
        let next : WorkerPool = ready wp (a.listen.first ∷ a.listen.rest) in
        check_pool-passes edge_trigger next
          (record { listen = l; common = s.common; style = s.style })
        ∙ ap (λ c. passed (record next { config = c })) s.fixed
