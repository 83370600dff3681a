-- ===== src/Conf/Check/Pools.antt =====
-- The loop of pmf_conf_process_all_pools.
use pmf.Common.{
  Bool, List, [], ap, false, inl, inr, ltb_ℤ, negsuc, pos, refl, subst, sym, true, ℤ, ◌↔◌, ◌∙◌, ◌∷◌,
  ◌≡◌, ◌≢◌, ◌⊎◌,
}
use pmf.Conf.Records.{WorkerPool}
use pmf.Conf.Check.{Checked, Reason, check_pool, passed, refused}

-- The loop over the pools: the code that it returns, and the pools as it leaves them.
unfoldable pub check_pools : Bool → List WorkerPool → ℤ × List WorkerPool
check_pools edge_trigger [] = (pos 0, [])
check_pools edge_trigger (wp ∷ pools) =
    let rest : ℤ × List WorkerPool = check_pools edge_trigger pools in
    elim (check_pool edge_trigger wp) [
      | refused reason left ↦ (negsuc 0, left ∷ pools)
      | passed left ↦ (rest.0, left ∷ rest.1)
    ]

-- `pmf_conf_process_all_pools`: without a pool it fails.
unfoldable pub process_all_pools : Bool → List WorkerPool → ℤ × List WorkerPool
process_all_pools edge_trigger [] = (negsuc 0, [])
process_all_pools edge_trigger (wp ∷ pools) = check_pools edge_trigger (wp ∷ pools)

-- Each pool passed, and was left as the second list has it.
pub data AllPassed (edge_trigger : Bool) : List WorkerPool → List WorkerPool → Type 0 where
  nil : AllPassed edge_trigger [] []
  cons :
      {wp left : WorkerPool} {pools rest : List WorkerPool}
      → check_pool edge_trigger wp ≡ passed left
      → AllPassed edge_trigger pools rest
      → AllPassed edge_trigger (wp ∷ pools) (left ∷ rest)

check_pools-head :
    (edge_trigger : Bool) (wp left : WorkerPool) (pools : List WorkerPool)
    → check_pool edge_trigger wp ≡ passed left
    → check_pools edge_trigger (wp ∷ pools)
      ≡ ((check_pools edge_trigger pools).0, left ∷ (check_pools edge_trigger pools).1)
unfolding check_pools
check_pools-head edge_trigger wp left pools e = rw (e, check_pools)

check_pools-passes :
    {edge_trigger : Bool} {pools rest : List WorkerPool}
    → AllPassed edge_trigger pools rest
    → check_pools edge_trigger pools ≡ (pos 0, rest)
check_pools-passes AllPassed.nil = (unfold check_pools in refl)
check_pools-passes {edge_trigger} (AllPassed.cons {wp} {left} {pools} e all) =
    check_pools-head edge_trigger wp left pools e
    ∙ ap (λ r. (r.0, left ∷ r.1)) (check_pools-passes all)

Checked-cases :
    (m : Checked)
    → ((left : WorkerPool) × (m ≡ passed left))
      ⊎ ((reason : Reason) × (left : WorkerPool) × (m ≡ refused reason left))
Checked-cases (passed left) = inl (left, refl)
Checked-cases (refused reason left) = inr (reason, left, refl)

check_pools-refused :
    (edge_trigger : Bool) (wp left : WorkerPool) (reason : Reason) (pools : List WorkerPool)
    → check_pool edge_trigger wp ≡ refused reason left
    → check_pools edge_trigger (wp ∷ pools) ≡ (negsuc 0, left ∷ pools)
unfolding check_pools
check_pools-refused edge_trigger wp left reason pools e = rw (e, check_pools)

check_pools-inv :
    (edge_trigger : Bool) (pools : List WorkerPool)
    → (check_pools edge_trigger pools).0 ≡ pos 0
    → AllPassed edge_trigger pools (check_pools edge_trigger pools).1
check_pools-inv edge_trigger [] h = (unfold check_pools in AllPassed.nil)
check_pools-inv edge_trigger (wp ∷ pools) h = elim (Checked-cases (check_pool edge_trigger wp)) [
  | inl (left, e) ↦
      let same = check_pools-head edge_trigger wp left pools e in
      subst (λ r. AllPassed edge_trigger (wp ∷ pools) r.1) (sym same)
        (AllPassed.cons e (check_pools-inv edge_trigger pools (ap (λ r. r.0) (sym same) ∙ h)))
  | inr (reason, left, e) ↦
      let failed : negsuc 0 ≡ pos 0 =
        ap (λ r. r.0) (sym (check_pools-refused edge_trigger wp left reason pools e)) ∙ h in
      absurd (cc)
]

process_all_pools-eq :
    (edge_trigger : Bool) (wp : WorkerPool) (pools : List WorkerPool)
    → process_all_pools edge_trigger (wp ∷ pools) ≡ check_pools edge_trigger (wp ∷ pools)
unfolding process_all_pools
process_all_pools-eq edge_trigger wp pools = refl

process_all_pools-nil : (edge_trigger : Bool) → process_all_pools edge_trigger [] ≡ (negsuc 0, [])
unfolding process_all_pools
process_all_pools-nil edge_trigger = refl

-- The loop returns 0 exactly if there is a pool and every pool passes its check, and then it leaves
-- each pool as its check does.
pub process_all_pools-passes :
    (edge_trigger : Bool) (pools rest : List WorkerPool)
    → (process_all_pools edge_trigger pools ≡ (pos 0, rest))
      ↔ ((pools ≢ []) × AllPassed edge_trigger pools rest)
process_all_pools-passes edge_trigger [] rest = (
  λ h.
      let failed : negsuc 0 ≡ pos 0 =
        ap (λ r. r.0) (sym (process_all_pools-nil edge_trigger) ∙ h) in
      absurd (cc),
  λ (some_pool, all). absurd (some_pool refl),
)
process_all_pools-passes edge_trigger (wp ∷ pools) rest = (
  λ h.
      let same = sym (process_all_pools-eq edge_trigger wp pools) ∙ h in
      (
        λ e. cc,
        subst (AllPassed edge_trigger (wp ∷ pools)) (ap (λ r. r.1) same)
            (check_pools-inv edge_trigger (wp ∷ pools) (ap (λ r. r.0) same)),
      ),
  λ (some_pool, all). process_all_pools-eq edge_trigger wp pools ∙ check_pools-passes all,
)

check_pools-code :
    (edge_trigger : Bool) (pools : List WorkerPool)
    → ltb_ℤ (check_pools edge_trigger pools).0 (pos 0) ≡ false
    → (check_pools edge_trigger pools).0 ≡ pos 0
check_pools-code edge_trigger [] h = (unfold check_pools in refl)
check_pools-code edge_trigger (wp ∷ pools) h = elim (Checked-cases (check_pool edge_trigger wp)) [
  | inl (left, e) ↦
      let same = ap (λ r. r.0) (check_pools-head edge_trigger wp left pools e) in
      same ∙ check_pools-code edge_trigger pools (ap (λ c. ltb_ℤ c (pos 0)) (sym same) ∙ h)
  | inr (reason, left, e) ↦
      let failed : true ≡ false =
        ap (λ r. ltb_ℤ r.0 (pos 0)) (sym (check_pools-refused edge_trigger wp left reason pools e))
        ∙ h in
      absurd (cc)
]

-- The code is negative unless it is 0.
pub process_all_pools-code :
    (edge_trigger : Bool) (pools : List WorkerPool)
    → ltb_ℤ (process_all_pools edge_trigger pools).0 (pos 0) ≡ false
    → (process_all_pools edge_trigger pools).0 ≡ pos 0
unfolding process_all_pools
process_all_pools-code edge_trigger [] h = absurd (cc)
process_all_pools-code edge_trigger (wp ∷ pools) h = check_pools-code edge_trigger (wp ∷ pools) h
