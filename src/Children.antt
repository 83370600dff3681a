-- ===== src/Children.antt =====
-- pmf_children_init_main of pmf_children.c.
use pmf.Common.{
  Bool, Bool-cases, IsInt, ap, arith, eqb_ℤ, false, if◌then◌else◌, inl, inr, negsuc, none, not, pos,
  refl, replicate, some, subst, sym, to_u64, true, u64_mod, ℕ, ℤ, ◌%◌, ◌&&◌, ◌*◌, ◌/◌, ◌<◌, ◌∙◌,
  ◌≡◌, ◌≢◌, ◌≤◌, ◌⊎◌,
}
use pmf.Outcome.{Outcome, done, done-inj, failed, if-either, if-found}
use pmf.Conf.Records.{GlobalConfig}
use pmf.Master.{Master}

-- `sizeof(time_t)`.
abbrev pub time_size : ℕ
time_size = 8

-- `sizeof(time_t) * n`, of 64 bits.
abbrev pub faults_size : ℤ → ℕ
faults_size n = time_size * to_u64 n % u64_mod

-- `last_faults` becomes what malloc returns.
abbrev pub alloc_faults : (ℕ → Bool) → ℕ → Master → Outcome Master
alloc_faults malloc_ok size s =
    if malloc_ok size
    then done (record s { last_faults = some (replicate (size / time_size) (pos 0)) })
    else failed (record s { last_faults = none })

abbrev pub restarts_limited : GlobalConfig → Bool
restarts_limited g =
    not (eqb_ℤ g.emergency_restart_threshold (pos 0))
    && not (eqb_ℤ g.emergency_restart_interval (pos 0))

-- Given whether malloc finds a number of bytes; what it finds is set to zero.
unfoldable pub children_init_main : (ℕ → Bool) → Master → Outcome Master
children_init_main malloc_ok s =
    if restarts_limited s.config
    then alloc_faults malloc_ok (faults_size s.config.emergency_restart_threshold) s
    else done s

alloc_faults-done :
    (malloc_ok : ℕ → Bool) (size : ℕ) (s s' : Master)
    → alloc_faults malloc_ok size s ≡ done s'
    → (malloc_ok size ≡ true) × (s'.last_faults ≡ some (replicate (size / time_size) (pos 0)))
alloc_faults-done malloc_ok size s s' h =
    let (found, same) =
      if-found (malloc_ok size) (record s { last_faults = none })
        (record s { last_faults = some (replicate (size / time_size) (pos 0)) }) h in
    (found, ap (λ t. t.last_faults) (sym same))

alloc_faults-size :
    (malloc_ok : ℕ → Bool) (threshold : ℤ)
    → ((size : ℕ) → 0x8000_0000_0000_0000 ≤ size → malloc_ok size ≡ false)
    → IsInt threshold
    → eqb_ℤ threshold (pos 0) ≡ false
    → malloc_ok (faults_size threshold) ≡ true
    → (n : ℕ) × (threshold ≡ pos n) × (0 < n) × (faults_size threshold / time_size ≡ n)
unfolding to_u64
alloc_faults-size malloc_ok (pos n) limit fits other found =
    (n, refl, ground arith, omega (arith, fits))
alloc_faults-size malloc_ok (negsuc n) limit fits other found =
    let refused = limit (faults_size (negsuc n)) (omega (arith, fits)) in absurd (cc)

pub children_init_main-rest :
    (malloc_ok : ℕ → Bool) (s s' : Master)
    → children_init_main malloc_ok s ≡ done s'
    → record s { last_faults = s'.last_faults } ≡ s'
unfolding children_init_main
children_init_main-rest malloc_ok s s' h = elim (if-either (restarts_limited s.config) _ _ h) [
  | inl limited ↦
      let (found, same) =
        if-found (malloc_ok (faults_size s.config.emergency_restart_threshold))
          (record s { last_faults = none })
          (record s {
            last_faults =
                some (
                  replicate (faults_size s.config.emergency_restart_threshold / time_size) (pos 0));
          })
          limited in
      subst (λ x. record s { last_faults = x.last_faults } ≡ x) same refl
  | inr free ↦ subst (λ x. record s { last_faults = x.last_faults } ≡ x) (done-inj s s' free) refl
]

limited-threshold :
    (g : GlobalConfig)
    → restarts_limited g ≡ true
    → eqb_ℤ g.emergency_restart_threshold (pos 0) ≡ false
limited-threshold g h = ground arith

limited-interval :
    (g : GlobalConfig) → restarts_limited g ≡ true → g.emergency_restart_interval ≢ pos 0
limited-interval g h e = ground arith

unlimited :
    (g : GlobalConfig)
    → restarts_limited g ≡ false
    → (g.emergency_restart_threshold ≡ pos 0) ⊎ (g.emergency_restart_interval ≡ pos 0)
unlimited g h = elim (Bool-cases (eqb_ℤ g.emergency_restart_threshold (pos 0))) [
  | inl e ↦ inl (ground arith)
  | inr e ↦ inr (ground arith)
]

children_limited :
    (malloc_ok : ℕ → Bool) (s s' : Master)
    → restarts_limited s.config ≡ true
    → children_init_main malloc_ok s ≡ done s'
    → alloc_faults malloc_ok (faults_size s.config.emergency_restart_threshold) s ≡ done s'
unfolding children_init_main
children_limited malloc_ok s s' e h = ground arith

children_unlimited :
    (malloc_ok : ℕ → Bool) (s s' : Master)
    → restarts_limited s.config ≡ false
    → children_init_main malloc_ok s ≡ done s'
    → done s ≡ done s'
unfolding children_init_main
children_unlimited malloc_ok s s' e h = ground arith

-- Where malloc finds no block of half the address space or more, the set-up succeeds only in two
-- ways: the threshold or the interval is 0, and nothing changes; or neither is, the threshold is
-- above 0, and all that changes is that there is one fault, at time 0, for each restart that it
-- allows. So with an interval other than 0 a threshold below 0 does not succeed.
pub children_init_main-faults :
    (malloc_ok : ℕ → Bool) (s s' : Master)
    → ((size : ℕ) → 0x8000_0000_0000_0000 ≤ size → malloc_ok size ≡ false)
    → IsInt s.config.emergency_restart_threshold
    → children_init_main malloc_ok s ≡ done s'
    → (((s.config.emergency_restart_threshold ≡ pos 0)
          ⊎ (s.config.emergency_restart_interval ≡ pos 0))
        × (s' ≡ s))
      ⊎ ((n : ℕ) × (s.config.emergency_restart_threshold ≡ pos n)
          × (0 < n)
          × (s.config.emergency_restart_interval ≢ pos 0)
          × (record s { last_faults = some (replicate n (pos 0)) } ≡ s'))
children_init_main-faults malloc_ok s s' limit fits h =
    elim (Bool-cases (restarts_limited s.config)) [
      | inl limited ↦
          let (found, faults) =
            alloc_faults-done malloc_ok (faults_size s.config.emergency_restart_threshold) s s'
              (children_limited malloc_ok s s' limited h) in
          let (n, is_n, positive, size) =
            alloc_faults-size malloc_ok s.config.emergency_restart_threshold limit fits
              (limited-threshold s.config limited) found in
          inr (
            n,
            is_n,
            positive,
            limited-interval s.config limited,
            ap (λ f. record s { last_faults = f })
                  (sym (faults ∙ ap (λ k. some (replicate k (pos 0))) size))
                ∙ children_init_main-rest malloc_ok s s' h,
          )
      | inr free ↦
          inl (
            unlimited s.config free,
            sym (done-inj s s' (children_unlimited malloc_ok s s' free h)),
          )
    ]
