-- ===== src/Conf/Parse/Names.antt =====
-- The names of the pools stay apart.
use pmf.Common.{
  All, Bool, List, Option, [], arith, false, length, length-append, none, not, pos_part, refl, some,
  subst, suc, sym, true, zero, ℕ, ℤ, ◌++◌, ◌+◌, ◌==◌, ◌∷◌, ◌≡◌,
}
use pmf.Outcome.{>>=-done, Outcome, done, failed, fault}
use pmf.Text.Chars.{Text}
use pmf.Conf.Records.{PoolConfig, WorkerPool}
use pmf.Conf.Options.{Value, int, pool_options, str, write_pool}
use pmf.Conf.Parse.{
  Ini, name_taken, named, new_pool, options_loop, parse_pool_ini, same_name, section_round,
  sections_loop, with_code, with_pool,
}
use pmf.Conf.Parse.Keeps.{Keeps, options_loop-Keeps}
use pmf.Conf.Parse.Typed.{all_rows}

-- The pool `p` has no name like this one, if it is one.
abbrev pub NotNamed : Option Text → WorkerPool → Type 0
NotNamed none p = Unit
NotNamed (some n) p = same_name n p ≡ false

-- No pool has the name of a later one, in any case.
abbrev pub Distinct : List WorkerPool → Type 0
Distinct [] = Unit
Distinct (p ∷ pools) = All (λ q. NotNamed q.config.name p) pools × Distinct pools

pub All-snoc :
    {A : Type 0} (P : A → Type 0) (xs : List A) (x : A) → All P xs → P x → All P (xs ++ x ∷ [])
All-snoc P [] x h k = (k, tt)
All-snoc P (y ∷ xs) x h k = (h.0, All-snoc P xs x h.1 k)

Distinct-snoc :
    (pools : List WorkerPool) (q : WorkerPool)
    → Distinct pools
    → All (NotNamed q.config.name) pools
    → Distinct (pools ++ q ∷ [])
Distinct-snoc [] q d h = (tt, tt)
Distinct-snoc (p ∷ pools) q d h =
    (All-snoc (λ r. NotNamed r.config.name p) pools q d.0 h.0, Distinct-snoc pools q d.1 h.1)

name_taken-free :
    (section : Text) (pools : List WorkerPool)
    → name_taken section pools ≡ false
    → All (NotNamed (some section)) pools
unfolding name_taken
name_taken-free section [] h = tt
name_taken-free section (p ∷ pools) h = (ground arith, name_taken-free section pools (ground arith))

write_pool-name :
    (name : Option Text) (o : ℕ) (v : Value) (c c' : PoolConfig)
    → not (o == 0) ≡ true
    → write_pool o v c ≡ some c'
    → c.name ≡ name
    → c'.name ≡ name
unfolding write_pool
write_pool-name name o (str s) c c' h e k = ground arith
write_pool-name name o (int a) c c' h e k = ground arith

module _ {D : Type 0} (ini : Ini D) (strdup_ok : Bool) (dict : D) where
  pub with_pool-inv :
      (pools : List WorkerPool) (m : Outcome PoolConfig) {pools' : List WorkerPool}
      → with_pool pools m ≡ done pools'
      → (c : PoolConfig) × (m ≡ done c) × (pools ++ new_pool c ∷ [] ≡ pools')
  with_pool-inv pools (done c) h = (c, refl, cc)
  with_pool-inv pools (failed c) h = cc
  with_pool-inv pools fault h = cc

  new_name :
      (section : Text) {c : PoolConfig}
      → options_loop ini strdup_ok dict write_pool section pool_options pool_options (named section)
        ≡ done c
      → c.name ≡ some section
  unfolding all_rows
  new_name section e =
      let P : PoolConfig → Type 0 = λ c. c.name ≡ some section in
      subst (Keeps P) e (
        options_loop-Keeps P (λ o. not (o == 0)) (write_pool-name (some section)) ini strdup_ok dict
          section pool_options pool_options (named section) refl refl)

  pub section_round-inv :
      (malloc_ok : Bool) (section : Text) (pools : List WorkerPool) {pools' : List WorkerPool}
      → section_round ini strdup_ok dict malloc_ok (some section) pools ≡ done pools'
      → (name_taken section pools ≡ false)
        × (with_pool pools (
              options_loop ini strdup_ok dict write_pool section pool_options pool_options
                (named section))
            ≡ done pools')
  unfolding section_round
  section_round-inv malloc_ok section pools h = (ground arith, ground arith)

  section_round-Distinct :
      (malloc_ok : Bool) (section : Option Text) (pools : List WorkerPool)
      {pools' : List WorkerPool}
      → Distinct pools
      → section_round ini strdup_ok dict malloc_ok section pools ≡ done pools'
      → Distinct pools' × (length pools' ≡ length pools + 1)
  section_round-Distinct malloc_ok none pools d h = absurd (null_name h)
    where
      null_name :
          {pools' : List WorkerPool}
          → section_round ini strdup_ok dict malloc_ok none pools ≡ done pools'
          → ⊥
      null_name e = unfold section_round in cc
  section_round-Distinct malloc_ok (some section) pools {pools'} d h =
      let (free, added) = section_round-inv malloc_ok section pools h in
      let (c, e, is_added) = with_pool-inv pools _ added in
      let apart : All (NotNamed c.name) pools =
        subst (λ n. All (NotNamed n) pools) (sym (new_name section e))
          (name_taken-free section pools free) in
      subst (λ p. Distinct p × (length p ≡ length pools + 1)) is_added
        (Distinct-snoc pools (new_pool c) d apart, length-append pools (new_pool c ∷ []))

  sections_loop-Distinct :
      (malloc_ok : Bool) (section_count : ℕ) (pools : List WorkerPool) {pools' : List WorkerPool}
      → Distinct pools
      → sections_loop ini strdup_ok dict malloc_ok section_count pools ≡ done pools'
      → Distinct pools' × (length pools' ≡ length pools + section_count)
  unfolding sections_loop
  sections_loop-Distinct malloc_ok zero pools {pools'} d h =
      let e : pools ≡ pools' = cc in
      subst (λ p. Distinct p × (length p ≡ length pools + 0)) e (d, omega arith)
  sections_loop-Distinct malloc_ok (suc n) pools {pools'} d h =
      let (next, here, later) =
        >>=-done (section_round ini strdup_ok dict malloc_ok (ini.getsecname dict n) pools) _ h in
      let (d', one) = section_round-Distinct malloc_ok (ini.getsecname dict n) pools d here in
      let (d'', more) = sections_loop-Distinct malloc_ok n next d' later in (d'', omega arith)

  pub with_code-inv :
      (left_over : ℤ) (m : Outcome (List WorkerPool)) {code : ℤ} {pools' : List WorkerPool}
      → with_code left_over m ≡ done (code, pools')
      → (code ≡ left_over) × (m ≡ done pools')
  with_code-inv left_over (done pools) h = (cc, cc)
  with_code-inv left_over (failed pools) h = cc
  with_code-inv left_over fault h = cc

  -- A pool file that is read to its end adds one pool for each of its sections, and keeps the names
  -- of all pools apart, whatever their case. The value returned is then what the call left behind:
  -- the function has no `return` there.
  pub parse_pool_ini-names :
      (malloc_ok : Bool) (left_over code : ℤ) (pools pools' : List WorkerPool)
      → Distinct pools
      → parse_pool_ini ini strdup_ok dict malloc_ok left_over pools ≡ done (code, pools')
      → Distinct pools'
        × (length pools' ≡ length pools + pos_part (ini.getnsec dict))
        × (code ≡ left_over)
  unfolding parse_pool_ini
  parse_pool_ini-names malloc_ok left_over code pools pools' d h =
      let read : with_code left_over
            (sections_loop ini strdup_ok dict malloc_ok (pos_part (ini.getnsec dict)) pools)
          ≡ done (code, pools') =
        ground arith in
      let (same, looped) = with_code-inv left_over _ read in
      let (d', len) =
        sections_loop-Distinct malloc_ok (pos_part (ini.getnsec dict)) pools d looped in
      (d', len, same)
