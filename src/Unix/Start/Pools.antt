-- ===== src/Unix/Start/Pools.antt =====
-- The loop over the pools of pmf_unix_init_main.
use pmf.Common.{
  Bool-cases, List, Option, Pairwise, [], arith, false, inl, inr, ltb_ℤ, none, pos, refl, some,
  subst, ℤ, ◌∷◌, ◌≡◌,
}
use pmf.Outcome.{done, done-inj, if-done, map_outcome-done}
use pmf.Text.Chars.{Text}
use pmf.Conf.Load.Passed.{SameSetting, SameSetting-trans}
use pmf.Conf.Records.{WorkerPool}
use pmf.Unix.{Accounts, Passwd, conf_group, conf_user, conf_wp, given, then_do, with_own}
use pmf.Unix.Start.{conf_pools}

conf_user-keeps :
    (accounts : Accounts) (user : Option Text) (wp : WorkerPool)
    → SameSetting wp (conf_user accounts user wp).1
conf_user-keeps accounts none wp = (refl, refl)
conf_user-keeps accounts (some user) wp = (ground arith, ground arith)

conf_group-keeps :
    (accounts : Accounts) (group : Option Text) (wp : WorkerPool)
    → SameSetting wp (conf_group accounts group wp).1
conf_group-keeps accounts none wp = (refl, refl)
conf_group-keeps accounts (some group) wp = (ground arith, ground arith)

with_own-keeps : (wp : WorkerPool) (own : Option Passwd) → SameSetting wp (with_own wp own)
with_own-keeps wp none = (refl, refl)
with_own-keeps wp (some pwd) = (refl, refl)

-- A relation that goes through both parts.
pub then_do-keeps :
    (R : WorkerPool → WorkerPool → Type 0) (wp : WorkerPool) (r : ℤ × WorkerPool)
    (next : WorkerPool → ℤ × WorkerPool)
    → ((p q w : WorkerPool) → R p q → R q w → R p w)
    → R wp r.1
    → ((w : WorkerPool) → R w (next w).1)
    → R wp (then_do r next).1
then_do-keeps R wp (code, w) next trans h k = elim (Bool-cases (ltb_ℤ code (pos 0))) [
  | inl e ↦ rw e h
  | inr e ↦ rw e (trans wp w (next w).1 h (k w))
]

conf_wp-keeps : (accounts : Accounts) (wp : WorkerPool) → SameSetting wp (conf_wp accounts wp).1
unfolding conf_wp
conf_wp-keeps accounts wp = elim (Bool-cases accounts.is_root) [
  | inl e ↦ rw e (
      then_do-keeps SameSetting wp (conf_user accounts (given wp.config.user) wp)
        (conf_group accounts (given wp.config.group)) SameSetting-trans
        (conf_user-keeps accounts (given wp.config.user) wp)
        (conf_group-keeps accounts (given wp.config.group)))
  | inr e ↦ rw e (with_own-keeps wp accounts.own)
]

-- The second pool is the first with its account.
abbrev pub HasAccount : Accounts → WorkerPool → WorkerPool → Type 0
HasAccount accounts wp w =
    (ltb_ℤ (conf_wp accounts wp).0 (pos 0) ≡ false) × ((conf_wp accounts wp).1 ≡ w)

pub HasAccount-SameSetting :
    (accounts : Accounts) (wp w : WorkerPool) → HasAccount accounts wp w → SameSetting wp w
HasAccount-SameSetting accounts wp w (code, same) =
    subst (SameSetting wp) same (conf_wp-keeps accounts wp)

pub conf_pools-done :
    (accounts : Accounts) (pools : List WorkerPool) {pools' : List WorkerPool}
    → conf_pools accounts pools ≡ done pools'
    → Pairwise (HasAccount accounts) pools pools'
unfolding conf_pools
conf_pools-done accounts [] {pools'} h =
    subst (Pairwise (HasAccount accounts) []) (done-inj [] pools' h) tt
conf_pools-done accounts (wp ∷ pools) {pools'} h =
    let (code, w) = conf_wp accounts wp in
    let (good, mapped) = if-done (ltb_ℤ code (pos 0)) (w ∷ pools) _ h in
    let (rest, later, same) = map_outcome-done (w ∷◌) (conf_pools accounts pools) mapped in
    subst (Pairwise (HasAccount accounts) (wp ∷ pools)) same
      ((good, refl), conf_pools-done accounts pools later)
