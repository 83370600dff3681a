-- ===== src/Spinlock/Lock.antt =====
-- pmf_atomic.h: the compare-and-set, `pmf_spinlock` and `pmf_unlock`, each access to the lock word
-- one atomic step. The word starts as 0, as the anonymous mapping that holds it does.
use pmf.Common.{
  All, Bool, List, Option, [], arith, false, if◌then◌else◌, none, refl, set, some, true, ℕ, ◌++◌,
  ◌==◌, ◌∷◌, ◌≡◌, ◌≢◌,
}

-- `atomic_cmp_set(lock, old, set)`: the result, and the word after the instruction.
abbrev pub atomic_cmp_set : ℕ → ℕ → ℕ → Bool × ℕ
atomic_cmp_set lock old set = if lock == old then (true, set) else (false, lock)

-- One round of `pmf_spinlock`: with `try_once` it returns 1 or 0; without, it returns 1 or goes on
-- after `sched_yield` (`none`).
abbrev pub spinlock_round : Bool → ℕ → Option Bool × ℕ
spinlock_round try_once lock =
    let (won, lock') = atomic_cmp_set lock 0 1 in
    if try_once then (some won, lock') else if won then (some true, lock') else (none, lock')

-- `pmf_spinlock` run by one process, over the values that the other processes leave in the word
-- before each of its rounds; `none` while it still spins when those are used up.
unfoldable pub spinlock : Bool → List ℕ → Option (Bool × ℕ)
spinlock try_once [] = none
spinlock try_once (lock ∷ seen) =
    let rest = spinlock try_once seen in
    let (result, lock') = spinlock_round try_once lock in
    elim result [ some won ↦ some (won, lock') | none ↦ rest ]

-- `pmf_unlock`: a plain store.
abbrev pub unlock : ℕ → ℕ
unlock lock = 0

-- Without `try_once` the call returns exactly when it meets a free word, and then it returns 1 with
-- the word taken, however often it found it taken before.
pub spinlock-waits :
    (busy : List ℕ) (seen : List ℕ)
    → All (λ lock. lock ≢ 0) busy
    → (spinlock false busy ≡ none) × (spinlock false (busy ++ 0 ∷ seen) ≡ some (true, 1))
unfolding spinlock
spinlock-waits [] seen h = (refl, refl)
spinlock-waits (lock ∷ busy) seen h =
    let (p, q) = spinlock-waits busy seen h.1 in (ground arith, ground arith)

-- With `try_once` the call returns after one round: 1 with the word taken if it was free, and
-- otherwise 0 with the word as it was.
pub spinlock-once :
    (lock : ℕ) (seen : List ℕ)
    → spinlock true (lock ∷ seen) ≡ (if lock == 0 then some (true, 1) else some (false, lock))
unfolding spinlock
spinlock-once lock seen = ground arith
