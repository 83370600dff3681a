-- ===== src/Spinlock/Variants.antt =====
-- pmf_atomic.h: the compare-and-set on the processors that return the word found, with its types.
use pmf.Common.{
  ==_ne, ==_refl, Bool, ap, arith, if◌then◌else◌, inl, inr, int_max, pos, refl, signed32, sym,
  to_u32, to_u64, u32_mod, wrap_int, ℕ, ℕ_discrete, ◌%◌, ◌<◌, ◌==◌, ◌↔◌, ◌∙◌, ◌≡◌, ◌≢◌, ◌≤◌, ◌⊎◌,
}
use pmf.Spinlock.Lock.{atomic_cmp_set}

-- The instructions `cas` and `casx`: what they find, and the word after them.
abbrev pub cas : ℕ → ℕ → ℕ → ℕ × ℕ
cas lock old new = (lock, if lock == old then new else lock)

-- atomic_cas_32 and atomic_cas_64 return an `int`, which the comparison converts to the type of the
-- word.
unfoldable pub cmp_set_32 : ℕ → ℕ → ℕ → Bool × ℕ
cmp_set_32 lock old new =
    let (seen, lock') = cas lock old new in (to_u32 (wrap_int (pos seen)) == old, lock')

unfoldable pub cmp_set_64 : ℕ → ℕ → ℕ → Bool × ℕ
cmp_set_64 lock old new =
    let (seen, lock') = cas lock old new in (to_u64 (wrap_int (pos seen)) == old, lock')

to_u32-wrap_int : (n : ℕ) → to_u32 (wrap_int (pos n)) ≡ n % u32_mod
unfolding to_u32 wrap_int signed32
to_u32-wrap_int n = ground arith

to_u64-wrap_int :
    (n old : ℕ) → old ≤ int_max → (to_u64 (wrap_int (pos n)) == old) ≡ (n % u32_mod == old)
unfolding to_u64 wrap_int signed32 to_u32
to_u64-wrap_int n old h = ground arith

cas-atomic_cmp_set :
    (lock old new : ℕ) → (lock == old, (cas lock old new).1) ≡ atomic_cmp_set lock old new
cas-atomic_cmp_set lock old new = elim (ℕ_discrete lock old) [
  | yes e ↦ rw (e, ==_refl old) refl
  | no ne ↦ rw (==_ne lock old ne) refl
]

-- On words of 32 bits the comparison of what was found gives the compare-and-set.
pub cmp_set_32-atomic_cmp_set :
    (lock old new : ℕ) → lock < u32_mod → cmp_set_32 lock old new ≡ atomic_cmp_set lock old new
unfolding cmp_set_32
cmp_set_32-atomic_cmp_set lock old new h =
    let same : lock % u32_mod ≡ lock = omega arith in
    ap (λ seen. (seen == old, (cas lock old new).1)) (to_u32-wrap_int lock ∙ same)
    ∙ cas-atomic_cmp_set lock old new

same_test :
    (lock old : ℕ)
    → old ≤ int_max
    → ((lock % u32_mod == old) ≡ (lock == old)) ↔ ((lock < u32_mod) ⊎ (lock % u32_mod ≢ old))
same_test lock old h = elim (ℕ_discrete (lock % u32_mod) old) [
  | yes e ↦ (
    λ same. inl (ground arith),
    λ either. elim either [ inl small ↦ ground arith | inr ne ↦ absurd (ne e) ],
  )
  | no ne ↦ (
    λ same. inr ne,
    λ either.
        let other : lock ≢ old = λ k. ne (ground arith) in
        ==_ne (lock % u32_mod) old ne ∙ sym (==_ne lock old other),
  )
]

-- On words of 64 bits, for an expected value that an `int` holds, the word after the call is that
-- of the compare-and-set, but the result is true whenever the low half of the word is the expected
-- value; so it is the compare-and-set exactly where the word is below 2^32 or its low half is
-- another.
pub cmp_set_64-atomic_cmp_set :
    (lock old new : ℕ)
    → old ≤ int_max
    → (cmp_set_64 lock old new ≡ (lock % u32_mod == old, (atomic_cmp_set lock old new).1))
      × ((cmp_set_64 lock old new ≡ atomic_cmp_set lock old new)
          ↔ ((lock < u32_mod) ⊎ (lock % u32_mod ≢ old)))
unfolding cmp_set_64
cmp_set_64-atomic_cmp_set lock old new h =
    let whole = cas-atomic_cmp_set lock old new in
    let word = (cas lock old new).1 in
    let low : cmp_set_64 lock old new ≡ (lock % u32_mod == old, word) =
      ap (λ won. (won, word)) (to_u64-wrap_int lock old h) in
    (
      low ∙ ap (λ r. (lock % u32_mod == old, r.1)) whole,
      (
        λ e. (same_test lock old h).0 (ap (λ r. r.0) (sym low ∙ e ∙ sym whole)),
        λ either. low ∙ ap (λ won. (won, word)) ((same_test lock old h).1 either) ∙ whole,
      ),
    )
