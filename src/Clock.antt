-- ===== src/Clock.antt =====
-- pmf_clock.c: the monotonic clock, and the time of day where there is none.
use pmf.Common.{
  Option, ap, arith, div_trunc, eqb_ℤ, if◌then◌else◌, inl, inr, none, not, pos, refl, some, ℕ, ℤ,
  ◌/◌, ◌<ℤ◌, ◌<◌, ◌∙◌, ◌≡◌, ◌≤ℤ◌, ◌≤◌, ◌⊎◌,
}
use pmf.Master.{Master}

-- A time of `clock_gettime(CLOCK_MONOTONIC)` in seconds and nanoseconds, and of `gettimeofday` in
-- seconds and microseconds; `none` where the call fails.
pub record ClockAnswers : Type 0 where
  pub monotonic : Option (ℤ × ℤ)
  pub time_of_day : Option (ℤ × ℤ)

abbrev pub works : Option (ℤ × ℤ) → ℤ
works none = pos 0
works (some ts) = pos 1

-- pmf_clock_init: its result is 0 always.
unfoldable pub clock_init : ClockAnswers → Master → ℤ × Master
clock_init answers s = (pos 0, record s { monotonic_works = works answers.monotonic })

-- `struct timeval` of a `struct timespec`.
abbrev pub timeval_of : Option (ℤ × ℤ) → Option (ℤ × ℤ)
timeval_of none = none
timeval_of (some (sec, nsec)) = some (sec, div_trunc nsec 1000)

-- pmf_clock_get: the time that it stores, or `none` where its result is -1.
unfoldable pub clock_get : ClockAnswers → Master → Option (ℤ × ℤ)
clock_get answers s =
    if not (eqb_ℤ s.monotonic_works (pos 0))
    then timeval_of answers.monotonic
    else answers.time_of_day

-- The order of times in seconds and a fraction.
abbrev pub Before : ℤ × ℤ → ℤ × ℤ → Type 0
Before (sec, frac) (sec', frac') = (sec <ℤ sec') ⊎ ((sec ≡ sec') × (frac ≤ℤ frac'))

clock_get-eq :
    (s : Master) (start now : ClockAnswers) (ts : ℤ × ℤ)
    → start.monotonic ≡ some ts
    → clock_get now (clock_init start s).1 ≡ timeval_of now.monotonic
unfolding clock_get clock_init
clock_get-eq s start now ts h = rw h refl

timeval_of-pos :
    (sec nsec : ℕ) → timeval_of (some (pos sec, pos nsec)) ≡ some (pos sec, pos (nsec / 1000))
unfolding div_trunc
timeval_of-pos sec nsec = refl

divided : (a b : ℕ) → a ≤ b → a / 1000 ≤ b / 1000
divided a b h = omega arith

rounded-Before :
    (sec nsec sec' nsec' : ℕ)
    → Before (pos sec, pos nsec) (pos sec', pos nsec')
    → Before (pos sec, pos (nsec / 1000)) (pos sec', pos (nsec' / 1000))
rounded-Before sec nsec sec' nsec' (inl earlier) = inl earlier
rounded-Before sec nsec sec' nsec' (inr (same, earlier)) =
    inr (same, omega (arith, divided nsec nsec' (omega (arith, earlier))))

-- Once the clock is initialised where the monotonic clock works, of two times that it shows in
-- order the program reads the first not after the second, though they are rounded to microseconds;
-- and these are below a million where the nanoseconds are below a billion.
pub clock_get-ordered :
    (s : Master) (start first second : ClockAnswers) (ts : ℤ × ℤ) (sec nsec sec' nsec' : ℕ)
    → start.monotonic ≡ some ts
    → first.monotonic ≡ some (pos sec, pos nsec)
    → second.monotonic ≡ some (pos sec', pos nsec')
    → Before (pos sec, pos nsec) (pos sec', pos nsec')
    → nsec' < 1000000000
    → let ready = (clock_init start s).1 in
      ((t : ℤ × ℤ) × (t' : ℤ × ℤ) × (clock_get first ready ≡ some t)
        × (clock_get second ready ≡ some t')
        × Before t t'
        × (t'.1 <ℤ pos 1000000))
clock_get-ordered s start first second ts sec nsec sec' nsec' works e e' before small = (
  (pos sec, pos (nsec / 1000)),
  (pos sec', pos (nsec' / 1000)),
  clock_get-eq s start first ts works ∙ ap timeval_of e ∙ timeval_of-pos sec nsec,
  clock_get-eq s start second ts works ∙ ap timeval_of e' ∙ timeval_of-pos sec' nsec',
  rounded-Before sec nsec sec' nsec' before,
  omega (arith, small),
)
