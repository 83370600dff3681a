-- ===== src/Scoreboard/Signed.antt =====
-- The signed counters of the scoreboard: bounds that every update keeps.
use pmf.Common.{
  Bool-cases, IsInt, arith, eqb_ℤ, if◌then◌else◌, inl, inr, ltb_ℤ, negsuc, pos, refl, wrap_int_lem,
  ℤ, ◌+ℤ◌, ◌≡◌, ◌≤ℤ◌,
}
use pmf.Scoreboard.Update.{
  Counts, Scoreboard, action_inc, action_set, inc_counts, inc_int, raise_active_max, set_counts,
  update_locked,
}

-- What the fields say to a reader: counts are not negative, and a maximum covers its counter.
pub record IsValid (s : Scoreboard) : Type 0 where
  pub idle_nonneg : pos 0 ≤ℤ s.idle
  pub active_nonneg : pos 0 ≤ℤ s.active
  pub active_le : s.active ≤ℤ s.active_max
  pub lq_le : s.lq ≤ℤ s.lq_max

set_counts-IsValid :
    (c : Counts) (s : Scoreboard) → IsValid s → IsValid (raise_active_max (set_counts c s))
unfolding set_counts raise_active_max
set_counts-IsValid c s v = ground arith

inc_counts-IsValid :
    (c : Counts) (s : Scoreboard) → IsValid s → IsValid (raise_active_max (inc_counts c s))
unfolding inc_counts raise_active_max
inc_counts-IsValid c s v = ground arith

-- Every update, of either action and with any arguments, keeps the counters valid, also where the
-- signed sums overflow.
pub update_locked-IsValid :
    (c : Counts) (action : ℤ) {s : Scoreboard} → IsValid s → IsValid (update_locked c action s)
unfolding update_locked
update_locked-IsValid c action {s} v = elim (Bool-cases (eqb_ℤ action action_set)) [
  | inl e ↦ rw e (set_counts-IsValid c s v)
  | inr e ↦ rw e (inc_counts-IsValid c s v)
]

-- A number, or 0 where it is below 0.
abbrev pub floor_zero : ℤ → ℤ
floor_zero n = if ltb_ℤ n (pos 0) then pos 0 else n

inc_int-floor_zero :
    (field value : ℤ) → IsInt (field +ℤ value) → inc_int field value ≡ floor_zero (field +ℤ value)
inc_int-floor_zero field value h = rw (wrap_int_lem (field +ℤ value) h) (clamp (field +ℤ value))
  where
    clamp : (n : ℤ) → (if ltb_ℤ (pos 0) n then n else pos 0) ≡ floor_zero n
    clamp (pos n) = ground arith
    clamp (negsuc n) = ground arith

-- An increment whose sums fit in an `int` adds its arguments to `idle` and to `active`, and puts 0
-- for a sum below 0; the peak becomes the larger of itself and the new `active`, and the queue
-- fields stay.
pub update_locked-clamps :
    (c : Counts) (s : Scoreboard)
    → IsInt (s.idle +ℤ c.idle)
    → IsInt (s.active +ℤ c.active)
    → let s' = update_locked c action_inc s in
      (s'.idle ≡ floor_zero (s.idle +ℤ c.idle))
      × (s'.active ≡ floor_zero (s.active +ℤ c.active))
      × (s'.active_max ≡ (if ltb_ℤ s.active_max s'.active then s'.active else s.active_max))
      × (s'.lq ≡ s.lq)
      × (s'.lq_max ≡ s.lq_max)
      × (s'.lq_len ≡ s.lq_len)
unfolding update_locked
update_locked-clamps c s hi ha = (
  inc_int-floor_zero s.idle c.idle hi,
  inc_int-floor_zero s.active c.active ha,
  refl,
  refl,
  refl,
  refl,
)

-- Setting the counters twice to the same arguments is setting them once.
pub update_locked_idem :
    (c : Counts) (s : Scoreboard)
    → update_locked c action_set (update_locked c action_set s) ≡ update_locked c action_set s
unfolding update_locked
update_locked_idem c s = ground arith
