-- ===== src/Scoreboard/History.antt =====
-- What a sequence of updates leaves in the maxima.
use pmf.Common.{
  Bool-cases, List, [], ap, arith, eqb_ℤ, inl, inr, ltb_ℤ, refl, ℤ, ◌++◌, ◌∙◌, ◌∷◌, ◌≡◌, ◌≤ℤ◌, ◌⊎◌,
}
use pmf.Scoreboard.Update.{
  Counts, Scoreboard, action_set, inc_counts, raise_active_max, set_counts, update_locked,
}
use pmf.Scoreboard.Signed.{IsValid, update_locked-IsValid}

-- The calls in the order in which they hold the lock.
unfoldable pub run : List (Counts × ℤ) → Scoreboard → Scoreboard
run [] s = s
run ((c, action) ∷ calls) s = run calls (update_locked c action s)

active_max-le :
    (c : Counts) (action : ℤ) (s : Scoreboard)
    → s.active_max ≤ℤ (update_locked c action s).active_max
unfolding update_locked
active_max-le c action s = ground arith

run-active_max :
    (calls : List (Counts × ℤ)) (s : Scoreboard) → s.active_max ≤ℤ (run calls s).active_max
unfolding run
run-active_max [] s = omega arith
run-active_max ((c, action) ∷ calls) s =
    omega (arith, run-active_max calls (update_locked c action s), active_max-le c action s)

-- The peak covers the number of active workers at every moment before.
pub run-active-le :
    (earlier later : List (Counts × ℤ)) {s : Scoreboard}
    → IsValid s
    → (run earlier s).active ≤ℤ (run (earlier ++ later) s).active_max
unfolding run
run-active-le [] later {s} v = omega (arith, run-active_max later s, v.active_le)
run-active-le ((c, action) ∷ earlier) later v =
    run-active-le earlier later (update_locked-IsValid c action v)

raise_active_max-reached :
    (s : Scoreboard)
    → ((raise_active_max s).active_max ≡ s.active_max)
      ⊎ ((raise_active_max s).active_max ≡ (raise_active_max s).active)
unfolding raise_active_max
raise_active_max-reached s = elim (Bool-cases (ltb_ℤ s.active_max s.active)) [
  | inl e ↦ inr (rw e)
  | inr e ↦ inl (rw e)
]

active_max-step :
    (c : Counts) (action : ℤ) (s : Scoreboard)
    → let s' = update_locked c action s in
      (s'.active_max ≡ s.active_max) ⊎ (s'.active_max ≡ s'.active)
unfolding update_locked
active_max-step c action s = elim (Bool-cases (eqb_ℤ action action_set)) [
  | inl e ↦ rw e (raise_active_max-reached (set_counts c s))
  | inr e ↦ rw e (raise_active_max-reached (inc_counts c s))
]

-- The peak is one that was there: the one at the start, or the number of active workers at some
-- moment since.
pub run-active_max-reached :
    (calls : List (Counts × ℤ)) (s : Scoreboard)
    → ((run calls s).active_max ≡ s.active_max)
      ⊎ ((earlier : List (Counts × ℤ)) × (later : List (Counts × ℤ)) × (earlier ++ later ≡ calls)
          × ((run calls s).active_max ≡ (run earlier s).active))
unfolding run
run-active_max-reached [] s = inl refl
run-active_max-reached ((c, action) ∷ calls) s =
    elim (run-active_max-reached calls (update_locked c action s)) [
      | inr (earlier, later, e, h) ↦ inr ((c, action) ∷ earlier, later, ap (◌∷◌ (c, action)) e, h)
      | inl h ↦ elim (active_max-step c action s) [
        | inl k ↦ inl (h ∙ k)
        | inr k ↦ inr ((c, action) ∷ [], calls, refl, h ∙ k)
      ]
    ]
