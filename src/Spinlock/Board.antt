-- ===== src/Spinlock/Board.antt =====
-- The scoreboard under the lock: the statements of pmf_scoreboard_update in their order.
use pmf.Common.{
  Bool, Bool-cases, List, Pairwise, [], ap, eqb_ℤ, false, if◌then◌else◌, inl, inr, leb_ℤ, ltb_ℤ,
  pos, refl, sym, to_u32, to_u64, true, ℤ, ◌++◌, ◌∙◌, ◌∷◌, ◌≡◌,
}
use pmf.Spinlock.System.{Write, finish}
use pmf.Scoreboard.Update.{
  Counts, Scoreboard, action_set, inc_counts, inc_int, inc_u32, inc_u64, raise_active_max,
  set_counts, set_int, set_u32, set_u64, update_locked,
}

-- The arguments of a call: its numbers and its action.
abbrev pub Call : Type 0
Call = Counts × ℤ

-- Each statement as what it writes into the board, from the one that it has read; where its test
-- fails it writes nothing.
abbrev pub BoardWrite : Type 0
BoardWrite = Write Scoreboard Call

abbrev pub keep_or : Bool → Scoreboard → Scoreboard → Scoreboard
keep_or test written board = if test then written else board

-- The statements for `PMF_SCOREBOARD_ACTION_SET`.
abbrev pub set_writes : Counts → List BoardWrite
set_writes c =
    (λ s b. keep_or (leb_ℤ (pos 0) c.idle) (record b { idle = c.idle }) b)
    ∷ (λ s b. keep_or (leb_ℤ (pos 0) c.active) (record b { active = c.active }) b)
    ∷ (λ s b. keep_or (leb_ℤ (pos 0) c.lq) (record b { lq = c.lq }) b)
    ∷ (λ s b. keep_or (leb_ℤ (pos 0) c.lq_len) (record b { lq_len = to_u32 c.lq_len }) b)
    ∷ (λ s b. keep_or (ltb_ℤ s.lq_max s.lq) (record b { lq_max = s.lq }) b)
    ∷ (λ s b. keep_or (leb_ℤ (pos 0) c.requests) (record b { requests = to_u64 c.requests }) b)
    ∷ (λ s b.
        keep_or (leb_ℤ (pos 0) c.max_children_reached)
          (record b { max_children_reached = to_u32 c.max_children_reached }) b)
    ∷ (λ s b. keep_or (ltb_ℤ (pos 0) c.slow_rq) (record b { slow_rq = to_u64 c.slow_rq }) b)
    ∷ []

-- The statements for any other action; each writes its field.
abbrev pub inc_writes : Counts → List BoardWrite
inc_writes c =
    (λ s b. record b { idle = inc_int s.idle c.idle })
    ∷ (λ s b. record b { active = inc_int s.active c.active })
    ∷ (λ s b. record b { requests = inc_u64 s.requests c.requests })
    ∷ (λ s b. record b {
      max_children_reached = inc_u32 s.max_children_reached c.max_children_reached;
    })
    ∷ (λ s b. record b { slow_rq = inc_u64 s.slow_rq c.slow_rq })
    ∷ []

-- The last statement, for every action.
abbrev pub raise_write : BoardWrite
raise_write s b = keep_or (ltb_ℤ s.active_max s.active) (record b { active_max = s.active }) b

unfoldable pub board_writes : Call → List BoardWrite
board_writes (c, action) =
    (if eqb_ℤ action action_set then set_writes c else inc_writes c) ++ raise_write ∷ []

finish-append :
    (ws vs : List BoardWrite) (s : Scoreboard)
    → finish Scoreboard Call (ws ++ vs) s ≡ finish Scoreboard Call vs (finish Scoreboard Call ws s)
finish-append [] vs s = refl
finish-append (w ∷ ws) vs s = finish-append ws vs (w s s)

finish-raise : (s : Scoreboard) → finish Scoreboard Call (raise_write ∷ []) s ≡ raise_active_max s
unfolding raise_active_max
finish-raise s = elim (Bool-cases (ltb_ℤ s.active_max s.active)) [
  | inl e ↦ rw e refl
  | inr e ↦ rw e refl
]

finish-inc :
    (c : Counts) (s : Scoreboard) → finish Scoreboard Call (inc_writes c) s ≡ inc_counts c s
unfolding inc_counts
finish-inc c s = refl

-- The statements of the first action as writes of a field each, its old value where the test fails.
abbrev set_values : Counts → List BoardWrite
set_values c =
    (λ s b. record b { idle = set_int b.idle c.idle })
    ∷ (λ s b. record b { active = set_int b.active c.active })
    ∷ (λ s b. record b { lq = set_int b.lq c.lq })
    ∷ (λ s b. record b { lq_len = set_u32 b.lq_len c.lq_len })
    ∷ (λ s b. record b { lq_max = if ltb_ℤ s.lq_max s.lq then s.lq else b.lq_max })
    ∷ (λ s b. record b { requests = set_u64 b.requests c.requests })
    ∷ (λ s b. record b {
      max_children_reached = set_u32 b.max_children_reached c.max_children_reached;
    })
    ∷ (λ s b. record b {
      slow_rq = if ltb_ℤ (pos 0) c.slow_rq then to_u64 c.slow_rq else b.slow_rq;
    })
    ∷ []

keep_put :
    {A : Type 0} (test : Bool) (put : A → Scoreboard) (value old : A) (b : Scoreboard)
    → put old ≡ b
    → keep_or test (put value) b ≡ put (if test then value else old)
keep_put true put value old b h = refl
keep_put false put value old b h = sym h

abbrev SameWrite : BoardWrite → BoardWrite → Type 0
SameWrite w v = (s b : Scoreboard) → w s b ≡ v s b

finish-cong :
    (ws vs : List BoardWrite) (s : Scoreboard)
    → Pairwise SameWrite ws vs
    → finish Scoreboard Call ws s ≡ finish Scoreboard Call vs s
finish-cong [] [] s h = refl
finish-cong [] (v ∷ vs) s h = absurd h
finish-cong (w ∷ ws) [] s h = absurd h
finish-cong (w ∷ ws) (v ∷ vs) s h =
    ap (finish Scoreboard Call ws) (h.0 s s) ∙ finish-cong ws vs (v s s) h.1

set_writes-values : (c : Counts) → Pairwise SameWrite (set_writes c) (set_values c)
set_writes-values c = (
  λ s b. keep_put (leb_ℤ (pos 0) c.idle) (λ x. record b { idle = x }) c.idle b.idle b refl,
  (
    λ s b.
        keep_put (leb_ℤ (pos 0) c.active) (λ x. record b { active = x }) c.active b.active b refl,
    (
      λ s b. keep_put (leb_ℤ (pos 0) c.lq) (λ x. record b { lq = x }) c.lq b.lq b refl,
      (
        λ s b.
            keep_put (leb_ℤ (pos 0) c.lq_len) (λ x. record b { lq_len = x }) (to_u32 c.lq_len)
              b.lq_len b refl,
        (
          λ s b. keep_put (ltb_ℤ s.lq_max s.lq) (λ x. record b { lq_max = x }) s.lq b.lq_max b refl,
          (
            λ s b.
                keep_put (leb_ℤ (pos 0) c.requests) (λ x. record b { requests = x })
                  (to_u64 c.requests) b.requests b refl,
            (
              λ s b.
                  keep_put (leb_ℤ (pos 0) c.max_children_reached)
                    (λ x. record b { max_children_reached = x }) (to_u32 c.max_children_reached)
                    b.max_children_reached b refl,
              (
                λ s b.
                    keep_put (ltb_ℤ (pos 0) c.slow_rq) (λ x. record b { slow_rq = x })
                      (to_u64 c.slow_rq) b.slow_rq b refl,
                tt,
              ),
            ),
          ),
        ),
      ),
    ),
  ),
)

finish-set :
    (c : Counts) (s : Scoreboard) → finish Scoreboard Call (set_writes c) s ≡ set_counts c s
unfolding set_counts
finish-set c s = finish-cong (set_writes c) (set_values c) s (set_writes-values c) ∙ refl

-- The statements of a call, with no other between them, are pmf_scoreboard_update.
pub finish-update_locked :
    (c : Counts) (action : ℤ) (s : Scoreboard)
    → finish Scoreboard Call (board_writes (c, action)) s ≡ update_locked c action s
unfolding board_writes update_locked
finish-update_locked c action s = elim (Bool-cases (eqb_ℤ action action_set)) [
  | inl e ↦ rw e (
      finish-append (set_writes c) (raise_write ∷ []) s
      ∙ ap (finish Scoreboard Call (raise_write ∷ [])) (finish-set c s)
      ∙ finish-raise (set_counts c s))
  | inr e ↦ rw e (
      finish-append (inc_writes c) (raise_write ∷ []) s
      ∙ ap (finish Scoreboard Call (raise_write ∷ [])) (finish-inc c s)
      ∙ finish-raise (inc_counts c s))
]
