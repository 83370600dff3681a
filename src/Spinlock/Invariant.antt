-- ===== src/Spinlock/Invariant.antt =====
-- What holds in every state that the processes reach.
use mathlib.Core.Logic.{ite}
use pmf.Common.{
  Bool-cases, List, [], ap, arith, false, inl, inr, refl, subst, sym, true, ℕ, ℕ_discrete, ◌++◌,
  ◌∙◌, ◌∷◌, ◌≡◌, ◌≢◌, ◌⊎◌,
}
use pmf.Spinlock.System.{
  Memory, Move, Pc, Processes, Reach, Step, Write, finish, holds, replay, start, update,
}

module _ {S U : Type 0} (writes : U → List (Write S U)) where
  replay-snoc :
      (us : List U) (u : U) (s : S)
      → replay writes (us ++ u ∷ []) s ≡ finish S U (writes u) (replay writes us s)
  replay-snoc [] u s = refl
  replay-snoc (v ∷ us) u s = replay-snoc us u (finish S U (writes v) s)

  -- What the statements that are left of an update make of the state is what the whole update makes
  -- of the state before it; and a statement has read the state as it is.
  abbrev pub Midway : S → Memory S U → Pc S U → Type 0
  Midway s₀ m Pc.outside = Unit
  Midway s₀ m (Pc.spinning u) = Unit
  Midway s₀ m (Pc.working u ws) = finish S U ws m.shared ≡ replay writes (m.log ++ u ∷ []) s₀
  Midway s₀ m (Pc.loaded u w ws s) =
      (s ≡ m.shared) × (finish S U (w ∷ ws) m.shared ≡ replay writes (m.log ++ u ∷ []) s₀)

  -- A process that is not in the critical section has nothing to keep.
  idle-Midway : (s₀ : S) (m : Memory S U) (p : Pc S U) → holds S U p ≡ false → Midway s₀ m p
  idle-Midway s₀ m Pc.outside h = tt
  idle-Midway s₀ m (Pc.spinning u) h = tt
  idle-Midway s₀ m (Pc.working u ws) h = absurd (cc)
  idle-Midway s₀ m (Pc.loaded u w ws s) h = absurd (cc)

  pub record Inv (s₀ : S) (m : Memory S U) (pc : ℕ → Pc S U) : Type 0 where
    pub bit : (m.lock ≡ 0) ⊎ (m.lock ≡ 1)
    pub held : (i : ℕ) → holds S U (pc i) ≡ true → m.lock ≡ 1
    pub unique : (i j : ℕ) → holds S U (pc i) ≡ true → holds S U (pc j) ≡ true → i ≡ j
    pub owner : m.lock ≡ 1 → (i : ℕ) × (holds S U (pc i) ≡ true)
    pub resting : m.lock ≡ 0 → m.shared ≡ replay writes m.log s₀
    pub midway : (i : ℕ) → Midway s₀ m (pc i)

  module _ {s₀ : S} {m : Memory S U} {pc : ℕ → Pc S U} (inv : Inv s₀ m pc) (i : ℕ) where
    open inv use {bit, held, unique, owner, resting, midway}

    Move-bit :
        {p p' : Pc S U} {m' : Memory S U}
        → Move writes m p m' p'
        → pc i ≡ p
        → (m'.lock ≡ 0) ⊎ (m'.lock ≡ 1)
    Move-bit (Move.call u) e = bit
    Move-bit (Move.win h) e = ground arith
    Move-bit Move.release e = inl refl
    Move-bit _ e = bit

    Move-held :
        {p p' : Pc S U} {m' : Memory S U}
        → Move writes m p m' p'
        → pc i ≡ p
        → (j : ℕ) → holds S U (update pc i p' j) ≡ true
        → m'.lock ≡ 1
    Move-held (Move.call u) e j h = ground (arith, held j)
    Move-held (Move.win g) e j h = ground (arith, held j)
    Move-held Move.release e j h = ground (arith, held j, held i, unique i j)
    Move-held _ e j h = ground (arith, held j, held i)

    Move-unique :
        {p p' : Pc S U} {m' : Memory S U}
        → Move writes m p m' p'
        → pc i ≡ p
        → (j k : ℕ) → holds S U (update pc i p' j) ≡ true
        → holds S U (update pc i p' k) ≡ true
        → j ≡ k
    Move-unique (Move.call u) e j k hj hk = ground (arith, unique j k)
    Move-unique (Move.win g) e j k hj hk = ground (arith, held j, held k)
    Move-unique _ e j k hj hk = ground (arith, unique j k, unique i j, unique i k)

    Move-owner :
        {p p' : Pc S U} {m' : Memory S U}
        → Move writes m p m' p'
        → pc i ≡ p
        → m'.lock ≡ 1
        → (j : ℕ) × (holds S U (update pc i p' j) ≡ true)
    Move-owner (Move.call u) e h = let (j, hj) = owner h in (j, ground arith)
    Move-owner (Move.yield g) e h = let (j, hj) = owner h in (j, ground arith)
    Move-owner Move.release e h = absurd (omega arith)
    Move-owner _ e h = (i, ground arith)

    Move-resting :
        {p p' : Pc S U} {m' : Memory S U}
        → Move writes m p m' p'
        → pc i ≡ p
        → m'.lock ≡ 0
        → m'.shared ≡ replay writes m'.log s₀
    Move-resting (Move.call u) e h = resting h
    Move-resting (Move.yield g) e h = resting h
    Move-resting (Move.win g) e h = absurd (ground arith)
    Move-resting Move.load e h = resting h
    Move-resting Move.store e h = absurd (ground (arith, held i))
    Move-resting (Move.release {u}) e h = subst (Midway s₀ m) e (midway i)

    -- The process that moves.
    Move-own :
        {p p' : Pc S U} {m' : Memory S U} → Move writes m p m' p' → pc i ≡ p → Midway s₀ m' p'
    Move-own (Move.call u) e = tt
    Move-own (Move.yield g) e = tt
    Move-own (Move.win {u} g) e =
        let free : m.lock ≡ 0 = ground arith in
        ap (finish S U (writes u)) (resting free) ∙ sym (replay-snoc m.log u s₀)
    Move-own Move.load e = (refl, subst (Midway s₀ m) e (midway i))
    Move-own (Move.store {u} {w} {ws} {s}) e =
        let (same, rest) = subst (Midway s₀ m) e (midway i) in
        ap (λ x. finish S U ws (w x m.shared)) same ∙ rest
    Move-own Move.release e = tt

    free-idle : (j : ℕ) → m.lock ≡ 0 → holds S U (pc j) ≡ false
    free-idle j free = elim (Bool-cases (holds S U (pc j))) [
      | inl h ↦ let taken : m.lock ≡ 1 = held j h in absurd (omega arith)
      | inr h ↦ h
    ]

    other-idle : (j : ℕ) → holds S U (pc i) ≡ true → j ≢ i → holds S U (pc j) ≡ false
    other-idle j own ne = elim (Bool-cases (holds S U (pc j))) [
      | inl h ↦ absurd (ne (unique j i h own))
      | inr h ↦ h
    ]

    -- Another process is outside of the critical section, or nothing has changed for it.
    Move-other :
        {p p' : Pc S U} {m' : Memory S U}
        → Move writes m p m' p'
        → pc i ≡ p
        → (j : ℕ) → j ≢ i
        → Midway s₀ m' (pc j)
    Move-other (Move.call u) e j ne = midway j
    Move-other (Move.yield g) e j ne = midway j
    Move-other Move.load e j ne = midway j
    Move-other {m'} (Move.win g) e j ne = idle-Midway s₀ m' (pc j) (free-idle j (ground arith))
    Move-other {m'} Move.store e j ne =
        idle-Midway s₀ m' (pc j) (other-idle j (ap (holds S U) e) ne)
    Move-other {m'} Move.release e j ne =
        idle-Midway s₀ m' (pc j) (other-idle j (ap (holds S U) e) ne)

    Move-Midway :
        {p p' : Pc S U} {m' : Memory S U}
        → Move writes m p m' p'
        → pc i ≡ p
        → (j : ℕ) → Midway s₀ m' (update pc i p' j)
    Move-Midway {p'} {m'} mv e j = elim (ℕ_discrete i j) as (λ d. Midway s₀ m' (ite d p' (pc j))) [
      | yes same ↦ Move-own mv e
      | no ne ↦ Move-other mv e j (λ k. ne (sym k))
    ]

    Move-Inv :
        {p' : Pc S U} {m' : Memory S U} → Move writes m (pc i) m' p' → Inv s₀ m' (update pc i p')
    Move-Inv mv = record {
      bit = Move-bit mv refl;
      held = Move-held mv refl;
      unique = Move-unique mv refl;
      owner = Move-owner mv refl;
      resting = Move-resting mv refl;
      midway = Move-Midway mv refl;
    }

  Inv-start : (s₀ : S) → Inv s₀ (start S U s₀).mem (start S U s₀).pc
  Inv-start s₀ = record {
    bit = inl refl;
    held = λ i h. cc;
    unique = λ i j h k. cc;
    owner = λ h. absurd (omega arith);
    resting = λ h. refl;
    midway = λ i. tt;
  }

  pub Reach-Inv : {s₀ : S} {s : Processes S U} → Reach writes s₀ s → Inv s₀ s.mem s.pc
  Reach-Inv {s₀} Reach.here = Inv-start s₀
  Reach-Inv (Reach.later r (Step.pick i mv)) = Move-Inv (Reach-Inv r) i mv
