-- ===== src/Spinlock/Safety.antt =====
-- The lock's promises.
use pmf.Common.{List, [], arith, false, inl, inr, some, subst, true, ℕ, ◌++◌, ◌∷◌, ◌≡◌, ◌⊎◌}
use pmf.Spinlock.Lock.{spinlock_round}
use pmf.Spinlock.System.{Memory, Move, Pc, Processes, Reach, Write, finish, holds, replay}
use pmf.Spinlock.Invariant.{Midway, Reach-Inv}

module _ {S U : Type 0} (writes : U → List (Write S U)) {s₀ : S} {s : Processes S U}
    (r : Reach writes s₀ s) where
  open (Reach-Inv writes r) use {bit, unique, owner, resting, midway}

  -- Two processes are never both between the compare-and-set that won and the unlocking store.
  pub mutual_exclusion : (i j : ℕ) → holds S U (s.pc i) ≡ true → holds S U (s.pc j) ≡ true → i ≡ j
  mutual_exclusion = unique

  -- No update is lost: while the word is 0 the shared state is what the updates that have ended make
  -- of the first state one after the other, each with no statement of another between its own.
  pub updates_serialised : s.mem.lock ≡ 0 → s.mem.shared ≡ replay writes s.mem.log s₀
  updates_serialised = resting

  -- While a process is in the middle of its update, the statements that are left make of the shared
  -- state what the whole update makes of the state that the updates before it left.
  pub rest_of_update :
      (i : ℕ) (u : U) (ws : List (Write S U))
      → s.pc i ≡ Pc.working u ws
      → finish S U ws s.mem.shared ≡ replay writes (s.mem.log ++ u ∷ []) s₀
  rest_of_update i u ws e = subst (Midway writes s₀ s.mem) e (midway i)

  -- A statement that has read the shared state and not yet written has read its present value.
  pub loaded_is_present :
      (i : ℕ) (u : U) (w : Write S U) (ws : List (Write S U)) (t : S)
      → s.pc i ≡ Pc.loaded u w ws t
      → t ≡ s.mem.shared
  loaded_is_present i u w ws t e = (subst (Midway writes s₀ s.mem) e (midway i)).0

  next-Move :
      (m : Memory S U) (p : Pc S U)
      → holds S U p ≡ true
      → (m' : Memory S U) × (p' : Pc S U) × Move writes m p m' p'
  next-Move m Pc.outside h = absurd (cc)
  next-Move m (Pc.spinning u) h = absurd (cc)
  next-Move m (Pc.working u []) h = (_, _, Move.release)
  next-Move m (Pc.working u (w ∷ ws)) h = (_, _, Move.load)
  next-Move m (Pc.loaded u w ws t) h = (_, _, Move.store)

  -- No deadlock: while a process waits for the lock, its next compare-and-set wins, or another
  -- process is in the critical section and has a step to take.
  pub no_deadlock :
      (i : ℕ) (u : U)
      → s.pc i ≡ Pc.spinning u
      → ((spinlock_round false s.mem.lock).0 ≡ some true)
        ⊎ ((j : ℕ) × (m : Memory S U) × (p : Pc S U) × (holds S U (s.pc j) ≡ true)
            × Move writes s.mem (s.pc j) m p)
  no_deadlock i u e = elim bit [
    | inl free ↦ inl (ground arith)
    | inr taken ↦
        let (j, h) = owner taken in
        let (m, p, mv) = next-Move s.mem (s.pc j) h in inr (j, m, p, h, mv)
  ]
