-- ===== src/Spinlock/System.antt =====
-- Processes that call pmf_scoreboard_update over one shared state, interleaved in any order. What an
-- update does in the critical section, `writes`, is a parameter: its statements in order, each of
-- which reads the state and then writes one field, in two steps, so that without the lock one
-- process's write could undo another's.
use mathlib.Core.Logic.{ite}
use pmf.Common.{Bool, List, [], false, none, some, true, ℕ, ℕ_discrete, ◌++◌, ◌∷◌, ◌≡◌}
use pmf.Spinlock.Lock.{spinlock_round, unlock}

abbrev pub update {ℓ} : {A : Type ℓ} → (ℕ → A) → ℕ → A → ℕ → A
update f i a j = ite (ℕ_discrete i j) a (f j)

module _ (S U : Type 0) where
  -- A statement: what it writes, from the state that it has read, into the state as it is then.
  abbrev pub Write : Type 0
  Write = S → S → S

  -- `log` holds the arguments of the updates that have ended, in their order. The program has no
  -- such list: it is there to say what the state is.
  pub record Memory : Type 0 where
    pub lock : ℕ
    pub shared : S
    pub log : List U

  -- Where a process stands, with what it holds there: in an update, the statements that are left.
  pub data Pc : Type 0 where
    outside : Pc
    spinning : U → Pc
    working : U → List Write → Pc
    loaded : U → Write → List Write → S → Pc

  -- In the critical section: between the compare-and-set that won and the unlocking store.
  abbrev pub holds : Pc → Bool
  holds outside = false
  holds (spinning u) = false
  holds (working u ws) = true
  holds (loaded u w ws s) = true

  pub record Processes : Type 0 where
    pub mem : Memory
    pub pc : ℕ → Pc

  -- At the start the word is 0 and no process has called.
  abbrev pub start : S → Processes
  start s = record { mem = record { lock = 0; shared = s; log = [] }; pc = λ _. Pc.outside }

  -- Statements run by one process with no other between them.
  abbrev pub finish : List Write → S → S
  finish [] s = s
  finish (w ∷ ws) s = finish ws (w s s)

module _ {S U : Type 0} (writes : U → List (Write S U)) where
  pub data Move (m : Memory S U) : Pc S U → Memory S U → Pc S U → Type 0 where
    call : (u : U) → Move m Pc.outside m (Pc.spinning u)
    yield :
        {u : U} → (spinlock_round false m.lock).0 ≡ none → Move m (Pc.spinning u) m (Pc.spinning u)
    win :
        {u : U}
        → (spinlock_round false m.lock).0 ≡ some true
        → Move m
            (Pc.spinning u)
            (record m { lock = (spinlock_round false m.lock).1 })
            (Pc.working u (writes u))
    load :
        {u : U} {w : Write S U} {ws : List (Write S U)}
        → Move m (Pc.working u (w ∷ ws)) m (Pc.loaded u w ws m.shared)
    store :
        {u : U} {w : Write S U} {ws : List (Write S U)} {s : S}
        → Move m (Pc.loaded u w ws s) (record m { shared = w s m.shared }) (Pc.working u ws)
    release :
        {u : U}
        → Move m
            (Pc.working u [])
            (record m { lock = unlock m.lock; log = m.log ++ u ∷ [] })
            Pc.outside

  pub data Step (s : Processes S U) : Processes S U → Type 0 where
    pick :
        (i : ℕ) {m : Memory S U} {p : Pc S U}
        → Move s.mem (s.pc i) m p
        → Step s (record { mem = m; pc = update s.pc i p })

  pub data Reach (s₀ : S) : Processes S U → Type 0 where
    here : Reach s₀ (start S U s₀)
    later : {s t : Processes S U} → Reach s₀ s → Step s t → Reach s₀ t

  -- The state after the updates of a list, each run to its end before the next.
  abbrev pub replay : List U → S → S
  replay [] s = s
  replay (u ∷ us) s = replay us (finish S U (writes u) s)
