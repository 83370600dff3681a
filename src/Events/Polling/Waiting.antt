-- ===== src/Events/Polling/Waiting.antt =====
-- pmf_event_epoll_wait against pmf_event_select_wait, and after pmf_event_epoll_clean.
use mathlib.Core.List.{Perm, filter_map}
use mathlib.Core.Option.{Option-elim}
use mathlib.Core.List.Perm
use pmf.Common.{
  Bool, List, Option, [], ap, arith, drop, eqb_ℤ, eqb_ℤ_ne, false, if◌then◌else◌, length, ltb_ℤ,
  map, max, negsuc, none, pos, pos_part, refl, replicate, some, suc, sym, true, zero, ℕ, ℤ, ◌++◌,
  ◌∷◌, ◌≡◌, ◌≤ℤ◌,
}
use pmf.Events.{Epoll, Event, FdSet, epoll_clean, epoll_init, proc, proc_ready, select_wait}
use pmf.Events.Polling.{EpollEvent, WaitAnswer, epoll_wait, proc_buf, with_ret, zero_event}

-- The call that an event leads to.
unfoldable call_of : Option Event → Option (ℕ × ℤ)
call_of none = none
call_of (some ev) = elim ev.callback [
  | none ↦ none
  | some callback ↦ some (callback, ev.event_type)
]

-- The events of a queue whose descriptors are in a set.
unfoldable pub ready_events : FdSet → List (Option Event) → List (Option Event)
ready_events fds [] = []
ready_events fds (none ∷ queue) = ready_events fds queue
ready_events fds (some ev ∷ queue) =
    if fds ev.fd then some ev ∷ ready_events fds queue else ready_events fds queue

one_call :
    (callback : Option ℕ) (event_type : ℤ) (calls : List (ℕ × ℤ))
    → elim callback [ none ↦ [] | some c ↦ (c, event_type) ∷ [] ] ++ calls
      ≡ Option-elim
          (elim callback [ none ↦ none | some c ↦ some (c, event_type) ])
          calls
          (λ call. call ∷ calls)
unfolding Option-elim
one_call none event_type calls = refl
one_call (some c) event_type calls = refl

proc-call_of :
    (ev : Event) (queue : List (Option Event))
    → proc (some ev) ++ filter_map call_of queue ≡ filter_map call_of (some ev ∷ queue)
unfolding proc call_of filter_map
proc-call_of ev queue = one_call ev.callback ev.event_type (filter_map call_of queue)

proc_ready-some :
    (ready : Bool) (ev : Event) (queue : List (Option Event))
    → (if ready then proc (some ev) else []) ++ filter_map call_of queue
      ≡ filter_map call_of (if ready then some ev ∷ queue else queue)
proc_ready-some true ev queue = proc-call_of ev queue
proc_ready-some false ev queue = refl

proc_ready-filter_map :
    (fds : FdSet) (queue : List (Option Event))
    → proc_ready fds queue ≡ filter_map call_of (ready_events fds queue)
unfolding proc_ready ready_events filter_map
proc_ready-filter_map fds [] = refl
proc_ready-filter_map fds (none ∷ queue) = proc_ready-filter_map fds queue
proc_ready-filter_map fds (some ev ∷ queue) =
    rw (proc_ready-filter_map fds queue) (proc_ready-some (fds ev.fd) ev (ready_events fds queue))

proc_buf-cons :
    (rounds : ℕ) (e : EpollEvent) (ptr : Option Event) (buf : List EpollEvent)
    (queue : List (Option Event))
    → e.ptr ≡ ptr
    → proc_buf rounds buf ≡ some (filter_map call_of queue)
    → proc_buf (suc rounds) (e ∷ buf) ≡ some (filter_map call_of (ptr ∷ queue))
unfolding proc_buf filter_map call_of Option-elim
proc_buf-cons rounds e none buf queue here later = rw (here, later) refl
proc_buf-cons rounds e (some ev) buf queue here later =
    rw (here, later) (ap some (proc-call_of ev queue))

proc_buf-filter_map :
    (filled rest : List EpollEvent)
    → proc_buf (length filled) (filled ++ rest)
      ≡ some (filter_map call_of (map (λ e. e.ptr) filled))
unfolding proc_buf filter_map
proc_buf-filter_map [] rest = refl
proc_buf-filter_map (e ∷ filled) rest =
    proc_buf-cons (length filled) e e.ptr (filled ++ rest) (map (λ e'. e'.ptr) filled) refl
      (proc_buf-filter_map filled rest)

not_failed : (n : ℕ) → eqb_ℤ (pos n) (negsuc 0) ≡ false
not_failed n = eqb_ℤ_ne (pos n) (negsuc 0) (λ e. cc)

-- With a buffer, and a result that is the number of the events that epoll_wait writes.
epoll_wait-filter_map :
    (s : Epoll) (filled : List EpollEvent) (interrupted : Bool)
    → s.has_buf ≡ true
    → epoll_wait s
        (record { ret = pos (length filled); interrupted = interrupted; filled = filled })
      ≡ some (pos (length filled), filter_map call_of (map (λ e. e.ptr) filled))
unfolding epoll_wait
epoll_wait-filter_map s filled interrupted b =
    let zeros = drop (length filled) (replicate (pos_part s.event_buf_num) zero_event) in
    rw (b, not_failed (length filled))
      (ap (with_ret (pos (length filled))) (proc_buf-filter_map filled zeros))

select_wait-filter_map :
    (n : ℕ) (interrupted : Bool) (ready : FdSet) (queue : List (Option Event))
    → (n ≡ 0 → ready_events ready queue ≡ [])
    → select_wait (pos n) interrupted ready queue
      ≡ (pos n, filter_map call_of (ready_events ready queue))
unfolding select_wait filter_map
select_wait-filter_map zero interrupted ready queue h = rw (h refl) refl
select_wait-filter_map (suc n) interrupted ready queue h =
    let positive : ltb_ℤ (pos 0) (pos (suc n)) ≡ true = ground arith in
    rw (not_failed (suc n), positive)
      (ap (λ calls. (pos (suc n), calls)) (proc_ready-filter_map ready queue))

none_filled :
    (filled : List EpollEvent) (queue : List (Option Event))
    → Perm (map (λ e. e.ptr) filled) queue
    → length filled ≡ 0
    → queue ≡ []
none_filled [] queue perm h = sym (Perm.nil-eq perm)
none_filled (e ∷ filled) queue perm h = absurd (omega arith)

epoll_init-has_buf :
    (created max : ℤ) (old : Epoll)
    → pos 1 ≤ℤ max
    → pos 0 ≤ℤ created
    → (epoll_init created true max old).1
      ≡ record { epoll_fd = created; has_buf = true; event_buf_num = max }
unfolding epoll_init
epoll_init-has_buf created max old m c = ground arith

-- After an initialisation of epoll for at least one descriptor that succeeds, where the system
-- reports the events of a queue that are ready, in any order and no other, a wait on epoll calls
-- the callbacks that a wait on select calls for them, each as often, and returns the same number.
pub epoll_wait-select_wait :
    (created max : ℤ) (old : Epoll) (queue : List (Option Event)) (ready : FdSet)
    (filled : List EpollEvent) (interrupted : Bool)
    → pos 1 ≤ℤ max
    → pos 0 ≤ℤ created
    → Perm (map (λ e. e.ptr) filled) (ready_events ready queue)
    → let answer : WaitAnswer = record {
      ret = pos (length filled);
      interrupted = interrupted;
      filled = filled;
    } in
      let (ret, calls) = select_wait (pos (length filled)) interrupted ready queue in
      (calls' : List (ℕ × ℤ)) × (epoll_wait (epoll_init created true max old).1 answer
        ≡ some (ret, calls'))
      × Perm calls' calls
unfolding epoll_init select_wait
epoll_wait-select_wait created max old queue ready filled interrupted m c perm =
    rw
      (
        epoll_init-has_buf created max old m c,
        select_wait-filter_map (length filled) interrupted ready queue
            (none_filled filled (ready_events ready queue) perm),
      )
      (
        filter_map call_of (map (λ e. e.ptr) filled),
        epoll_wait-filter_map (record { epoll_fd = created; has_buf = true; event_buf_num = max })
            filled interrupted refl,
        Perm.filter_map call_of perm,
      )

-- After the module has given up its buffer, a wait writes through the pointer that is NULL then.
pub epoll_wait-epoll_clean :
    (s : Epoll) (answer : WaitAnswer)
    → s.has_buf ≡ true
    → epoll_wait (epoll_clean s).1 answer ≡ none
unfolding epoll_wait epoll_clean
epoll_wait-epoll_clean s answer b = rw b refl
