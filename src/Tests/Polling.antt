-- ===== src/Tests/Polling.antt =====
-- The two event mechanisms on two events, with the kernel's list as a function.
use mathlib.Core.List.{Perm}
use mathlib.Core.List.Perm
use pmf.Common.{
  List, Option, [], arith, false, if◌then◌else◌, negsuc, none, pos, refl, some, true, ℕ, ℤ, ◌==◌,
  ◌∷◌, ◌≡◌,
}
use pmf.Events.{Event, FdSet, epoll_init, epoll_initial, select_add, select_remove, select_wait}
use pmf.Events.Polling.{
  EpollCtl, Interest, ctl_add, ctl_del, epoll_add, epoll_remove, epoll_wait, request,
}
use pmf.Events.Polling.Waiting.{epoll_wait-select_wait, ready_events}
use pmf.Events.Polling.Watching.{
  IsEpollCtl, SameWatched, Watch, add, calls-SameWatched, epoll_calls, register, remove,
  select_calls, watch-codes,
}

abbrev listener : Event
listener = record { fd = 4; callback = some 1; flags = 1; event_type = pos 2 }

abbrev signal_pipe : Event
signal_pipe = record { fd = 7; callback = some 2; flags = 2; event_type = pos 2 }

abbrev both_ready : FdSet
both_ready n = if n == 4 then true else n == 7

abbrev queue : List (Option Event)
queue = some listener ∷ none ∷ some signal_pipe ∷ []

epoll_wait-select_wait_example :
    let (ret, calls) = select_wait (pos 2) false both_ready queue in
    (calls' : List (ℕ × ℤ)) × (epoll_wait
        (epoll_init (pos 5) true (pos 8) epoll_initial).1
        (record {
          ret = pos 2;
          interrupted = false;
          filled = request signal_pipe ∷ request listener ∷ [];
        })
      ≡ some (ret, calls'))
    × Perm calls' calls
unfolding ready_events
epoll_wait-select_wait_example =
    epoll_wait-select_wait (pos 5) (pos 8) epoll_initial queue both_ready
      (request signal_pipe ∷ request listener ∷ []) false (omega arith) (omega arith)
      (Perm.swap (some listener) (some signal_pipe) [])

-- `epoll_ctl` on one list.
abbrev ctl : EpollCtl
ctl epoll_fd ctl_add fd e interest = elim (interest fd) [
  | none ↦ (pos 0, register fd (some e) interest)
  | some old ↦ (negsuc 0, interest)
]
ctl epoll_fd ctl_del fd e interest = elim (interest fd) [
  | none ↦ (negsuc 0, interest)
  | some old ↦ (pos 0, register fd none interest)
]

ctl-IsEpollCtl : (epoll_fd : ℤ) → IsEpollCtl ctl epoll_fd
ctl-IsEpollCtl epoll_fd = record {
  adds = λ fd e interest h. rw (h, ctl) refl;
  refuses = λ fd e old interest h. rw (h, ctl) refl;
  deletes = λ fd e old interest h. rw (h, ctl) refl;
  misses = λ fd e interest h. rw (h, ctl) refl;
}

abbrev no_fds : FdSet
no_fds n = false

abbrev no_interest : Interest
no_interest n = none

nothing-SameWatched : SameWatched no_fds no_interest
nothing-SameWatched = record { unwatched = λ n h. refl; watched = λ n h. absurd (cc) }

abbrev three_calls : List Watch
three_calls = add listener ∷ add listener ∷ remove listener ∷ []

calls-SameWatched_example :
    (fds' : FdSet) × (select_calls three_calls no_fds ≡ some fds')
    × SameWatched fds' (epoll_calls ctl epoll_initial three_calls no_interest)
calls-SameWatched_example =
    calls-SameWatched ctl epoll_initial (ctl-IsEpollCtl (negsuc 0)) three_calls no_fds no_interest
      (omega arith, (omega arith, (omega arith, tt))) nothing-SameWatched

watch-codes_test :
    ((epoll_add ctl epoll_initial listener no_interest).0 ≡ pos 0)
    × ((epoll_remove ctl epoll_initial listener no_interest).0 ≡ negsuc 0)
    × ((select_add 4 no_fds).0 ≡ pos 0)
    × ((fds' : FdSet) × (select_remove 4 no_fds ≡ some (pos 0, fds')))
watch-codes_test =
    watch-codes ctl epoll_initial (ctl-IsEpollCtl (negsuc 0)) listener no_fds no_interest
      (omega arith) nothing-SameWatched
