-- ===== src/Events.antt =====
-- pmf_events.c, events/select.c and events/epoll.c: the event mechanisms. What the system answers
-- is an argument.
pub mod Choice
pub mod Descriptors
pub mod Polling
use pmf.Common.{
  Bool, List, Option, [], eqb_ℤ, false, if◌then◌else◌, leb, ltb_ℤ, max, negsuc, none, not, pos,
  some, true, wrap_int, ℕ, ℤ, ◌&&◌, ◌*ℤ◌, ◌++◌, ◌+ℤ◌, ◌==◌, ◌∷◌,
}
use pmf.Text.Chars.{Text, str_case_eq, text}
use pmf.Conf.Records.{WorkerPool}

-- `PMF_EVENT_MODULE_S`; its functions are those of the mechanism of that name.
pub record EventModule : Type 0 where
  pub name : Text
  pub support_edge_trigger : ℤ

abbrev pub epoll_module : EventModule
epoll_module = record { name = text "epoll"; support_edge_trigger = pos 1 }

abbrev pub select_module : EventModule
select_module = record { name = text "select"; support_edge_trigger = pos 0 }

-- pmf_event_support_edge_trigger, of `pmf_event_module` as it is.
unfoldable pub support_edge_trigger : Option EventModule → ℤ
support_edge_trigger none = pos 0
support_edge_trigger (some chosen) = chosen.support_edge_trigger

-- pmf_event_pre_init: its result, and `pmf_event_module` after it. Both modules are there.
unfoldable pub pre_init : Option Text → ℤ × Option EventModule
pre_init none = (pos 0, some epoll_module)
pre_init (some mechanism) =
    if str_case_eq epoll_module.name mechanism
    then (pos 0, some epoll_module)
    else if str_case_eq select_module.name mechanism
    then (pos 0, some select_module)
    else (negsuc 0, some select_module)

-- The descriptors that a pool needs at most, added to `max`.
abbrev pub more_fds : WorkerPool → ℤ → ℤ
more_fds wp max =
    if ltb_ℤ (pos 0) wp.config.pm_max_children
    then wrap_int (max +ℤ wrap_int (wp.config.pm_max_children *ℤ pos 2))
    else max

unfoldable pub count_fds : List WorkerPool → ℤ → ℤ
count_fds [] max = max
count_fds (wp ∷ pools) max = count_fds pools (more_fds wp max)

-- pmf_event_init_main, given what the module's `init` returns for a number of descriptors.
unfoldable pub init_main : Option EventModule → (ℤ → ℤ) → List WorkerPool → ℤ
init_main none init pools = negsuc 0
init_main (some chosen) init pools =
    if ltb_ℤ (init (count_fds pools (pos 1))) (pos 0) then negsuc 0 else pos 0

-- The state of events/epoll.c: `epoll_fd`, whether `event_buf` is there, and `event_buf_num`.
pub record Epoll : Type 0 where
  pub epoll_fd : ℤ
  pub has_buf : Bool
  pub event_buf_num : ℤ

abbrev pub epoll_initial : Epoll
epoll_initial = record { epoll_fd = negsuc 0; has_buf = false; event_buf_num = pos 0 }

-- pmf_event_epoll_init, given what epoll_create returns and whether malloc finds memory.
unfoldable pub epoll_init : ℤ → Bool → ℤ → Epoll → ℤ × Epoll
epoll_init created malloc_ok max s =
    if ltb_ℤ max (pos 1)
    then (pos 0, s)
    else if ltb_ℤ created (pos 0)
    then (negsuc 0, record s { epoll_fd = created })
    else if not malloc_ok
    then (negsuc 0, record s { epoll_fd = created; has_buf = false })
    else (pos 0, record { epoll_fd = created; has_buf = true; event_buf_num = max })

-- pmf_event_epoll_clean: its result is -1 always; the third component is what it closes.
unfoldable pub epoll_clean : Epoll → ℤ × Epoll × Option ℤ
epoll_clean s = (
  negsuc 0,
  record {
    epoll_fd = negsuc 0;
    has_buf = false;
    event_buf_num = if s.has_buf then negsuc 0 else s.event_buf_num;
  },
  if eqb_ℤ s.epoll_fd (negsuc 0) then none else some s.epoll_fd,
)

-- `fds` of events/select.c: the descriptors in the set. `FD_SETSIZE` is 1024.
abbrev pub fd_setsize : ℕ
fd_setsize = 1024

abbrev pub FdSet : Type 0
FdSet = ℕ → Bool

abbrev pub fd_change : Bool → ℕ → FdSet → FdSet
fd_change value fd fds n = if n == fd then value else fds n

-- pmf_event_select_init, pmf_event_select_add and pmf_event_select_remove.
abbrev pub select_init : FdSet → ℤ × FdSet
select_init fds = (pos 0, λ n. false)

unfoldable pub select_add : ℕ → FdSet → ℤ × FdSet
select_add fd fds =
    if leb fd_setsize fd
    then (negsuc 0, fds)
    else (pos 0, if not (fds fd) then fd_change true fd fds else fds)

-- `none`: there is no test of the descriptor here, and the set is read and written past its end.
unfoldable pub select_remove : ℕ → FdSet → Option (ℤ × FdSet)
select_remove fd fds =
    if leb fd_setsize fd then none else some (pos 0, if fds fd then fd_change false fd fds else fds)

-- `PMF_EVENT_S`, with a number for its callback, and the bits of its flags as a number.
pub record Event : Type 0 where
  pub fd : ℕ
  pub callback : Option ℕ
  pub flags : ℕ
  pub event_type : ℤ

-- pmf_event_proc: the callback that is called, with the type of the event.
unfoldable pub proc : Option Event → List (ℕ × ℤ)
proc none = []
proc (some ev) = elim ev.callback [ none ↦ [] | some callback ↦ (callback, ev.event_type) ∷ [] ]

-- The loop over the queue after `select`, given the set that it leaves.
unfoldable pub proc_ready : FdSet → List (Option Event) → List (ℕ × ℤ)
proc_ready current_fds [] = []
proc_ready current_fds (none ∷ queue) = proc_ready current_fds queue
proc_ready current_fds (some ev ∷ queue) =
    (if current_fds ev.fd then proc (some ev) else []) ++ proc_ready current_fds queue

-- pmf_event_select_wait, given the result of `select`, whether errno is EINTR, and the set.
unfoldable pub select_wait : ℤ → Bool → FdSet → List (Option Event) → ℤ × List (ℕ × ℤ)
select_wait ret interrupted current_fds queue =
    if eqb_ℤ ret (negsuc 0) && not interrupted
    then (negsuc 0, [])
    else (ret, if ltb_ℤ (pos 0) ret then proc_ready current_fds queue else [])
