-- ===== src/Events/Polling.antt =====
-- events/epoll.c: the calls of pmf_event_epoll_wait, pmf_event_epoll_add and
-- pmf_event_epoll_remove. The kernel's list of interest is the state of a parameter that stands for
-- epoll_ctl.
pub mod Waiting
pub mod Watching
use pmf.Common.{
  Bool, List, Option, [], drop, eqb_ℤ, if◌then◌else◌, leb, length, negsuc, none, not, pos, pos_part,
  replicate, some, suc, zero, ℕ, ℤ, ◌%◌, ◌&&◌, ◌++◌, ◌+◌, ◌^◌, ◌∷◌,
}
use pmf.Events.{Epoll, Event, proc}

-- `struct epoll_event`: a set of bits, and the event that `data.ptr` points at.
pub record EpollEvent : Type 0 where
  pub events : ℕ
  pub ptr : Option Event

abbrev pub zero_event : EpollEvent
zero_event = record { events = 0; ptr = none }

-- What epoll_wait answers: its result, whether errno is EINTR, and what it writes into the buffer.
pub record WaitAnswer : Type 0 where
  pub ret : ℤ
  pub interrupted : Bool
  pub filled : List EpollEvent

-- The loop over the buffer, for so many rounds: what it calls, or `none` where it leaves the
-- buffer.
unfoldable pub proc_buf : ℕ → List EpollEvent → Option (List (ℕ × ℤ))
proc_buf zero event_buf = some []
proc_buf (suc rounds) [] = none
proc_buf (suc rounds) (e ∷ event_buf) =
    let later = proc_buf rounds event_buf in
    elim e.ptr [
      | none ↦ later
      | some ev ↦ elim later [ none ↦ none | some calls ↦ some (proc (some ev) ++ calls) ]
    ]

-- The buffer after the memset: `none` where there is no buffer but a size for it.
abbrev pub clear_buf : Epoll → Option (List EpollEvent)
clear_buf s =
    if s.has_buf
    then some (replicate (pos_part s.event_buf_num) zero_event)
    else if eqb_ℤ s.event_buf_num (pos 0)
    then some []
    else none

abbrev pub with_ret : ℤ → Option (List (ℕ × ℤ)) → Option (ℤ × List (ℕ × ℤ))
with_ret ret none = none
with_ret ret (some calls) = some (ret, calls)

-- pmf_event_epoll_wait; `none`: it writes or reads out of the buffer.
unfoldable pub epoll_wait : Epoll → WaitAnswer → Option (ℤ × List (ℕ × ℤ))
epoll_wait s answer = elim (clear_buf s) [
  | none ↦ none
  | some zeros ↦
      if eqb_ℤ answer.ret (negsuc 0) && not answer.interrupted
      then some (negsuc 0, [])
      else with_ret answer.ret
          (proc_buf (pos_part answer.ret) (answer.filled ++ drop (length answer.filled) zeros))
]

-- EPOLL_CTL_ADD and EPOLL_CTL_DEL.
pub data CtlOp : Type 0 where
  ctl_add : CtlOp
  ctl_del : CtlOp

-- The kernel's list: what is registered for a descriptor.
abbrev pub Interest : Type 0
Interest = ℕ → Option EpollEvent

-- epoll_ctl: its result, and the list after the call.
abbrev pub EpollCtl : Type 0
EpollCtl = ℤ → CtlOp → ℕ → EpollEvent → Interest → ℤ × Interest

-- EPOLLIN is bit 0, EPOLLET is bit 31, and PMF_EV_EDGE_TRIGGER is bit 1 of the flags.
abbrev pub event_bits : Event → ℕ
event_bits ev = if leb 2 (ev.flags % 4) then 1 + 2 ^ 31 else 1

abbrev pub request : Event → EpollEvent
request ev = record { events = event_bits ev; ptr = some ev }

-- The code of the call, from the result of epoll_ctl.
abbrev pub ctl_code : ℤ × Interest → ℤ × Interest
ctl_code (ret, interest) = (if eqb_ℤ (negsuc 0) ret then negsuc 0 else pos 0, interest)

abbrev pub epoll_add : EpollCtl → Epoll → Event → Interest → ℤ × Interest
epoll_add ctl s ev interest = ctl_code (ctl s.epoll_fd ctl_add ev.fd (request ev) interest)

abbrev pub epoll_remove : EpollCtl → Epoll → Event → Interest → ℤ × Interest
epoll_remove ctl s ev interest = ctl_code (ctl s.epoll_fd ctl_del ev.fd (request ev) interest)
