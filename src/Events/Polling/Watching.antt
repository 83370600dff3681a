-- ===== src/Events/Polling/Watching.antt =====
-- The descriptors that the two mechanisms watch, over any sequence of additions and removals.
use pmf.Common.{
  ==_ne, ==_refl, All, Bool-cases, List, Option, [], arith, false, if◌then◌else◌, inl, inr, leb,
  negsuc, none, pos, refl, some, sym, true, ℕ, ℕ_discrete, ℤ, ◌<◌, ◌==◌, ◌∷◌, ◌≡◌,
}
use pmf.Events.{Epoll, Event, FdSet, fd_change, fd_setsize, select_add, select_remove}
use pmf.Events.Polling.{
  EpollCtl, EpollEvent, Interest, ctl_add, ctl_del, epoll_add, epoll_remove, request,
}

-- The list with another entry for one descriptor.
abbrev pub register : ℕ → Option EpollEvent → Interest → Interest
register fd entry interest n = if n == fd then entry else interest n

-- What epoll_ctl is documented to do with a valid descriptor and enough memory.
pub record IsEpollCtl (ctl : EpollCtl) (epoll_fd : ℤ) : Type 0 where
  pub adds :
      (fd : ℕ) (e : EpollEvent) (interest : Interest)
      → interest fd ≡ none
      → ctl epoll_fd ctl_add fd e interest ≡ (pos 0, register fd (some e) interest)
  pub refuses :
      (fd : ℕ) (e old : EpollEvent) (interest : Interest)
      → interest fd ≡ some old
      → ctl epoll_fd ctl_add fd e interest ≡ (negsuc 0, interest)
  pub deletes :
      (fd : ℕ) (e old : EpollEvent) (interest : Interest)
      → interest fd ≡ some old
      → ctl epoll_fd ctl_del fd e interest ≡ (pos 0, register fd none interest)
  pub misses :
      (fd : ℕ) (e : EpollEvent) (interest : Interest)
      → interest fd ≡ none
      → ctl epoll_fd ctl_del fd e interest ≡ (negsuc 0, interest)

-- A call of the `add` or the `remove` of a mechanism.
pub data Watch : Type 0 where
  add : Event → Watch
  remove : Event → Watch

abbrev pub event_of : Watch → Event
event_of (add ev) = ev
event_of (remove ev) = ev

-- The two mechanisms, called in the same order; `none`: select writes out of its set.
unfoldable pub select_calls : List Watch → FdSet → Option FdSet
select_calls [] fds = some fds
select_calls (add ev ∷ calls) fds = select_calls calls (select_add ev.fd fds).1
select_calls (remove ev ∷ calls) fds = elim (select_remove ev.fd fds) [
  | none ↦ none
  | some (code, fds') ↦ select_calls calls fds'
]

unfoldable pub epoll_calls : EpollCtl → Epoll → List Watch → Interest → Interest
epoll_calls ctl s [] interest = interest
epoll_calls ctl s (add ev ∷ calls) interest =
    epoll_calls ctl s calls (epoll_add ctl s ev interest).1
epoll_calls ctl s (remove ev ∷ calls) interest =
    epoll_calls ctl s calls (epoll_remove ctl s ev interest).1

-- The set and the list watch the same descriptors, and each entry is the request of an event with
-- that descriptor.
pub record SameWatched (fds : FdSet) (interest : Interest) : Type 0 where
  pub unwatched : (n : ℕ) → fds n ≡ false → interest n ≡ none
  pub watched :
      (n : ℕ) → fds n ≡ true → (ev : Event) × (interest n ≡ some (request ev)) × (ev.fd ≡ n)

added-SameWatched :
    (ev : Event) (fds : FdSet) (interest : Interest)
    → SameWatched fds interest
    → SameWatched (fd_change true ev.fd fds) (register ev.fd (some (request ev)) interest)
added-SameWatched ev fds interest same = record {
  unwatched = λ n h. elim (ℕ_discrete n ev.fd) [
    | yes e ↦ absurd (ground arith)
    | no ne ↦ let off : fds n ≡ false = ground arith in rw (==_ne n ev.fd ne) (same.unwatched n off)
  ];
  watched = λ n h. elim (ℕ_discrete n ev.fd) [
    | yes e ↦ (ev, rw (e, ==_refl ev.fd) refl, sym e)
    | no ne ↦ let on : fds n ≡ true = ground arith in rw (==_ne n ev.fd ne) (same.watched n on)
  ];
}

removed-SameWatched :
    (fd : ℕ) (fds : FdSet) (interest : Interest)
    → SameWatched fds interest
    → SameWatched (fd_change false fd fds) (register fd none interest)
removed-SameWatched fd fds interest same = record {
  unwatched = λ n h. elim (ℕ_discrete n fd) [
    | yes e ↦ rw (e, ==_refl fd) refl
    | no ne ↦ let off : fds n ≡ false = ground arith in rw (==_ne n fd ne) (same.unwatched n off)
  ];
  watched = λ n h. elim (ℕ_discrete n fd) [
    | yes e ↦ absurd (ground arith)
    | no ne ↦ let on : fds n ≡ true = ground arith in rw (==_ne n fd ne) (same.watched n on)
  ];
}

module _ (ctl : EpollCtl) (s : Epoll) (is_ctl : IsEpollCtl ctl s.epoll_fd) where
  add-SameWatched :
      (ev : Event) (fds : FdSet) (interest : Interest)
      → ev.fd < fd_setsize
      → SameWatched fds interest
      → SameWatched (select_add ev.fd fds).1 (epoll_add ctl s ev interest).1
        × ((epoll_add ctl s ev interest).0 ≡ (if fds ev.fd then negsuc 0 else pos 0))
  unfolding select_add
  add-SameWatched ev fds interest small same =
      let fits : leb fd_setsize ev.fd ≡ false = ground arith in
      elim (Bool-cases (fds ev.fd)) [
        | inl w ↦
            let (old, e, k) = same.watched ev.fd w in
            rw (w, fits, is_ctl.refuses ev.fd (request ev) (request old) interest e) (same, refl)
        | inr n ↦
            rw (n, fits, is_ctl.adds ev.fd (request ev) interest (same.unwatched ev.fd n))
              (added-SameWatched ev fds interest same, refl)
      ]

  remove-SameWatched :
      (ev : Event) (fds : FdSet) (interest : Interest)
      → ev.fd < fd_setsize
      → SameWatched fds interest
      → (fds' : FdSet) × (select_remove ev.fd fds ≡ some (pos 0, fds'))
        × SameWatched fds' (epoll_remove ctl s ev interest).1
        × ((epoll_remove ctl s ev interest).0 ≡ (if fds ev.fd then pos 0 else negsuc 0))
  unfolding select_remove
  remove-SameWatched ev fds interest small same =
      let fits : leb fd_setsize ev.fd ≡ false = ground arith in
      elim (Bool-cases (fds ev.fd)) [
        | inl w ↦
            let (old, e, k) = same.watched ev.fd w in
            rw (w, fits, is_ctl.deletes ev.fd (request ev) (request old) interest e)
              (fd_change false ev.fd fds, refl, removed-SameWatched ev.fd fds interest same, refl)
        | inr n ↦
            rw (n, fits, is_ctl.misses ev.fd (request ev) interest (same.unwatched ev.fd n))
              (fds, refl, same, refl)
      ]

  -- Where epoll_ctl does what is documented, and select and epoll watch the same descriptors at
  -- first, they do so after any sequence of additions and removals of events with descriptors that
  -- fit into the set of select, and none of these makes select write out of it.
  pub calls-SameWatched :
      (calls : List Watch) (fds : FdSet) (interest : Interest)
      → All (λ call. (event_of call).fd < fd_setsize) calls
      → SameWatched fds interest
      → (fds' : FdSet) × (select_calls calls fds ≡ some fds')
        × SameWatched fds' (epoll_calls ctl s calls interest)
  unfolding select_calls epoll_calls
  calls-SameWatched [] fds interest small same = (fds, refl, same)
  calls-SameWatched (add ev ∷ calls) fds interest small same =
      calls-SameWatched calls (select_add ev.fd fds).1 (epoll_add ctl s ev interest).1 small.1
        (add-SameWatched ev fds interest small.0 same).0
  calls-SameWatched (remove ev ∷ calls) fds interest small same =
      let (fds', e, same', code) = remove-SameWatched ev fds interest small.0 same in
      rw (e, select_calls)
        (calls-SameWatched calls fds' (epoll_remove ctl s ev interest).1 small.1 same')

  -- Where the two mechanisms watch the same descriptors, the addition of an event with a descriptor
  -- that fits is refused by epoll exactly if the descriptor is watched, and its removal exactly if
  -- it is not, while select returns 0 for each.
  pub watch-codes :
      (ev : Event) (fds : FdSet) (interest : Interest)
      → ev.fd < fd_setsize
      → SameWatched fds interest
      → ((epoll_add ctl s ev interest).0 ≡ (if fds ev.fd then negsuc 0 else pos 0))
        × ((epoll_remove ctl s ev interest).0 ≡ (if fds ev.fd then pos 0 else negsuc 0))
        × ((select_add ev.fd fds).0 ≡ pos 0)
        × ((fds' : FdSet) × (select_remove ev.fd fds ≡ some (pos 0, fds')))
  unfolding select_add
  watch-codes ev fds interest small same =
      let fits : leb fd_setsize ev.fd ≡ false = ground arith in
      let (fds', e, same', code) = remove-SameWatched ev fds interest small same in
      ((add-SameWatched ev fds interest small same).1, code, rw fits refl, (fds', e))
