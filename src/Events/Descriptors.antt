-- ===== src/Events/Descriptors.antt =====
-- The descriptor set of events/select.c, and the state of events/epoll.c.
use pmf.Common.{
  Bool, ap, arith, dec_lt, false, if◌then◌else◌, inl, inr, leb, ltb, max, negsuc, pos, refl, some,
  true, ℕ, ℕ_discrete, ℤ, ◌&&◌, ◌<◌, ◌==◌, ◌≡◌, ◌≤ℤ◌, ◌≤◌, ◌⊎◌,
}
use pmf.Events.{
  FdSet, epoll_clean, epoll_init, epoll_initial, fd_change, fd_setsize, select_add, select_remove,
}

select_remove-in :
    (fd n : ℕ) (fds : FdSet)
    → fd < fd_setsize
    → (without_fd : FdSet) × (select_remove fd fds ≡ some (pos 0, without_fd))
      × (without_fd n ≡ (if n == fd then false else fds n))
unfolding select_remove
select_remove-in fd n fds h =
    let small : leb fd_setsize fd ≡ false = ground arith in
    (if fds fd then fd_change false fd fds else fds, rw small refl, left_out (ℕ_discrete n fd))
  where
    left_out :
        Dec (n ≡ fd)
        → (if fds fd then fd_change false fd fds else fds) n ≡ (if n == fd then false else fds n)
    left_out (yes e) = let same : fds n ≡ fds fd = ap fds e in ground arith
    left_out (no ne) = ground arith

-- Adding a descriptor that fits puts it into the set and leaves the others as they are; one that
-- does not fit is refused and changes nothing. Removing one that fits takes it out and leaves the
-- others.
pub select-add_remove :
    (fd n : ℕ) (fds : FdSet)
    → let (added, with_fd) = select_add fd fds in
      (added ≡ (if ltb fd fd_setsize then pos 0 else negsuc 0))
      × (with_fd n ≡ (if n == fd && ltb fd fd_setsize then true else fds n))
      × ((fd_setsize ≤ fd)
          ⊎ ((without_fd : FdSet) × (select_remove fd fds ≡ some (pos 0, without_fd))
              × (without_fd n ≡ (if n == fd then false else fds n))))
unfolding select_add
select-add_remove fd n fds = elim (ℕ_discrete n fd) [
  | yes e ↦ let same : fds n ≡ fds fd = ap fds e in (ground arith, ground arith, removal)
  | no ne ↦ (ground arith, ground arith, removal)
]
  where
    removal :
        (fd_setsize ≤ fd)
        ⊎ ((without_fd : FdSet) × (select_remove fd fds ≡ some (pos 0, without_fd))
            × (without_fd n ≡ (if n == fd then false else fds n)))
    removal = elim (dec_lt fd fd_setsize) [
      | yes h ↦ inr (select_remove-in fd n fds h)
      | no h ↦ inl (omega arith)
    ]

-- Cleaning after an initialisation closes the descriptor that was opened, also where the buffer
-- could not be allocated, and leaves the module with none.
pub epoll_clean-init :
    (created : ℤ) (malloc_ok : Bool) (max : ℤ)
    → pos 1 ≤ℤ max
    → pos 0 ≤ℤ created
    → let (code, s) = epoll_init created malloc_ok max epoll_initial in
      let (_, s', closed) = epoll_clean s in
      (code ≡ (if malloc_ok then pos 0 else negsuc 0))
      × (closed ≡ some created)
      × (s'.epoll_fd ≡ negsuc 0)
      × (s'.has_buf ≡ false)
unfolding epoll_init epoll_clean
epoll_clean-init created malloc_ok max h k = ground arith
