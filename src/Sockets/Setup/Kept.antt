-- ===== src/Sockets/Setup/Kept.antt =====
-- What a round of pmf_sockets_init_main leaves of its pool.
use pmf.Common.{Option, arith, eqb_ℤ, false, negsuc, none, refl, some, subst, ℤ, ◌∙◌, ◌≡◌, ◌≢◌}
use pmf.Outcome.{done, done-inj, if-done}
use pmf.Conf.Records.{WorkerPool}
use pmf.Conf.Load.Passed.{SameSetting, SameSetting-trans}
use pmf.Log.Level.{LogState}
use pmf.Text.Chars.{Text}
use pmf.Sockets.Table.{Table}
use pmf.Unix.Start.Pools.{then_do-keeps}
use pmf.Unix.{
  Accounts, Passwd, given, grouped_by, owned_by, resolve_socket_premissions, socket_mode_of,
  with_listen_group, with_owner,
}
use pmf.Sockets.Setup.{Round, has_socket}

-- The pool of a round has a socket, and only its socket and the owner of that have changed.
abbrev pub GotSocket : WorkerPool → WorkerPool → Type 0
GotSocket wp w =
    SameSetting wp w × (w.listening_socket_fd ≢ negsuc 0) × (w.scoreboard ≡ wp.scoreboard)

pub fd_ne : (fd : ℤ) → eqb_ℤ fd (negsuc 0) ≡ false → fd ≢ negsuc 0
fd_ne fd h e = ground arith

pub has_socket-done :
    (wp : WorkerPool) (m : Option (ℤ × Table × LogState)) {r : Round}
    → has_socket wp m ≡ done r
    → GotSocket wp r.wp
has_socket-done wp none h = absurd (cc)
has_socket-done wp (some (sock, t, log)) {r} h =
    let (good, same) = if-done (eqb_ℤ sock (negsuc 0)) _ _ h in
    let is_r =
      done-inj (record { wp = record wp { listening_socket_fd = sock }; table = t; log = log }) r
        same in
    subst (λ x. GotSocket wp x.wp) is_r ((refl, refl), fd_ne sock good, refl)

-- Only what belongs to the socket has changed.
abbrev pub Untouched : WorkerPool → WorkerPool → Type 0
Untouched wp w = SameSetting wp w × (w.scoreboard ≡ wp.scoreboard)

pub Untouched-trans : (p q r : WorkerPool) → Untouched p q → Untouched q r → Untouched p r
Untouched-trans p q r h k = (SameSetting-trans p q r h.0 k.0, k.1 ∙ h.1)

pub with_owner-keeps :
    (accounts : Accounts) (owner : Option Text) (wp : WorkerPool)
    → Untouched wp (with_owner accounts owner wp).1
with_owner-keeps accounts none wp = ((refl, refl), refl)
with_owner-keeps accounts (some owner) wp = owned (accounts.getpwnam owner)
  where
    owned : (m : Option Passwd) → Untouched wp (owned_by wp m).1
    owned none = ((refl, refl), refl)
    owned (some pwd) = ((refl, refl), refl)

pub with_listen_group-keeps :
    (accounts : Accounts) (group : Option Text) (wp : WorkerPool)
    → Untouched wp (with_listen_group accounts group wp).1
with_listen_group-keeps accounts none wp = ((refl, refl), refl)
with_listen_group-keeps accounts (some group) wp = grouped (accounts.getgrnam group)
  where
    grouped : (m : Option ℤ) → Untouched wp (grouped_by wp m).1
    grouped none = ((refl, refl), refl)
    grouped (some gid) = ((refl, refl), refl)

pub premissions-keep :
    (accounts : Accounts) (wp : WorkerPool)
    → Untouched wp (resolve_socket_premissions accounts wp).1
unfolding resolve_socket_premissions
premissions-keep accounts wp =
    let unset : WorkerPool = record wp {
      socket_uid = negsuc 0;
      socket_gid = negsuc 0;
      socket_mode = socket_mode_of (given wp.config.listen_mode);
    } in
    Untouched-trans wp unset (resolve_socket_premissions accounts wp).1 ((refl, refl), refl)
      (then_do-keeps Untouched unset (with_owner accounts (given wp.config.listen_owner) unset)
        (with_listen_group accounts (given wp.config.listen_group)) Untouched-trans
        (with_owner-keeps accounts (given wp.config.listen_owner) unset)
        (with_listen_group-keeps accounts (given wp.config.listen_group)))

pub GotSocket-after : (p q r : WorkerPool) → Untouched p q → GotSocket q r → GotSocket p r
GotSocket-after p q r h k = (SameSetting-trans p q r h.0 k.0, k.1, k.2 ∙ h.1)
