-- ===== src/Unix/Identity.antt =====
-- Whose the workers and the sockets are.
use pmf.Common.{
  Option, [], arith, eqb_ℤ, false, negsuc, none, pos, refl, some, true, ℤ, ◌∷◌, ◌≡◌, ◌≢◌,
}
use pmf.Text.Chars.{Text}
use pmf.Conf.Records.{WorkerPool}
use pmf.Sockets.Opening.{Answers, owned, set_socket_premissions}
use pmf.Text.Search.{all_digits}
use pmf.Unix.{
  Accounts, Passwd, conf_wp, given, resolve_socket_premissions, socket_mode_of, with_own,
}

is_other : (a : ℤ) → a ≢ negsuc 0 → eqb_ℤ a (negsuc 0) ≡ false
is_other a h = ground arith

premissions-owned :
    (answers : Answers) (wp : WorkerPool) (path : Text)
    → wp.socket_uid ≢ negsuc 0
    → (set_socket_premissions answers wp path).1 ≡ owned path wp.socket_uid wp.socket_gid ∷ []
unfolding set_socket_premissions
premissions-owned answers wp path other = rw (is_other wp.socket_uid other) refl

-- Under root, the user of a pool decides its workers' user and home, and its group decides over the
-- user's group, where both are names that the system knows.
pub conf_wp-named :
    (accounts : Accounts) (wp : WorkerPool) (user group : Text) (pwd : Passwd) (gid : ℤ)
    → accounts.is_root ≡ true
    → given wp.config.user ≡ some user
    → all_digits user ≡ false
    → accounts.getpwnam user ≡ some pwd
    → given wp.config.group ≡ some group
    → all_digits group ≡ false
    → accounts.getgrnam group ≡ some gid
    → conf_wp accounts wp ≡ (
      pos 0,
      record wp {
        set_uid = pwd.pw_uid;
        set_gid = gid;
        user = some pwd.pw_name;
        home = some pwd.pw_dir;
      },
    )
unfolding conf_wp
conf_wp-named accounts wp user group pwd gid root u n a g m b = rw (root, u, n, a, g, m, b) refl

-- A master process that is not root succeeds here, and leaves the ids of the pool's workers alone
-- whatever the configuration says.
pub conf_wp-unprivileged :
    (accounts : Accounts) (wp : WorkerPool)
    → accounts.is_root ≡ false
    → let (code, wp') = conf_wp accounts wp in
      (code ≡ pos 0) × (wp'.set_uid ≡ wp.set_uid) × (wp'.set_gid ≡ wp.set_gid)
unfolding conf_wp
conf_wp-unprivileged accounts wp h =
    let (uid, gid) = by_account accounts.own in rw h (refl, uid, gid)
  where
    by_account :
        (own : Option Passwd)
        → ((with_own wp own).set_uid ≡ wp.set_uid) × ((with_own wp own).set_gid ≡ wp.set_gid)
    by_account none = (refl, refl)
    by_account (some pwd) = (refl, refl)

-- Where neither an owner nor a group is given for a pool's Unix socket, its owner is not changed,
-- and its mode is 0660 or the octal number that is given.
pub set_socket_premissions-unset :
    (accounts : Accounts) (answers : Answers) (wp : WorkerPool) (path : Text)
    → given wp.config.listen_owner ≡ none
    → given wp.config.listen_group ≡ none
    → let (code, wp') = resolve_socket_premissions accounts wp in
      (code ≡ pos 0)
      × (wp'.socket_mode ≡ socket_mode_of (given wp.config.listen_mode))
      × (set_socket_premissions answers wp' path ≡ (pos 0, []))
unfolding resolve_socket_premissions set_socket_premissions
set_socket_premissions-unset accounts answers wp path h k = rw (h, k) (refl, refl, refl)

-- The account of a given owner decides the user of the socket and a given group its group, where
-- the system knows both, and the socket's owner is changed to them.
pub set_socket_premissions-owner :
    (accounts : Accounts) (answers : Answers) (wp : WorkerPool) (path owner group : Text)
    (pwd : Passwd) (gid : ℤ)
    → given wp.config.listen_owner ≡ some owner
    → accounts.getpwnam owner ≡ some pwd
    → given wp.config.listen_group ≡ some group
    → accounts.getgrnam group ≡ some gid
    → pwd.pw_uid ≢ negsuc 0
    → let (code, wp') = resolve_socket_premissions accounts wp in
      (code ≡ pos 0)
      × ((set_socket_premissions answers wp' path).1 ≡ owned path pwd.pw_uid gid ∷ [])
unfolding resolve_socket_premissions
set_socket_premissions-owner accounts answers wp path owner group pwd gid h a k b other =
    rw (h, a, k, b) (refl, premissions-owned answers _ path other)
