-- ===== src/Unix.antt =====
-- pmf_unix.c: the user and the group of a pool's workers, and the owner and the mode of its Unix
-- socket. What the system knows of its users and groups is an argument; strdup finds memory.
pub mod Identity
pub mod Start
use pmf.Common.{
  Bool, Option, [], if◌then◌else◌, ltb_ℤ, negsuc, none, pos, some, wrap_int, ℕ, ℤ, ◌∷◌,
}
use pmf.Text.Chars.{Text}
use pmf.Text.Search.{all_digits}
use pmf.Text.Number.{strtoul}
use pmf.Conf.Records.{WorkerPool}

-- `struct passwd`.
pub record Passwd : Type 0 where
  pub pw_name : Text
  pub pw_uid : ℤ
  pub pw_gid : ℤ
  pub pw_dir : Text

-- `!geteuid()`, `getpwnam`, the `gr_gid` of `getgrnam`, and `getpwuid(getuid())`.
pub record Accounts : Type 0 where
  pub is_root : Bool
  pub getpwnam : Text → Option Passwd
  pub getgrnam : Text → Option ℤ
  pub own : Option Passwd

-- `strtoul` stored into an `int`.
abbrev pub id_of : ℕ → Text → ℤ
id_of base s = wrap_int (pos (strtoul base s))

-- An option that is NULL or empty is not set.
abbrev pub given : Option Text → Option Text
given none = none
given (some []) = none
given (some (c ∷ s)) = some (c ∷ s)

abbrev pub with_account : WorkerPool → Option Passwd → ℤ × WorkerPool
with_account wp none = (negsuc 0, wp)
with_account wp (some pwd) = (
  pos 0,
  record wp {
    set_uid = pwd.pw_uid;
    set_gid = pwd.pw_gid;
    user = some pwd.pw_name;
    home = some pwd.pw_dir;
  },
)

abbrev pub with_group : WorkerPool → Option ℤ → ℤ × WorkerPool
with_group wp none = (negsuc 0, wp)
with_group wp (some gid) = (pos 0, record wp { set_gid = gid })

abbrev pub conf_user : Accounts → Option Text → WorkerPool → ℤ × WorkerPool
conf_user accounts none wp = (pos 0, wp)
conf_user accounts (some user) wp =
    if all_digits user
    then (pos 0, record wp { set_uid = id_of 10 user })
    else with_account wp (accounts.getpwnam user)

abbrev pub conf_group : Accounts → Option Text → WorkerPool → ℤ × WorkerPool
conf_group accounts none wp = (pos 0, wp)
conf_group accounts (some group) wp =
    if all_digits group
    then (pos 0, record wp { set_gid = id_of 10 group })
    else with_group wp (accounts.getgrnam group)

abbrev pub with_own : WorkerPool → Option Passwd → WorkerPool
with_own wp none = wp
with_own wp (some pwd) = record wp { user = some pwd.pw_name; home = some pwd.pw_dir }

-- `return -1` where the part before returned it.
abbrev pub then_do : ℤ × WorkerPool → (WorkerPool → ℤ × WorkerPool) → ℤ × WorkerPool
then_do (code, wp) next = if ltb_ℤ code (pos 0) then (negsuc 0, wp) else next wp

-- pmf_unix_conf_wp.
unfoldable pub conf_wp : Accounts → WorkerPool → ℤ × WorkerPool
conf_wp accounts wp =
    if accounts.is_root
    then then_do (conf_user accounts (given wp.config.user) wp)
        (conf_group accounts (given wp.config.group))
    else (pos 0, with_own wp accounts.own)

abbrev pub owned_by : WorkerPool → Option Passwd → ℤ × WorkerPool
owned_by wp none = (negsuc 0, wp)
owned_by wp (some pwd) = (pos 0, record wp { socket_uid = pwd.pw_uid; socket_gid = pwd.pw_gid })

abbrev pub grouped_by : WorkerPool → Option ℤ → ℤ × WorkerPool
grouped_by wp none = (negsuc 0, wp)
grouped_by wp (some gid) = (pos 0, record wp { socket_gid = gid })

abbrev pub with_owner : Accounts → Option Text → WorkerPool → ℤ × WorkerPool
with_owner accounts none wp = (pos 0, wp)
with_owner accounts (some owner) wp = owned_by wp (accounts.getpwnam owner)

abbrev pub with_listen_group : Accounts → Option Text → WorkerPool → ℤ × WorkerPool
with_listen_group accounts none wp = (pos 0, wp)
with_listen_group accounts (some group) wp = grouped_by wp (accounts.getgrnam group)

-- 0660, or the octal number that is given.
abbrev pub socket_mode_of : Option Text → ℤ
socket_mode_of none = pos 432
socket_mode_of (some mode) = id_of 8 mode

-- pmf_unix_resolve_socket_premissions.
unfoldable pub resolve_socket_premissions : Accounts → WorkerPool → ℤ × WorkerPool
resolve_socket_premissions accounts wp =
    let unset : WorkerPool = record wp {
      socket_uid = negsuc 0;
      socket_gid = negsuc 0;
      socket_mode = socket_mode_of (given wp.config.listen_mode);
    } in
    then_do (with_owner accounts (given wp.config.listen_owner) unset)
      (with_listen_group accounts (given wp.config.listen_group))
