-- ===== src/Sockets/Opening.antt =====
-- pmf_socket_unix_test_connect and pmf_sockets_new_listening_socket of pmf_sockets.c, and
-- pmf_unix_set_socket_premissions of pmf_unix.c, as the calls that they make of the system. What
-- the system answers is an argument.
pub mod Effects
pub mod Cleanup
use pmf.Common.{
  Bool, List, [], eqb_ℤ, false, if◌then◌else◌, ltb_ℤ, negsuc, not, pos, to_u32, true, ℕ, ℤ, ◌%◌,
  ◌*◌, ◌++◌, ◌+◌, ◌-◌, ◌/◌, ◌==◌, ◌||◌, ◌∷◌,
}
use pmf.Text.Chars.{Text}
use pmf.Conf.Records.{WorkerPool}
use pmf.Sockets.Address.{pmf_af_unix}

-- The answers: of `socket`, of `socket` and `connect` in the test connection, of `umask` (the mask
-- before), and of `bind`, `chown` and `listen`.
pub record Answers : Type 0 where
  pub sock : ℤ
  pub test_sock : ℤ
  pub connect : ℤ
  pub umask : ℕ
  pub bind : ℤ
  pub chown : ℤ
  pub listen : ℤ

-- The calls that change something outside the program. `opened` is a `socket` that succeeded.
pub data Call : Type 0 where
  opened : ℤ → Call
  closed : ℤ → Call
  unlinked : Text → Call
  masked : ℕ → Call
  bound : ℤ → Call
  owned : Text → ℤ → ℤ → Call
  listened : ℤ → ℤ → Call

-- The result of a function, with its calls in order.
abbrev pub Run : Type 0
Run = ℤ × List Call

abbrev pub after : List Call → Run → Run
after calls (result, rest) = (result, calls ++ rest)

-- pmf_socket_unix_test_connect on an address, given whether its family is AF_UNIX.
unfoldable pub test_connect : Answers → Bool → Run
test_connect answers false = (negsuc 0, [])
test_connect answers true =
    if ltb_ℤ answers.test_sock (pos 0)
    then (negsuc 0, [])
    else if eqb_ℤ answers.connect (negsuc 0)
    then (negsuc 0, opened answers.test_sock ∷ closed answers.test_sock ∷ [])
    else (pos 0, opened answers.test_sock ∷ closed answers.test_sock ∷ [])

-- pmf_unix_set_socket_premissions.
unfoldable pub set_socket_premissions : Answers → WorkerPool → Text → Run
set_socket_premissions answers wp path =
    if not (eqb_ℤ wp.socket_uid (negsuc 0)) || not (eqb_ℤ wp.socket_gid (negsuc 0))
    then (
      if ltb_ℤ answers.chown (pos 0) then negsuc 0 else pos 0,
      owned path wp.socket_uid wp.socket_gid ∷ [],
    )
    else (pos 0, [])

-- `0777 ^ mode`, of 32 bits.
abbrev pub mask_of : ℤ → ℕ
mask_of mode = let bits : ℕ = to_u32 mode in bits / 512 * 512 + (511 - bits % 512)

-- The end of the function, from `listen` on.
unfoldable pub start_listening : Answers → WorkerPool → Run
start_listening answers wp =
    if ltb_ℤ answers.listen (pos 0)
    then (negsuc 0, closed answers.sock ∷ [])
    else (answers.sock, listened answers.sock wp.config.listen_backlog ∷ [])

-- After `pmf_unix_set_socket_premissions`, given its result.
abbrev pub with_premissions : Answers → WorkerPool → Run → Run
with_premissions answers wp (code, calls) = after calls (
    if ltb_ℤ code (pos 0) then (negsuc 0, closed answers.sock ∷ []) else start_listening answers wp)

-- From `bind` on, for a Unix socket, whose mask was changed before, and for an Internet socket.
unfoldable pub bind_unix : Answers → WorkerPool → Text → Run
bind_unix answers wp path =
    if ltb_ℤ answers.bind (pos 0)
    then (negsuc 0, masked answers.umask ∷ closed answers.sock ∷ [])
    else after (bound answers.sock ∷ masked answers.umask ∷ [])
        (with_premissions answers wp (set_socket_premissions answers wp path))

unfoldable pub bind_inet : Answers → WorkerPool → Run
bind_inet answers wp =
    if ltb_ℤ answers.bind (pos 0)
    then (negsuc 0, closed answers.sock ∷ [])
    else after (bound answers.sock ∷ []) (start_listening answers wp)

-- After the test connection of a Unix socket, given its result.
abbrev pub with_test : Answers → WorkerPool → Text → Run → Run
with_test answers wp path (code, calls) = after calls (
    if eqb_ℤ code (pos 0)
    then (negsuc 0, closed answers.sock ∷ [])
    else after (unlinked path ∷ masked (mask_of wp.socket_mode) ∷ []) (bind_unix answers wp path))

-- pmf_sockets_new_listening_socket, given whether the address's family is AF_UNIX and its path.
unfoldable pub new_listening_socket : Answers → WorkerPool → Bool → Text → Run
new_listening_socket answers wp af_unix path =
    if ltb_ℤ answers.sock (pos 0)
    then (negsuc 0, [])
    else after (opened answers.sock ∷ []) (
        if wp.listen_address_domain == pmf_af_unix
        then with_test answers wp path (test_connect answers af_unix)
        else bind_inet answers wp)
