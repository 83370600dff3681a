-- ===== src/Sockets/Binding.antt =====
-- pmf_socket_af_inet_listening_socket, pmf_socket_af_inet_socket_by_addr and
-- pmf_socket_af_unix_listening_socket of pmf_sockets.c.
pub mod Reading
pub mod Quiet
use pmf.Common.{
  Bool, List, Option, [], drop, eqb_ℤ, if◌then◌else◌, length, ltb, ltb_ℤ, negsuc, none, pos, some,
  ℕ, ℤ, ◌&&◌, ◌==◌, ◌∷◌,
}
use pmf.Text.Chars.{Text, text}
use pmf.Text.Search.{all_digits, split_last}
use pmf.Text.Number.{atoi}
use pmf.Conf.Values.{plog_alert, split_suffix}
use pmf.Log.Level.{LogState, set_level}
use pmf.Sockets.Address.{pmf_af_inet, pmf_af_unix}
use pmf.Sockets.Table.{Table, get_listening_socket}

-- What a listen address asks for: nothing that can be used, a port on any address, or a port on the
-- addresses of a host.
pub data Target : Type 0 where
  invalid_port : Target
  any_address : Text → Target
  host : Text → Text → Target

-- `addr` without its brackets, given its first character and what stands before and at its end.
abbrev pub unbracketed : ℕ → Text → Option (Text × ℕ) → Text
unbracketed c s none = c ∷ s
unbracketed c s (some (front, last)) = if (c == b'[') && (last == b']') then drop 1 front else c ∷ s

unfoldable pub strip_brackets : Text → Text
unfolding split_suffix
strip_brackets [] = []
strip_brackets (c ∷ s) = unbracketed c s (split_suffix (c ∷ s))

-- Given what stands around the last colon, if there is one.
abbrev pub target_of : Text → Option (Text × Text) → Target
target_of address (some (addr, port_str)) =
    if eqb_ℤ (atoi port_str) (pos 0) then invalid_port else host (strip_brackets addr) port_str
target_of address none =
    if all_digits address
    then if eqb_ℤ (atoi address) (pos 0) then invalid_port else any_address address
    else invalid_port

unfoldable pub target : Text → Target
target address = target_of address (split_last b':' address)

-- What getaddrinfo answers for a host and a port: for each address the key that pmf_sockets_hash_op
-- prints from it, and the descriptor that pmf_sockets_new_listening_socket would return for it.
abbrev pub Resolver : Type 0
Resolver = Text → Text → Option (List (Option Text × ℤ))

abbrev pub then_from : Option (ℤ × Table) → (ℤ → Table → Option (ℤ × Table)) → Option (ℤ × Table)
then_from none next = none
then_from (some (sock, t)) next = next sock t

-- One round: an address is tried only while there is no socket.
abbrev pub try_address : Bool → Option Text → ℤ → ℤ → Table → Option (ℤ × Table)
try_address realloc_ok key new_sock sock t =
    if ltb_ℤ sock (pos 0)
    then get_listening_socket realloc_ok new_sock pmf_af_inet key t
    else some (sock, t)

unfoldable pub addresses_loop : Bool → List (Option Text × ℤ) → ℤ → Table → Option (ℤ × Table)
addresses_loop realloc_ok [] sock t = some (sock, t)
addresses_loop realloc_ok ((key, new_sock) ∷ rest) sock t =
    then_from (try_address realloc_ok key new_sock sock t) (addresses_loop realloc_ok rest)

abbrev pub over_addresses : Bool → Option (List (Option Text × ℤ)) → Table → Option (ℤ × Table)
over_addresses realloc_ok none t = some (negsuc 0, t)
over_addresses realloc_ok (some addresses) t = addresses_loop realloc_ok addresses (negsuc 0) t

unfoldable pub socket_by_addr : Bool → Resolver → Text → Text → Table → Option (ℤ × Table)
socket_by_addr realloc_ok resolver addr port t = over_addresses realloc_ok (resolver addr port) t

-- The table with the log's state.
abbrev pub with_log : LogState → Option (ℤ × Table) → Option (ℤ × Table × LogState)
with_log s none = none
with_log s (some (sock, t)) = some (sock, t, s)

-- The second attempt, after the level was set back.
abbrev pub retry_ipv4 : Bool → Resolver → Text → ℤ → Table → Option (ℤ × Table)
retry_ipv4 realloc_ok resolver port sock t =
    if ltb_ℤ sock (pos 0)
    then socket_by_addr realloc_ok resolver (text "0.0.0.0") port t
    else some (sock, t)

abbrev pub bind_target : Bool → Resolver → Target → Table → LogState → Option (ℤ × Table × LogState)
bind_target realloc_ok resolver invalid_port t s = some (negsuc 0, t, s)
bind_target realloc_ok resolver (host addr port) t s =
    with_log s (socket_by_addr realloc_ok resolver addr port t)
bind_target realloc_ok resolver (any_address port) t s =
    let (old_level, quiet) = set_level plog_alert s in
    let (_, restored) = set_level old_level quiet in
    with_log restored (
      then_from (socket_by_addr realloc_ok resolver (text "::") port t)
        (retry_ipv4 realloc_ok resolver port))

unfoldable pub af_inet_listening_socket :
    Bool → Resolver → Text → Table → LogState → Option (ℤ × Table × LogState)
af_inet_listening_socket realloc_ok resolver address t s =
    bind_target realloc_ok resolver (target address) t s

-- `sizeof(sun_path)`.
abbrev pub sun_path_size : ℕ
sun_path_size = 108

-- `strncpy` writes no NUL where the address fills the field; the key is then read past its end.
unfoldable pub af_unix_listening_socket : Bool → ℤ → Text → Table → Option (ℤ × Table)
af_unix_listening_socket realloc_ok new_sock address t =
    if ltb (length address) sun_path_size
    then get_listening_socket realloc_ok new_sock pmf_af_unix (some address) t
    else none
