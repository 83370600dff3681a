-- ===== src/Sockets/Key.antt =====
-- pmf_get_in_addr and pmf_get_in_port of pmf_sockets.c, and the key that pmf_sockets_hash_op makes
-- of an address. What inet_ntop prints is an argument.
pub mod Same
use pmf.Common.{
  Bool, Option, if◌then◌else◌, none, not, some, ℕ, ◌%◌, ◌*◌, ◌++◌, ◌+◌, ◌/◌, ◌==◌, ◌∷◌,
}
use pmf.Text.Chars.{Text}
use pmf.Text.Decimal.{show_nat}
use pmf.Sockets.Address.{pmf_af_inet, pmf_af_unix}

-- `struct sockaddr` with its family: the address and the port as they lie in memory, or the path.
pub data SockAddr : Type 0 where
  in4 : ℕ → ℕ → SockAddr
  in6 : ℕ → ℕ → SockAddr
  un : Text → SockAddr

-- inet_ntop, for the two families.
pub record Ntop : Type 0 where
  pub four : ℕ → Text
  pub six : ℕ → Text

-- ntohs, where the two bytes of a word lie in the other order.
abbrev pub ntohs : ℕ → ℕ
ntohs w = w % 256 * 256 + w / 256 % 256

-- pmf_get_in_addr, printed by inet_ntop, and pmf_get_in_port. A path is not read as an address.
abbrev pub in_text : Ntop → SockAddr → Option Text
in_text ntop (in4 sin_addr sin_port) = some (ntop.four sin_addr)
in_text ntop (in6 sin6_addr sin6_port) = some (ntop.six sin6_addr)
in_text ntop (un sun_path) = none

abbrev pub in_port : SockAddr → ℕ
in_port (in4 sin_addr sin_port) = ntohs sin_port
in_port (in6 sin6_addr sin6_port) = ntohs sin6_port
in_port (un sun_path) = 0

abbrev pub print_in : Option Text → ℕ → Option Text
print_in none port = none
print_in (some address) port = some (address ++ b':' ∷ show_nat port)

abbrev pub path_of : SockAddr → Option Text
path_of (un sun_path) = some sun_path
path_of sa = none

-- The first part of pmf_sockets_hash_op; `none`: malloc fails, or the type is neither, or it is not
-- that of the address.
unfoldable pub key_of : Ntop → Bool → ℕ → SockAddr → Option Text
key_of ntop malloc_ok type sa =
    if not malloc_ok
    then none
    else if type == pmf_af_inet
    then print_in (in_text ntop sa) (in_port sa)
    else if type == pmf_af_unix
    then path_of sa
    else none
