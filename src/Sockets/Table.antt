-- ===== src/Sockets/Table.antt =====
-- The table of listening sockets of pmf_sockets.c: `struct listening_socket_s`, `sockets_list` and
-- pmf_sockets_hash_op. The key of an address, which the operation prints from it (Sockets/Key), is
-- an argument.
pub mod Lookup
pub mod Store
use pmf.Common.{
  Bool, List, Option, [], if◌then◌else◌, leb_ℤ, negsuc, none, pos, set, some, take, wrap_int, ℕ, ℤ,
  ◌+ℤ◌, ◌+◌, ◌∷◌,
}
use pmf.Text.Chars.{Text, str_eq}
use pmf.Array.{Array, push}

-- `key` is `none` while it is NULL, as in a member that calloc has zeroed.
pub record ListeningSocket : Type 0 where
  pub refcount : ℤ
  pub sock : ℤ
  pub type : ℕ
  pub key : Option Text

abbrev pub zeroed : ListeningSocket
zeroed = record { refcount = pos 0; sock = pos 0; type = 0; key = none }

abbrev pub Table : Type 0
Table = Array ListeningSocket

-- The operations: PMF_GET_USE_SOCKET, PMF_STORE_SOCKET, PMF_STORE_USE_SOCKET.
pub data Op : Type 0 where
  get_use store store_use : Op

-- What the search loop meets at the end of the members: nothing, the member at an index with its
-- socket, or a key that must not be read.
pub data Found : Type 0 where
  absent : Found
  at : ℕ → ListeningSocket → Found
  bad_key : Found

abbrev pub next_index : Found → Found
next_index absent = absent
next_index (at i ls) = at (i + 1) ls
next_index bad_key = bad_key

-- One round: the key of the member, and what the rest of the loop would meet.
abbrev pub match_key : Option Text → Text → ListeningSocket → Found → Found
match_key none key ls rest = bad_key
match_key (some k) key ls rest = if str_eq k key then at 0 ls else rest

unfoldable pub search_key : Text → List (Option ListeningSocket) → Found
search_key key [] = absent
search_key key (none ∷ cells) = bad_key
search_key key (some ls ∷ cells) = match_key ls.key key ls (next_index (search_key key cells))

-- `++ls->refcount` of the member that was found.
abbrev pub used_again : ListeningSocket → ListeningSocket
used_again ls = record ls { refcount = wrap_int (ls.refcount +ℤ pos 1) }

-- What is done with what the loop met; `none` is a key that must not be read.
abbrev pub use_found : Table → Found → Option (ℤ × Table)
use_found t absent = some (negsuc 0, t)
use_found t (at i ls) = some (ls.sock, record t { cells = set t.cells i (some (used_again ls)) })
use_found t bad_key = none

unfoldable pub get_use_socket : Text → Table → Option (ℤ × Table)
get_use_socket key t = use_found t (search_key key (take t.used_num t.cells))

-- The fields that a store fills in, given the pointer that pmf_array_push returns.
abbrev pub fill : ListeningSocket → Option ℕ × Table → ℤ × Table
fill ls (none, t) = (negsuc 0, t)
fill ls (some i, t) = (pos 0, record t { cells = set t.cells i (some ls) })

unfoldable pub store_socket : Bool → ℤ → ℕ → Text → ℤ → Table → ℤ × Table
store_socket realloc_ok refcount type key sock t =
    fill (record { refcount = refcount; sock = sock; type = type; key = some key })
      (push realloc_ok t)

-- The address as a text, which the operation prints by the address's type, is the key; without one,
-- for a type that is neither or where malloc fails, the call returns -1. `none` is a read through a
-- pointer that must not be used.
unfoldable pub hash_op : Bool → Op → ℤ → ℕ → Option Text → Table → Option (ℤ × Table)
hash_op realloc_ok op sock type none t = some (negsuc 0, t)
hash_op realloc_ok get_use sock type (some key) t = get_use_socket key t
hash_op realloc_ok store sock type (some key) t =
    some (store_socket realloc_ok (pos 0) type key sock t)
hash_op realloc_ok store_use sock type (some key) t =
    some (store_socket realloc_ok (pos 1) type key sock t)

abbrev pub stored_after : ℤ → Option (ℤ × Table) → Option (ℤ × Table)
stored_after sock none = none
stored_after sock (some (code, t)) = some (sock, t)

-- What pmf_sockets_new_listening_socket opens, `opened`, is stored, also where that is -1.
abbrev pub reuse_or_open : Bool → ℤ → ℕ → Option Text → Option (ℤ × Table) → Option (ℤ × Table)
reuse_or_open realloc_ok opened type key none = none
reuse_or_open realloc_ok opened type key (some (sock, t)) =
    if leb_ℤ (pos 0) sock
    then some (sock, t)
    else stored_after opened (hash_op realloc_ok store_use opened type key t)

-- pmf_sockets_get_listening_socket.
unfoldable pub get_listening_socket : Bool → ℤ → ℕ → Option Text → Table → Option (ℤ × Table)
get_listening_socket realloc_ok opened type key t =
    reuse_or_open realloc_ok opened type key (hash_op realloc_ok get_use (pos 0) type key t)
