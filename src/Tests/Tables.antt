-- ===== src/Tests/Tables.antt =====
-- The table of listening sockets, empty and with one socket.
use mathlib.Core.List.{Perm}
use pmf.Sockets.Opening.{closed, unlinked}
use pmf.Sockets.Closing.{close_calls, close_unused, finished}
use pmf.Sockets.Closing.Unused.{IsUnused, IsUsed, close_unused-closes}
use pmf.Common.{
  All, List, [], ap, arith, get_elem?, map, negsuc, none, pos, refl, some, sym, true, ◌++◌, ◌∷◌,
  ◌≡◌,
}
use pmf.Text.Search.{all_digits, has_char}
use pmf.Text.Chars.{str_eq, text}
use pmf.Array.Valid.{IsValid, members}
use pmf.Array.Push.{HasRoom}
use pmf.Sockets.Address.{domain_from_address, pmf_af_inet, pmf_af_unix}
use pmf.Sockets.Table.{ListeningSocket, Table, get_use, hash_op, store_use, zeroed}
use pmf.Sockets.Table.Lookup.{HasOther}
use pmf.Sockets.Table.Store.{NextBlank, get_use-store_use, store_use-breaks}

abbrev fresh : Table
fresh = record {
  cells = some zeroed ∷ some zeroed ∷ [];
  member_size = 24;
  used_num = 0;
  allocated_num = 2;
}

abbrev http : ListeningSocket
http = record { refcount = pos 1; sock = pos 3; type = pmf_af_inet; key = some (text "::1:80") }

abbrev one : Table
one = record fresh { cells = some http ∷ some zeroed ∷ []; used_num = 1 }

fresh-IsValid : IsValid fresh
fresh-IsValid = record {
  sized = omega arith;
  within = omega arith;
  block = refl;
  fits = omega arith;
  few = omega arith;
}

one-IsValid : IsValid one
one-IsValid = record {
  sized = omega arith;
  within = omega arith;
  block = refl;
  fits = omega arith;
  few = omega arith;
}

fresh-HasRoom : HasRoom fresh
fresh-HasRoom = record { counted = omega arith; bytes = omega arith }

one-HasRoom : HasRoom one
one-HasRoom = record { counted = omega arith; bytes = omega arith }

get_use-store_use_example :
    (t' : Table) × (t'' : Table) × (hash_op true store_use
        (pos 3)
        pmf_af_inet
        (some (text "::1:80"))
        fresh
      ≡ some (pos 0, t'))
    × (hash_op true get_use (pos 3) pmf_af_inet (some (text "::1:80")) t' ≡ some (pos 3, t''))
    × (t''.used_num ≡ 1)
    × (get_elem? t''.cells 0 ≡ some (some (record http { refcount = pos 2 })))
get_use-store_use_example =
    get_use-store_use (pos 3) pmf_af_inet (text "::1:80") fresh-IsValid fresh-HasRoom refl

one-NextBlank : NextBlank (pos 4) pmf_af_unix (text "/run/b") one
one-NextBlank (some ls) h = ap (λ o. elim o [ some (some l) ↦ l.key | _ ↦ none ]) (sym h)
one-NextBlank none h = tt

one-HasOther : All (HasOther (text "/run/c")) (members one)
unfolding str_eq
one-HasOther = ((http, text "::1:80", refl, refl, refl), tt)

store_use-breaks_example :
    (t' : Table) × (hash_op true store_use (pos 4) pmf_af_unix (some (text "/run/b")) one
      ≡ some (negsuc 0, t'))
    × (hash_op true get_use (pos 4) pmf_af_unix (some (text "/run/c")) t' ≡ none)
store_use-breaks_example =
    store_use-breaks (pos 4) pmf_af_unix (text "/run/b") one-IsValid one-HasRoom (omega arith)
      one-NextBlank (text "/run/c") one-HasOther

domain_test :
    (domain_from_address (text "127.0.0.1:9000") ≡ pmf_af_inet)
    × (domain_from_address (text "9000") ≡ pmf_af_inet)
    × (domain_from_address (text "/run/pmf.sock") ≡ pmf_af_unix)
unfolding domain_from_address has_char all_digits
domain_test = (refl, refl, refl)

-- One inherited socket that no pool has asked for, and one in use.
abbrev stale : ListeningSocket
stale = record { refcount = pos 0; sock = pos 9; type = pmf_af_unix; key = some (text "/run/old") }

abbrev inherited : Table
inherited = record fresh { cells = some stale ∷ some http ∷ []; used_num = 2 }

inherited-IsValid : IsValid inherited
inherited-IsValid = record {
  sized = omega arith;
  within = omega arith;
  block = refl;
  fits = omega arith;
  few = omega arith;
}

close_unused-closes_example :
    (gone : List ListeningSocket) × (t' : Table) × (close_unused inherited ≡ finished gone t')
    × IsValid t'
    × All IsUnused gone
    × All IsUsed (members t')
    × Perm (map some gone ++ members t') (some stale ∷ some http ∷ [])
close_unused-closes_example =
    close_unused-closes inherited inherited-IsValid ((stale, refl), ((http, refl), tt))

close_calls_test : close_calls stale ≡ closed (pos 9) ∷ unlinked (text "/run/old") ∷ []
close_calls_test = refl
