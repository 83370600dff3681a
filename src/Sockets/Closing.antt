-- ===== src/Sockets/Closing.antt =====
-- The last part of pmf_sockets_init_main of pmf_sockets.c: sockets that nothing uses are closed.
pub mod Unused
use pmf.Common.{
  List, Option, [], eqb_ℤ, get_elem?, if◌then◌else◌, ltb, none, pos, some, suc, zero, ℕ, ℤ, ◌+◌,
  ◌==◌, ◌∷◌,
}
use pmf.Array.{remove_item}
use pmf.Sockets.Address.{pmf_af_unix}
use pmf.Sockets.Opening.{Call, closed, unlinked}
use pmf.Sockets.Table.{ListeningSocket, Table}

-- The end of the loop: the members that were closed (by `close_calls`), in order, and the table; or
-- a member that must not be read, or the bound on the rounds.
pub data Closed : Type 0 where
  finished : List ListeningSocket → Table → Closed
  bad_member : Closed
  no_fuel : Closed

abbrev pub also_closed : ListeningSocket → Closed → Closed
also_closed ls (finished members t) = finished (ls ∷ members) t
also_closed ls bad_member = bad_member
also_closed ls no_fuel = no_fuel

-- What follows pmf_array_remove_item, whose value is not used.
abbrev pub after_removal : Option (ℤ × Table) → (Table → Closed) → Closed
after_removal none next = bad_member
after_removal (some (code, t)) next = next t

-- One round at the member that `ls` points at, given what is done next: at the same member again
-- once it is removed, or at the next member.
abbrev pub close_round :
    Option (Option ListeningSocket) → ℕ → Table → (Table → Closed) → (Table → Closed) → Closed
close_round none i t again next = bad_member
close_round (some none) i t again next = bad_member
close_round (some (some ls)) i t again next =
    if eqb_ℤ ls.refcount (pos 0)
    then also_closed ls (after_removal (remove_item t i) again)
    else next t

unfoldable pub close_loop : ℕ → ℕ → Table → Closed
close_loop zero i t = no_fuel
close_loop (suc fuel) i t =
    if ltb i t.used_num
    then close_round (get_elem? t.cells i) i t (close_loop fuel i) (close_loop fuel (i + 1))
    else finished [] t

-- Every round removes a member or goes to the next, so their number bounds the rounds.
unfoldable pub close_unused : Table → Closed
close_unused t = close_loop (t.used_num + 1) 0 t

-- The calls of the system for a member that is closed: `close`, and `unlink` for a Unix socket.
abbrev pub close_calls : ListeningSocket → List Call
close_calls ls =
    closed ls.sock
    ∷ (if ls.type == pmf_af_unix
        then elim ls.key [ none ↦ [] | some key ↦ unlinked key ∷ [] ]
        else [])
