-- ===== src/Tests/Distinct.antt =====
-- Pools that listen on different Unix sockets.
use pmf.Common.{
  [], arith, false, length, ltb_ℤ, negsuc, none, pos, refl, some, true, ◌<◌, ◌∷◌, ◌≡◌, ◌≢◌,
}
use pmf.Outcome.{done, fault, ◌>>=◌}
use pmf.Text.Chars.{Text, str_eq, str_eq_iff, text}
use pmf.Conf.Records.{WorkerPool, pool_config_initial, pool_initial}
use pmf.Unix.{Accounts, resolve_socket_premissions}
use pmf.Sockets.Address.{pmf_af_unix}
use pmf.Sockets.Table.{Table, zeroed}
use pmf.Sockets.Opening.{closed}
use pmf.Sockets.Closing.{close_calls, close_unused, finished}
use pmf.Sockets.Setup.{SocketAnswers, listen_all, sockets_init_main, start_table}
use pmf.Sockets.Setup.UnixPools.{IsUnixPool}
use pmf.Sockets.Setup.Third.{listen_all-second, sockets_init_main-third}
use pmf.Master.{Master}
use pmf.Main.{master_initial}

abbrev plain_user : Accounts
plain_user = record { is_root = false; getpwnam = λ n. none; getgrnam = λ n. none; own = none }

abbrev socket_answers : SocketAnswers
socket_answers = record {
  calloc_ok = true;
  realloc_ok = true;
  accounts = plain_user;
  resolver = λ addr port. none;
  unix_sock = λ wp. pos 12;
  tcp_info = λ fd. none;
  left_over = pos 0;
}

abbrev at_path : Text → WorkerPool
at_path path = record pool_initial {
  listen_address_domain = pmf_af_unix;
  config = record pool_config_initial { listen_address = some path };
}

abbrev two_pools : Master
two_pools = record master_initial { pools = at_path (text "/a") ∷ at_path (text "/b") ∷ [] }

abbrev three_pools : Master
three_pools = record master_initial {
  pools = at_path (text "/a") ∷ at_path (text "/b") ∷ at_path (text "/c") ∷ [];
}

at_path-owner :
    (path : Text) → ltb_ℤ (resolve_socket_premissions plain_user (at_path path)).0 (pos 0) ≡ false
unfolding resolve_socket_premissions
at_path-owner path = refl

is_unix : (path : Text) → length path < 108 → IsUnixPool socket_answers (at_path path) path
is_unix path h = record {
  domain = refl;
  has_address = refl;
  short = h;
  has_owner = at_path-owner path;
}

apart : (s t : Text) → str_eq s t ≡ false → s ≢ t
apart s t h e = let same = (str_eq_iff s t).1 e in cc

opens : (wp : WorkerPool) → socket_answers.unix_sock wp ≢ negsuc 0
opens wp e = cc

sockets_init_main-third_example : sockets_init_main socket_answers three_pools ≡ fault
unfolding str_eq
sockets_init_main-third_example =
    sockets_init_main-third socket_answers three_pools (at_path (text "/a")) (at_path (text "/b"))
      (at_path (text "/c")) [] (text "/a") (text "/b") (text "/c") refl refl opens
      (is_unix (text "/a") (omega arith)) (is_unix (text "/b") (omega arith))
      (is_unix (text "/c") (omega arith)) (apart (text "/a") (text "/b") refl)
      (apart (text "/a") (text "/c") refl)

listen_all-second_example :
    (t : Master) × (start_table socket_answers two_pools >>= listen_all socket_answers ≡ done t)
    × ((left : Table) × (close_unused t.sockets_list ≡ finished (zeroed ∷ []) left))
    × (close_calls zeroed ≡ closed (pos 0) ∷ [])
unfolding str_eq
listen_all-second_example =
    listen_all-second socket_answers two_pools (at_path (text "/a")) (at_path (text "/b"))
      (text "/a") (text "/b") refl refl opens (is_unix (text "/a") (omega arith))
      (is_unix (text "/b") (omega arith)) (apart (text "/a") (text "/b") refl)
