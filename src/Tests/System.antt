-- ===== src/Tests/System.antt =====
-- Sockets, events, shared memory and accounts with some answers of the system.
use pmf.Common.{
  [], arith, false, if◌then◌else◌, leb_ℤ, ltb, ltb_ℤ, map, max, negsuc, none, pos, refl, some, true,
  u64_mod, wrap_int, ℤ, ◌&&◌, ◌*◌, ◌++◌, ◌+◌, ◌-◌, ◌==◌, ◌↔◌, ◌∷◌, ◌≡◌, ◌≢◌, ◌≤◌, ◌⊎◌,
}
use pmf.Text.Chars.{text, to_lower}
use pmf.Text.Number.{atoi}
use pmf.Text.Search.{all_digits, split_last}
use pmf.Text.Decimal.{show_nat}
use pmf.Conf.Records.{WorkerPool, pool_config_initial, pool_initial}
use pmf.Log.Level.{IsLevel, log_initial, set_level}
use pmf.Sockets.Address.{pmf_af_unix}
use pmf.Sockets.Table.{Table}
use pmf.Sockets.Opening.{Answers, new_listening_socket, owned, set_socket_premissions}
use pmf.Sockets.Opening.Effects.{mask_after, open_after}
use pmf.Sockets.Opening.Cleanup.{new_listening_socket-cleans}
use pmf.Sockets.Binding.{
  Resolver, af_inet_listening_socket, any_address, host, socket_by_addr, strip_brackets, target,
}
use pmf.Sockets.Binding.Reading.{target-show_nat}
use pmf.Sockets.Binding.Quiet.{af_inet_listening_socket-level}
use pmf.Events.{
  FdSet, epoll_clean, epoll_init, epoll_initial, epoll_module, fd_setsize, init_main, pre_init,
  select_add, select_remove, support_edge_trigger,
}
use pmf.Events.Choice.{all_children, init_main-count, pre_init-names}
use pmf.Events.Descriptors.{epoll_clean-init, select-add_remove}
use pmf.Shm.{alloc, alloc-map_failed, block, free, free-alloc, map_failed}
use pmf.Unix.{Accounts, Passwd, conf_wp, resolve_socket_premissions}
use pmf.Unix.Identity.{conf_wp-named, set_socket_premissions-owner}

-- `listen` fails on a Unix socket.
abbrev refused_listen : Answers
refused_listen = record {
  sock = pos 5;
  test_sock = pos 6;
  connect = negsuc 0;
  umask = 18;
  bind = pos 0;
  chown = pos 0;
  listen = negsuc 0;
}

abbrev local_pool : WorkerPool
local_pool = record pool_initial {
  config = record pool_config_initial {
    user = some (text "www");
    group = some (text "web");
    listen_address = some (text "/run/a");
    listen_owner = some (text "www");
    listen_group = some (text "web");
    pm_max_children = pos 4;
  };
  listen_address_domain = pmf_af_unix;
  socket_mode = pos 432;
}

new_listening_socket-cleans_example :
    let (result, calls) = new_listening_socket refused_listen local_pool true (text "/run/a") in
    (open_after calls (pos 3 ∷ [])
      ≡ (if leb_ℤ (pos 0) result then result ∷ pos 3 ∷ [] else pos 3 ∷ []))
    × (mask_after calls 18 ≡ 18)
new_listening_socket-cleans_example =
    new_listening_socket-cleans refused_listen local_pool (pos 3 ∷ []) true (text "/run/a")

target-show_nat_example :
    (target (text "::1" ++ b':' ∷ show_nat 80) ≡ host (strip_brackets (text "::1")) (show_nat 80))
    × (target ((b'[' ∷ text "::1" ++ b']' ∷ []) ++ b':' ∷ show_nat 80)
        ≡ host (text "::1") (show_nat 80))
    × (target (show_nat 80) ≡ any_address (show_nat 80))
target-show_nat_example = target-show_nat (text "::1") 80 (omega arith) (omega arith)

abbrev no_hosts : Resolver
no_hosts addr port = none

abbrev no_sockets : Table
no_sockets = record { cells = []; member_size = 24; used_num = 0; allocated_num = 0 }

initial-IsLevel : IsLevel log_initial.plog_level
initial-IsLevel = record { above = omega arith; below = omega arith }

unbound :
    af_inet_listening_socket true no_hosts (text "80") no_sockets log_initial
    ≡ some (negsuc 0, no_sockets, log_initial)
unfolding af_inet_listening_socket target split_last all_digits atoi wrap_int socket_by_addr
    set_level
unbound = refl

af_inet_listening_socket-level_test : log_initial ≡ log_initial
af_inet_listening_socket-level_test =
    af_inet_listening_socket-level true no_hosts (text "80") no_sockets log_initial initial-IsLevel
      unbound

pre_init-names_test :
    ((pre_init (some (text "Epoll"))).0 ≡ pos 0)
      × (support_edge_trigger (pre_init (some (text "Epoll"))).1 ≡ pos 1)
    ↔ (((pos 1 ≡ pos 1) × (text "epoll" ≡ map to_lower (text "Epoll")))
        ⊎ ((pos 1 ≡ pos 0) × (text "select" ≡ map to_lower (text "Epoll"))))
pre_init-names_test = pre_init-names (text "Epoll") (pos 1)

abbrev accepts : ℤ → ℤ
accepts max = pos 0

init_main-count_test : init_main (some epoll_module) accepts (local_pool ∷ []) ≡ (
    if ltb_ℤ (accepts (pos (1 + 2 * all_children (local_pool ∷ [])))) (pos 0)
    then negsuc 0
    else pos 0)
unfolding all_children
init_main-count_test = init_main-count epoll_module accepts (local_pool ∷ []) (omega arith)

abbrev empty_set : FdSet
empty_set n = false

select-add_remove_test :
    let (added, with_fd) = select_add 7 empty_set in
    (added ≡ (if ltb 7 fd_setsize then pos 0 else negsuc 0))
    × (with_fd 8 ≡ (if 8 == 7 && ltb 7 fd_setsize then true else false))
    × ((fd_setsize ≤ 7)
        ⊎ ((without_fd : FdSet) × (select_remove 7 empty_set ≡ some (pos 0, without_fd))
            × (without_fd 8 ≡ (if 8 == 7 then false else false))))
select-add_remove_test = select-add_remove 7 8 empty_set

epoll_clean-init_test :
    let (code, s) = epoll_init (pos 4) false (pos 9) epoll_initial in
    let (_, s', shut) = epoll_clean s in
    (code ≡ (if false then pos 0 else negsuc 0))
    × (shut ≡ some (pos 4))
    × (s'.epoll_fd ≡ negsuc 0)
    × (s'.has_buf ≡ false)
epoll_clean-init_test = epoll_clean-init (pos 4) false (pos 9) (omega arith) (omega arith)

free-alloc_test :
    let (mem, shm_size') = alloc (block 4096) 100 20 in
    (free (pos 0) mem 100 shm_size' ≡ (pos 1, 20))
    × (free (negsuc 0) mem 100 shm_size' ≡ (pos 0, shm_size'))
free-alloc_test = free-alloc 4096 100 20 (omega arith)

alloc-map_failed_test :
    (alloc map_failed 100 0 ≡ (map_failed, 100))
    × (free (pos 0) (block 4096) 100 20 ≡ (pos 1, u64_mod - (100 - 20)))
alloc-map_failed_test = alloc-map_failed 4096 100 20 (omega arith) (omega arith)

abbrev www : Passwd
www = record { pw_name = text "www"; pw_uid = pos 33; pw_gid = pos 34; pw_dir = text "/srv" }

abbrev accounts : Accounts
accounts = record {
  is_root = true;
  getpwnam = λ name. some www;
  getgrnam = λ name. some (pos 50);
  own = none;
}

conf_wp-named_test : conf_wp accounts local_pool ≡ (
  pos 0,
  record local_pool {
    set_uid = pos 33;
    set_gid = pos 50;
    user = some (text "www");
    home = some (text "/srv");
  },
)
unfolding all_digits
conf_wp-named_test =
    conf_wp-named accounts local_pool (text "www") (text "web") www (pos 50) refl refl refl refl
      refl refl refl

user_known : pos 33 ≢ negsuc 0
user_known h = cc

set_socket_premissions-owner_test :
    let (code, wp') = resolve_socket_premissions accounts local_pool in
    (code ≡ pos 0)
    × ((set_socket_premissions refused_listen wp' (text "/run/a")).1
        ≡ owned (text "/run/a") (pos 33) (pos 50) ∷ [])
set_socket_premissions-owner_test =
    set_socket_premissions-owner accounts refused_listen local_pool (text "/run/a") (text "www")
      (text "web") www (pos 50) refl refl refl refl user_known
