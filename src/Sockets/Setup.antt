-- ===== src/Sockets/Setup.antt =====
-- pmf_sockets_init_main and pmf_socket_get_listening_queue of pmf_sockets.c: a listening socket for
-- each pool, and the closing of those that no pool uses. What the system answers is an argument.
pub mod Kept
pub mod Listening
pub mod UnixPools
pub mod Third
use pmf.Common.{
  Bool, List, Option, [], eqb_ℤ, false, if◌then◌else◌, ltb_ℤ, negsuc, none, pos, signed32, some,
  true, u32_mod, ℕ, ℤ, ◌%◌, ◌==◌, ◌∷◌,
}
use pmf.Outcome.{Outcome, done, failed, fault, map_outcome, of_code, ◌>>=◌}
use pmf.Text.Chars.{Text}
use pmf.Conf.Records.{WorkerPool}
use pmf.Log.Level.{LogState}
use pmf.Array.{init}
use pmf.Scoreboard.Update.{Counts, action_set, update}
use pmf.Unix.{Accounts, resolve_socket_premissions}
use pmf.Sockets.Address.{pmf_af_inet, pmf_af_unix}
use pmf.Sockets.Table.{Table, zeroed}
use pmf.Sockets.Binding.{Resolver, af_inet_listening_socket, af_unix_listening_socket, with_log}
use pmf.Sockets.Closing.{Closed, bad_member, close_unused, finished, no_fuel}
use pmf.Master.{Master}

-- Whether calloc and realloc find memory; the accounts; what getaddrinfo answers, with the
-- descriptors that would be opened; the descriptor that pmf_sockets_new_listening_socket returns
-- for the Unix socket of a pool; `tcpi_unacked` and `tcpi_sacked` of a socket (`none` where
-- getsockopt fails); and the value that the function leaves behind.
pub record SocketAnswers : Type 0 where
  pub calloc_ok : Bool
  pub realloc_ok : Bool
  pub accounts : Accounts
  pub resolver : Resolver
  pub unix_sock : WorkerPool → ℤ
  pub tcp_info : ℤ → Option (ℕ × ℕ)
  pub left_over : ℤ

-- `sizeof(struct listening_socket_s)`.
abbrev pub listening_socket_size : ℕ
listening_socket_size = 24

abbrev pub queue_of : Option (ℕ × ℕ) → Option (ℕ × ℕ)
queue_of none = none
queue_of (some (unacked, sacked)) = if sacked == 0 then none else some (unacked, sacked)

-- pmf_socket_get_listening_queue: the current and the longest queue, or `none` where it returns -1.
unfoldable pub get_listening_queue : SocketAnswers → ℤ → Option (ℕ × ℕ)
get_listening_queue answers sock = queue_of (answers.tcp_info sock)

-- The arguments of pmf_scoreboard_update for the length of a queue, converted to `int`.
abbrev pub queue_counts : ℕ → Counts
queue_counts lq_len = record {
  idle = negsuc 0;
  active = negsuc 0;
  lq = negsuc 0;
  lq_len = signed32 (lq_len % u32_mod);
  requests = negsuc 0;
  max_children_reached = negsuc 0;
  slow_rq = pos 0;
}

-- What a round works on: its pool, the table and the state of the log.
pub record Round : Type 0 where
  pub wp : WorkerPool
  pub table : Table
  pub log : LogState

abbrev pub has_socket : WorkerPool → Option (ℤ × Table × LogState) → Outcome Round
has_socket wp none = fault
has_socket wp (some (sock, t, log)) =
    let r : Round = record {
      wp = record wp { listening_socket_fd = sock };
      table = t;
      log = log;
    } in
    if eqb_ℤ sock (negsuc 0) then failed r else done r

-- A pool of neither domain keeps the descriptor that it has.
abbrev pub keep_socket : Round → Outcome Round
keep_socket r = if eqb_ℤ r.wp.listening_socket_fd (negsuc 0) then failed r else done r

abbrev pub with_queue : Option (ℕ × ℕ) → WorkerPool → WorkerPool
with_queue none wp = wp
with_queue (some (cur_lq, max_lq)) wp = record wp {
  scoreboard = (update (queue_counts max_lq) action_set wp.scoreboard none).0;
}

-- What the loop leaves: the pools, the table and the state of the log.
abbrev pub Listened : Type 0
Listened = List WorkerPool × Table × LogState

abbrev pub add_pool : WorkerPool → Listened → Listened
add_pool wp (pools, t, log) = (wp ∷ pools, t, log)

abbrev pub with_listened : Master → Listened → Master
with_listened s (pools, t, log) = record s { pools = pools; sockets_list = t; log = log }

abbrev pub with_array : Master → Bool × Option Table → Outcome Master
with_array s (true, some t) = done (record s { sockets_list = t })
with_array s (false, some t) = failed (record s { sockets_list = t })
with_array s (code, none) = failed s

module _ (answers : SocketAnswers) where
  -- An address that is NULL is read all the same.
  abbrev pub listen_inet : Option Text → Round → Outcome Round
  listen_inet none r = fault
  listen_inet (some address) r =
      has_socket r.wp
        (af_inet_listening_socket answers.realloc_ok answers.resolver address r.table r.log)

  abbrev pub unix_socket : Round → Option Text → Outcome Round
  unix_socket r none = fault
  unix_socket r (some address) = has_socket r.wp (
      with_log r.log
        (af_unix_listening_socket answers.realloc_ok (answers.unix_sock r.wp) address r.table))

  abbrev pub listen_unix : Round → Outcome Round
  listen_unix r =
      let (code, wp) = resolve_socket_premissions answers.accounts r.wp in
      if ltb_ℤ code (pos 0)
      then failed (record r { wp = wp })
      else unix_socket (record r { wp = wp }) wp.config.listen_address

  unfoldable pub listen_pool : Round → Outcome Round
  listen_pool r =
      if r.wp.listen_address_domain == pmf_af_inet
      then listen_inet r.wp.config.listen_address r
      else if r.wp.listen_address_domain == pmf_af_unix
      then listen_unix r
      else keep_socket r

  -- The queue of an Internet socket goes to the pool's scoreboard.
  unfoldable pub note_queue : WorkerPool → WorkerPool
  note_queue wp =
      if wp.listen_address_domain == pmf_af_inet
      then with_queue (get_listening_queue answers wp.listening_socket_fd) wp
      else wp

  -- After a round, given the pools that follow and the rest of the loop.
  abbrev pub after_round :
      List WorkerPool → Outcome Round → (Round → Outcome Listened) → Outcome Listened
  after_round pools (done r) next = map_outcome (add_pool (note_queue r.wp)) (next r)
  after_round pools (failed r) next = failed (r.wp ∷ pools, r.table, r.log)
  after_round pools fault next = fault

  unfoldable pub listen_loop : List WorkerPool → Table → LogState → Outcome Listened
  listen_loop [] t log = done ([], t, log)
  listen_loop (wp ∷ pools) t log =
      after_round pools (listen_pool (record { wp = wp; table = t; log = log }))
        (λ r. listen_loop pools r.table r.log)

  -- The last part, and the value that is left behind: there is no `return` at the end.
  abbrev pub with_closed : Master → Closed → Outcome Master
  with_closed s (finished members t) = of_code (answers.left_over, record s { sockets_list = t })
  with_closed s bad_member = fault
  with_closed s no_fuel = fault

  abbrev pub close_rest : Master → Outcome Master
  close_rest s = with_closed s (close_unused s.sockets_list)

  abbrev pub start_table : Master → Outcome Master
  start_table s =
      with_array s
        (init zeroed (some s.sockets_list) true answers.calloc_ok listening_socket_size 10)

  abbrev pub listen_all : Master → Outcome Master
  listen_all s = map_outcome (with_listened s) (listen_loop s.pools s.sockets_list s.log)

  -- pmf_sockets_init_main.
  unfoldable pub sockets_init_main : Master → Outcome Master
  sockets_init_main s = start_table s >>= listen_all >>= close_rest
