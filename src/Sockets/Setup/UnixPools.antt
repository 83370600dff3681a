-- ===== src/Sockets/Setup/UnixPools.antt =====
-- The rounds of pmf_sockets_init_main for pools that listen on Unix sockets of different addresses.
use pmf.Common.{
  Bool, List, Option, [], ap, eqb_ℤ_ne, false, if◌then◌else◌, length, ltb_ℤ, lt→ltb, negsuc, none,
  pos, refl, replicate, some, ℕ, ℤ, ◌<◌, ◌==◌, ◌∙◌, ◌∷◌, ◌≡◌, ◌≢◌,
}
use pmf.Outcome.{done, failed, fault, map_outcome}
use pmf.Text.Chars.{Text, str_eq}
use pmf.Conf.Records.{WorkerPool}
use pmf.Log.Level.{LogState}
use pmf.Array.{push}
use pmf.Unix.{resolve_socket_premissions}
use pmf.Sockets.Address.{pmf_af_inet, pmf_af_unix}
use pmf.Sockets.Table.{
  ListeningSocket, Table, get_listening_socket, get_use_socket, hash_op, search_key, store_socket,
  zeroed,
}
use pmf.Sockets.Binding.{af_unix_listening_socket, sun_path_size, with_log}
use pmf.Sockets.Setup.Kept.{premissions-keep}
use pmf.Sockets.Setup.{
  Round, SocketAnswers, add_pool, after_round, has_socket, keep_socket, listen_inet, listen_loop,
  listen_pool, listen_unix, listening_socket_size, note_queue, unix_socket,
}

-- The table as pmf_array_init leaves it, and after the sockets of one and of two keys.
abbrev pub table_of : ℕ → List (Option ListeningSocket) → Table
table_of used cells = record {
  cells = cells;
  member_size = listening_socket_size;
  used_num = used;
  allocated_num = 10;
}

abbrev pub empty_table : Table
empty_table = table_of 0 (replicate 10 (some zeroed))

abbrev first_cell : ℤ → Text → Option ListeningSocket
first_cell sock key =
    some (record { refcount = pos 1; sock = sock; type = pmf_af_unix; key = some key })

abbrev pub one_socket : ℤ → Text → Table
one_socket sock key = table_of 1 (first_cell sock key ∷ replicate 9 (some zeroed))

abbrev pub two_counted : ℤ → Text → Table
two_counted sock key = table_of 2 (first_cell sock key ∷ replicate 9 (some zeroed))

pub first_stored :
    (realloc_ok : Bool) (sock : ℤ) (key : Text)
    → get_listening_socket realloc_ok sock pmf_af_unix (some key) empty_table
      ≡ some (sock, one_socket sock key)
unfolding get_listening_socket hash_op get_use_socket search_key store_socket push
first_stored realloc_ok sock key = refl

pub second_lost :
    (realloc_ok : Bool) (sock sock' : ℤ) (key key' : Text)
    → str_eq key key' ≡ false
    → get_listening_socket realloc_ok sock' pmf_af_unix (some key') (one_socket sock key)
      ≡ some (sock', two_counted sock key)
unfolding get_listening_socket hash_op get_use_socket search_key store_socket push
second_lost realloc_ok sock sock' key key' apart = rw apart refl

pub third_reads_null :
    (realloc_ok : Bool) (sock sock' : ℤ) (key key' : Text)
    → str_eq key key' ≡ false
    → get_listening_socket realloc_ok sock' pmf_af_unix (some key') (two_counted sock key) ≡ none
unfolding get_listening_socket hash_op get_use_socket search_key store_socket push
third_reads_null realloc_ok sock sock' key key' apart = rw apart refl

-- A pool that listens on a Unix socket at an address: its owner and its group can be found, and the
-- address fits.
pub record IsUnixPool (answers : SocketAnswers) (wp : WorkerPool) (address : Text) : Type 0 where
  pub domain : wp.listen_address_domain ≡ pmf_af_unix
  pub has_address : wp.config.listen_address ≡ some address
  pub short : length address < sun_path_size
  pub has_owner : ltb_ℤ (resolve_socket_premissions answers.accounts wp).0 (pos 0) ≡ false

module _ (answers : SocketAnswers) where
  pub owned_pool : WorkerPool → WorkerPool
  owned_pool wp = (resolve_socket_premissions answers.accounts wp).1

  owned_pool-address :
      (wp : WorkerPool) (address : Text)
      → IsUnixPool answers wp address
      → (owned_pool wp).config.listen_address ≡ some address
  unfolding owned_pool
  owned_pool-address wp address unix =
      ap (λ c. c.listen_address) (premissions-keep answers.accounts wp).0.0 ∙ unix.has_address

  listen_pool-unix :
      (wp : WorkerPool) (address : Text) (t : Table) (log : LogState)
      → IsUnixPool answers wp address
      → listen_pool answers (record { wp = wp; table = t; log = log })
        ≡ has_socket (owned_pool wp) (
            with_log log (
              get_listening_socket answers.realloc_ok
                (answers.unix_sock (owned_pool wp))
                pmf_af_unix
                (some address)
                t))
  unfolding listen_pool af_unix_listening_socket owned_pool
  listen_pool-unix wp address t log unix =
      let r : Round = record { wp = wp; table = t; log = log } in
      let w : WorkerPool = owned_pool wp in
      let r' : Round = record { wp = w; table = t; log = log } in
      let sock : ℤ = answers.unix_sock w in
      ap
        (λ d.
          if d == pmf_af_inet
          then listen_inet answers wp.config.listen_address r
          else if d == pmf_af_unix
          then listen_unix answers r
          else keep_socket r)
        unix.domain
      ∙ ap (λ b. if b then failed r' else unix_socket answers r' w.config.listen_address)
          unix.has_owner
      ∙ ap (unix_socket answers r') (owned_pool-address wp address unix)
      ∙ ap
          (λ b. has_socket w (
            with_log log (
              if b
              then get_listening_socket answers.realloc_ok sock pmf_af_unix (some address) t
              else none)))
          (lt→ltb (length address) sun_path_size unix.short)

  -- A round that got a socket, and one that must not read a key.
  pub got_socket :
      (wp : WorkerPool) (address : Text) (t t' : Table) (log : LogState)
      → IsUnixPool answers wp address
      → answers.unix_sock (owned_pool wp) ≢ negsuc 0
      → get_listening_socket answers.realloc_ok
          (answers.unix_sock (owned_pool wp))
          pmf_af_unix
          (some address)
          t
        ≡ some (answers.unix_sock (owned_pool wp), t')
      → (w : WorkerPool) × (listen_pool answers (record { wp = wp; table = t; log = log })
          ≡ done (record { wp = w; table = t'; log = log }))
  got_socket wp address t t' log unix opened_sock stored =
      let sock : ℤ = answers.unix_sock (owned_pool wp) in
      (
        record (owned_pool wp) { listening_socket_fd = sock },
        listen_pool-unix wp address t log unix
            ∙ ap (λ m. has_socket (owned_pool wp) (with_log log m)) stored
            ∙ ap
                (λ b.
                  let r : Round = record {
                    wp = record (owned_pool wp) { listening_socket_fd = sock };
                    table = t';
                    log = log;
                  } in
                  if b then failed r else done r)
                (eqb_ℤ_ne sock (negsuc 0) opened_sock),
      )

  pub read_null :
      (wp : WorkerPool) (address : Text) (t : Table) (log : LogState)
      → IsUnixPool answers wp address
      → get_listening_socket answers.realloc_ok
          (answers.unix_sock (owned_pool wp))
          pmf_af_unix
          (some address)
          t
        ≡ none
      → listen_pool answers (record { wp = wp; table = t; log = log }) ≡ fault
  read_null wp address t log unix broken =
      listen_pool-unix wp address t log unix
      ∙ ap (λ m. has_socket (owned_pool wp) (with_log log m)) broken

  pub listen_loop-cons :
      (wp w : WorkerPool) (pools : List WorkerPool) (t t' : Table) (log : LogState)
      → listen_pool answers (record { wp = wp; table = t; log = log })
        ≡ done (record { wp = w; table = t'; log = log })
      → listen_loop answers pools t' log ≡ fault
      → listen_loop answers (wp ∷ pools) t log ≡ fault
  unfolding listen_loop
  listen_loop-cons wp w pools t t' log here later =
      ap (λ m. after_round answers pools m (λ r. listen_loop answers pools r.table r.log)) here
      ∙ ap (map_outcome (add_pool (note_queue answers w))) later

  pub listen_loop-fault :
      (wp : WorkerPool) (pools : List WorkerPool) (t : Table) (log : LogState)
      → listen_pool answers (record { wp = wp; table = t; log = log }) ≡ fault
      → listen_loop answers (wp ∷ pools) t log ≡ fault
  unfolding listen_loop
  listen_loop-fault wp pools t log here =
      ap (λ m. after_round answers pools m (λ r. listen_loop answers pools r.table r.log)) here

  pub listen_loop-next :
      (wp w : WorkerPool) (pools pools' : List WorkerPool) (t t' t'' : Table) (log : LogState)
      → listen_pool answers (record { wp = wp; table = t; log = log })
        ≡ done (record { wp = w; table = t'; log = log })
      → listen_loop answers pools t' log ≡ done (pools', t'', log)
      → listen_loop answers (wp ∷ pools) t log ≡ done (note_queue answers w ∷ pools', t'', log)
  unfolding listen_loop
  listen_loop-next wp w pools pools' t t' t'' log here later =
      ap (λ m. after_round answers pools m (λ r. listen_loop answers pools r.table r.log)) here
      ∙ ap (map_outcome (add_pool (note_queue answers w))) later

  pub listen_loop-nil :
      (t : Table) (log : LogState) → listen_loop answers [] t log ≡ done ([], t, log)
  unfolding listen_loop
  listen_loop-nil t log = refl
