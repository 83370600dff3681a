-- ===== src/Sockets/Setup/Listening.antt =====
-- What pmf_sockets_init_main leaves where it succeeds.
use pmf.Common.{
  Bool, Bool-cases, List, Option, Pairwise, [], ap, eqb_ℤ, false, inl, inr, ltb_ℤ, negsuc, none,
  pos, refl, some, subst, sym, true, ℕ, ◌==◌, ◌∙◌, ◌∷◌, ◌≡◌, ◌≢◌,
}
use pmf.Outcome.{
  >>=-done, Outcome, done, done-inj, failed, fault, if-done, if-either, map_outcome-done,
  of_code-done, ◌>>=◌,
}
use pmf.Conf.Records.{WorkerPool}
use pmf.Conf.Load.Passed.{SameSetting}
use pmf.Scoreboard.Update.{Counts, Scoreboard, action_set, update, update_locked}
use pmf.Scoreboard.Signed.{update_locked-IsValid}
use pmf.Scoreboard.Setup.Layout.{HasScoreboard}
use pmf.Log.Level.{LogState}
use pmf.Text.Chars.{Text}
use pmf.Array.{init}
use pmf.Sockets.Table.{Table, zeroed}
use pmf.Sockets.Address.{pmf_af_inet, pmf_af_unix}
use pmf.Sockets.Binding.{af_inet_listening_socket, af_unix_listening_socket, with_log}
use pmf.Sockets.Closing.{Closed, bad_member, close_unused, finished, no_fuel}
use pmf.Unix.{given, resolve_socket_premissions}
use pmf.Sockets.Setup.{
  Listened, Round, SocketAnswers, add_pool, after_round, close_rest, get_listening_queue,
  keep_socket, listen_all, listen_inet, listen_loop, listen_pool, listen_unix,
  listening_socket_size, note_queue, queue_counts, sockets_init_main, start_table, unix_socket,
  with_array, with_closed, with_listened, with_queue,
}
use pmf.Master.{Master}
use pmf.Sockets.Setup.Kept.{GotSocket, GotSocket-after, fd_ne, has_socket-done, premissions-keep}

update-given :
    (c : Counts) (s : Scoreboard)
    → (update c action_set (some s) none).0 ≡ some (update_locked c action_set s)
unfolding update
update-given c s = refl

-- What the rest of the state has in common.
abbrev pub SameRest : Master → Master → Type 0
SameRest s s' =
    (s'.config ≡ s.config) × (s'.globals ≡ s.globals) × (s'.event_module ≡ s.event_module)

SameRest-trans : (s t u : Master) → SameRest s t → SameRest t u → SameRest s u
SameRest-trans s t u h k = (k.0 ∙ h.0, k.1 ∙ h.1, k.2 ∙ h.2)

module _ (answers : SocketAnswers) where
  listen_inet-done :
      (address : Option Text) (r : Round) {r' : Round}
      → listen_inet answers address r ≡ done r'
      → GotSocket r.wp r'.wp
  listen_inet-done none r h = absurd (cc)
  listen_inet-done (some address) r h =
      has_socket-done r.wp
        (af_inet_listening_socket answers.realloc_ok answers.resolver address r.table r.log) h

  unix_socket-done :
      (address : Option Text) (r : Round) {r' : Round}
      → unix_socket answers r address ≡ done r'
      → GotSocket r.wp r'.wp
  unix_socket-done none r h = absurd (cc)
  unix_socket-done (some address) r h =
      has_socket-done r.wp
        (with_log r.log
          (af_unix_listening_socket answers.realloc_ok (answers.unix_sock r.wp) address r.table))
        h

  listen_unix-done :
      (r : Round) {r' : Round} → listen_unix answers r ≡ done r' → GotSocket r.wp r'.wp
  listen_unix-done r {r'} h =
      let (code, wp) = resolve_socket_premissions answers.accounts r.wp in
      let (good, bound) = if-done (ltb_ℤ code (pos 0)) (record r { wp = wp }) _ h in
      GotSocket-after r.wp wp r'.wp (premissions-keep answers.accounts r.wp)
        (unix_socket-done wp.config.listen_address (record r { wp = wp }) bound)

  keep_socket-done : (r : Round) {r' : Round} → keep_socket r ≡ done r' → GotSocket r.wp r'.wp
  keep_socket-done r {r'} h =
      let (good, same) = if-done (eqb_ℤ r.wp.listening_socket_fd (negsuc 0)) r _ h in
      subst (λ x. GotSocket r.wp x.wp) (done-inj r r' same)
        ((refl, refl), fd_ne r.wp.listening_socket_fd good, refl)

  listen_pool-done :
      (r : Round) {r' : Round} → listen_pool answers r ≡ done r' → GotSocket r.wp r'.wp
  unfolding listen_pool
  listen_pool-done r h = elim (if-either (r.wp.listen_address_domain == pmf_af_inet) _ _ h) [
    | inl inet ↦ listen_inet-done r.wp.config.listen_address r inet
    | inr other ↦ elim (if-either (r.wp.listen_address_domain == pmf_af_unix) _ _ other) [
      | inl unix ↦ listen_unix-done r unix
      | inr kept ↦ keep_socket-done r kept
    ]
  ]

  -- A pool that listens: a socket, the configuration that it had, and a valid scoreboard if it had
  -- one.
  abbrev pub Listens : WorkerPool → WorkerPool → Type 0
  Listens wp w =
      SameSetting wp w × (w.listening_socket_fd ≢ negsuc 0) × (HasScoreboard wp → HasScoreboard w)

  with_queue-Listens :
      (m : Option (ℕ × ℕ)) (wp w : WorkerPool) → GotSocket wp w → Listens wp (with_queue m w)
  with_queue-Listens none wp w got = (got.0, got.1, λ (s, e, v). (s, got.2 ∙ e, v))
  with_queue-Listens (some (cur_lq, max_lq)) wp w got = (
    got.0,
    got.1,
    λ (s, e, v). (
      update_locked (queue_counts max_lq) action_set s,
      ap (λ b. (update (queue_counts max_lq) action_set b none).0) (got.2 ∙ e)
          ∙ update-given (queue_counts max_lq) s,
      update_locked-IsValid (queue_counts max_lq) action_set v,
    ),
  )

  note_queue-Listens : (wp w : WorkerPool) → GotSocket wp w → Listens wp (note_queue answers w)
  unfolding note_queue
  note_queue-Listens wp w got = elim (Bool-cases (w.listen_address_domain == pmf_af_inet)) [
    | inl e ↦ rw e (with_queue-Listens (get_listening_queue answers w.listening_socket_fd) wp w got)
    | inr e ↦ rw e (got.0, got.1, λ (s, given, v). (s, got.2 ∙ given, v))
  ]

  after_round-done :
      (pools : List WorkerPool) (m : Outcome Round) (next : Round → Outcome Listened) {l : Listened}
      → after_round answers pools m next ≡ done l
      → (r : Round) × (rest : Listened) × (m ≡ done r)
        × (next r ≡ done rest)
        × (add_pool (note_queue answers r.wp) rest ≡ l)
  after_round-done pools (done r) next h =
      let (rest, later, same) = map_outcome-done _ (next r) h in (r, rest, refl, later, same)
  after_round-done pools (failed r) next h = absurd (cc)
  after_round-done pools fault next h = absurd (cc)

  listen_loop-done :
      (pools : List WorkerPool) (t : Table) (log : LogState) {l : Listened}
      → listen_loop answers pools t log ≡ done l
      → Pairwise Listens pools l.0
  unfolding listen_loop
  listen_loop-done [] t log {l} h =
      subst (λ x. Pairwise Listens [] x.0) (done-inj ([], t, log) l h) tt
  listen_loop-done (wp ∷ pools) t log h =
      let (r, rest, here, later, same) = after_round-done pools _ _ h in
      subst (λ x. Pairwise Listens (wp ∷ pools) x.0) same
        (
          note_queue-Listens wp r.wp
              (listen_pool-done (record { wp = wp; table = t; log = log }) here),
          listen_loop-done pools r.table r.log later,
        )

  with_array-done :
      (s : Master) (r : Bool × Option Table) {s' : Master}
      → with_array s r ≡ done s'
      → (s'.pools ≡ s.pools) × SameRest s s'
  with_array-done s (true, some t) {s'} h =
      subst (λ x. (x.pools ≡ s.pools) × SameRest s x)
        (done-inj (record s { sockets_list = t }) s' h) (refl, (refl, refl, refl))
  with_array-done s (false, some t) h = absurd (cc)
  with_array-done s (true, none) h = absurd (cc)
  with_array-done s (false, none) h = absurd (cc)

  with_closed-done :
      (s : Master) (c : Closed) {s' : Master}
      → with_closed answers s c ≡ done s'
      → (s'.pools ≡ s.pools) × SameRest s s'
  with_closed-done s (finished members t) {s'} h =
      let (good, same) = of_code-done answers.left_over (record s { sockets_list = t }) h in
      subst (λ x. (x.pools ≡ s.pools) × SameRest s x) same (refl, (refl, refl, refl))
  with_closed-done s bad_member h = absurd (cc)
  with_closed-done s no_fuel h = absurd (cc)

  -- Where pmf_sockets_init_main succeeds each pool has a socket that is not -1, the configuration
  -- that it had, and a valid scoreboard if it had one before, also where the length of the queue
  -- was stored in it; the configuration, the globals and the event mechanism are as before.
  pub sockets_init_main-Listens :
      (s s' : Master)
      → sockets_init_main answers s ≡ done s'
      → Pairwise Listens s.pools s'.pools × SameRest s s'
  unfolding sockets_init_main
  sockets_init_main-Listens s s' h =
      let (b, to_b, closing) =
        >>=-done (start_table answers s >>= listen_all answers) (close_rest answers) h in
      let (a, starting, listening) = >>=-done (start_table answers s) (listen_all answers) to_b in
      let (pools, rest) =
        with_array-done s
          (init zeroed (some s.sockets_list) true answers.calloc_ok listening_socket_size 10)
          starting in
      let (l, loop, is_b) =
        map_outcome-done (with_listened a) (listen_loop answers a.pools a.sockets_list a.log)
          listening in
      let (pools', rest') = with_closed-done b (close_unused b.sockets_list) closing in
      let (b_pools, b_rest) : (b.pools ≡ l.0) × SameRest a b =
        subst (λ x. (x.pools ≡ l.0) × SameRest a x) is_b (refl, (refl, refl, refl)) in
      (
        subst (λ p. Pairwise Listens p s'.pools) pools
            (subst (Pairwise Listens a.pools) (sym (pools' ∙ b_pools))
              (listen_loop-done a.pools a.sockets_list a.log loop)),
        SameRest-trans s b s' (SameRest-trans s a b rest b_rest) rest',
      )
