-- ===== src/Sockets/Setup/Third.antt =====
-- What becomes of pmf_sockets_init_main with two and with three pools that listen on Unix sockets
-- of different addresses.
use pmf.Common.{List, [], ap, negsuc, pos, refl, true, ℤ, ◌∙◌, ◌∷◌, ◌≡◌, ◌≢◌}
use pmf.Outcome.{done, fault, map_outcome, ◌>>=◌}
use pmf.Text.Chars.{Text, str_eq_ne}
use pmf.Conf.Records.{WorkerPool}
use pmf.Sockets.Closing.{close_calls, close_loop, close_unused, finished}
use pmf.Sockets.Opening.{closed}
use pmf.Array.{init, remove_item}
use pmf.Sockets.Table.{Table, zeroed}
use pmf.Sockets.Setup.{
  SocketAnswers, close_rest, listen_all, listen_loop, note_queue, sockets_init_main, start_table,
  with_listened,
}
use pmf.Master.{Master}
use pmf.Sockets.Setup.UnixPools.{
  IsUnixPool, empty_table, first_stored, got_socket, listen_loop-cons, listen_loop-fault,
  listen_loop-next, listen_loop-nil, one_socket, owned_pool, read_null, second_lost, table_of,
  third_reads_null, two_counted,
}

module _ (answers : SocketAnswers) where
  started :
      (s : Master)
      → answers.calloc_ok ≡ true
      → start_table answers s ≡ done (record s { sockets_list = empty_table })
  unfolding init
  started s found = rw found refl

  -- Three pools that listen on Unix sockets of different addresses are too many: where all the
  -- system's calls succeed, the lookup for the third pool compares its address with a key that is
  -- NULL.
  pub sockets_init_main-third :
      (s : Master) (p q r : WorkerPool) (rest : List WorkerPool) (a b c : Text)
      → s.pools ≡ p ∷ q ∷ r ∷ rest
      → answers.calloc_ok ≡ true
      → ((wp : WorkerPool) → answers.unix_sock wp ≢ negsuc 0)
      → IsUnixPool answers p a
      → IsUnixPool answers q b
      → IsUnixPool answers r c
      → a ≢ b
      → a ≢ c
      → sockets_init_main answers s ≡ fault
  unfolding sockets_init_main
  sockets_init_main-third s p q r rest a b c pools memory opened_socks up uq ur ab ac =
      let sock : ℤ = answers.unix_sock (owned_pool answers p) in
      let (p', first) =
        got_socket answers p a empty_table (one_socket sock a) s.log up
          (opened_socks (owned_pool answers p)) (first_stored answers.realloc_ok sock a) in
      let (q', second) =
        got_socket answers q b (one_socket sock a) (two_counted sock a) s.log uq
          (opened_socks (owned_pool answers q))
          (second_lost answers.realloc_ok sock (answers.unix_sock (owned_pool answers q)) a b
            (str_eq_ne a b ab)) in
      let third = read_null answers r c (two_counted sock a) s.log ur (
        third_reads_null answers.realloc_ok sock (answers.unix_sock (owned_pool answers r)) a c
          (str_eq_ne a c ac)) in
      let loop : listen_loop answers (p ∷ q ∷ r ∷ rest) empty_table s.log ≡ fault =
        listen_loop-cons answers p p' (q ∷ r ∷ rest) empty_table (one_socket sock a) s.log first (
          listen_loop-cons answers q q' (r ∷ rest) (one_socket sock a) (two_counted sock a) s.log
            second (listen_loop-fault answers r rest (two_counted sock a) s.log third)) in
      ap (λ m. m >>= listen_all answers >>= close_rest answers) (started s memory)
      ∙ ap
          (λ m.
            map_outcome (with_listened (record s { sockets_list = empty_table })) m
            >>= close_rest answers)
          (ap (λ l. listen_loop answers l empty_table s.log) pools ∙ loop)

  second_closed :
      (sock : ℤ) (key : Text)
      → close_unused (two_counted sock key)
        ≡ finished (zeroed ∷ []) (table_of 1 (two_counted sock key).cells)
  unfolding close_unused close_loop remove_item
  second_closed sock key = refl

  -- With two pools that listen on Unix sockets of different addresses the loops come to their end,
  -- but the table has lost the second socket: in its place is a member of zeros, for which the last
  -- loop closes descriptor 0, standard input.
  pub listen_all-second :
      (s : Master) (p q : WorkerPool) (a b : Text)
      → s.pools ≡ p ∷ q ∷ []
      → answers.calloc_ok ≡ true
      → ((wp : WorkerPool) → answers.unix_sock wp ≢ negsuc 0)
      → IsUnixPool answers p a
      → IsUnixPool answers q b
      → a ≢ b
      → (t : Master) × (start_table answers s >>= listen_all answers ≡ done t)
        × ((left : Table) × (close_unused t.sockets_list ≡ finished (zeroed ∷ []) left))
        × (close_calls zeroed ≡ closed (pos 0) ∷ [])
  listen_all-second s p q a b pools memory opened_socks up uq ab =
      let sock : ℤ = answers.unix_sock (owned_pool answers p) in
      let (p', first) =
        got_socket answers p a empty_table (one_socket sock a) s.log up
          (opened_socks (owned_pool answers p)) (first_stored answers.realloc_ok sock a) in
      let (q', second) =
        got_socket answers q b (one_socket sock a) (two_counted sock a) s.log uq
          (opened_socks (owned_pool answers q))
          (second_lost answers.realloc_ok sock (answers.unix_sock (owned_pool answers q)) a b
            (str_eq_ne a b ab)) in
      let loop =
        listen_loop-next answers p p' (q ∷ []) _ empty_table (one_socket sock a)
          (two_counted sock a) s.log first
          (listen_loop-next answers q q' [] [] (one_socket sock a) (two_counted sock a)
            (two_counted sock a) s.log second
            (listen_loop-nil answers (two_counted sock a) s.log)) in
      (
        with_listened (record s { sockets_list = empty_table })
            (note_queue answers p' ∷ note_queue answers q' ∷ [], two_counted sock a, s.log),
        ap (λ m. m >>= listen_all answers) (started s memory)
            ∙ ap (map_outcome (with_listened (record s { sockets_list = empty_table })))
                (ap (λ l. listen_loop answers l empty_table s.log) pools ∙ loop),
        (table_of 1 (two_counted sock a).cells, second_closed sock a),
        refl,
      )
