-- ===== src/Sockets/Opening/Cleanup.antt =====
-- What pmf_sockets_new_listening_socket leaves behind, on every branch.
use pmf.Common.{
  Bool, Bool-cases, List, [], arith, eqb_ℤ, false, if◌then◌else◌, inl, inr, leb_ℤ, ltb_ℤ, negsuc,
  not, pos, refl, true, ℕ, ℤ, ◌==◌, ◌||◌, ◌∷◌, ◌≡◌, ◌≤ℤ◌,
}
use pmf.Text.Chars.{Text}
use pmf.Conf.Records.{WorkerPool}
use pmf.Sockets.Address.{pmf_af_unix}
use pmf.Sockets.Opening.Effects.{Ends, after-Ends, mask_after, open_after, quiet-Ends, without-head}
use pmf.Sockets.Opening.{
  Answers, Run, after, bind_inet, bind_unix, bound, closed, mask_of, masked, new_listening_socket,
  opened, set_socket_premissions, start_listening, test_connect, unlinked, with_premissions,
  with_test,
}

module _ (answers : Answers) (wp : WorkerPool) (fds : List ℤ) where
  -- The socket is closed, and the call fails.
  closed-Ends :
      (umask : ℕ) → Ends (negsuc 0, closed answers.sock ∷ []) (answers.sock ∷ fds) fds umask umask
  closed-Ends umask = record { descriptors = without-head answers.sock fds; restored = refl }

  start_listening-Ends :
      (umask : ℕ)
      → pos 0 ≤ℤ answers.sock
      → Ends (start_listening answers wp) (answers.sock ∷ fds) fds umask umask
  unfolding start_listening
  start_listening-Ends umask h = elim (Bool-cases (ltb_ℤ answers.listen (pos 0))) [
    | inl e ↦ rw e (closed-Ends umask)
    | inr e ↦
        let sign : leb_ℤ (pos 0) answers.sock ≡ true = ground arith in
        rw e (record { descriptors = rw sign; restored = refl })
  ]

  set_socket_premissions-quiet :
      (path : Text) (kept : List ℤ) (mask : ℕ)
      → (open_after (set_socket_premissions answers wp path).1 kept ≡ kept)
        × (mask_after (set_socket_premissions answers wp path).1 mask ≡ mask)
  unfolding set_socket_premissions
  set_socket_premissions-quiet path kept mask =
      elim (Bool-cases
        (not (eqb_ℤ wp.socket_uid (negsuc 0)) || not (eqb_ℤ wp.socket_gid (negsuc 0)))) [
          | inl e ↦ rw e (refl, refl)
          | inr e ↦ rw e (refl, refl)
        ]

  with_premissions-Ends :
      (umask : ℕ) (run : Run)
      → pos 0 ≤ℤ answers.sock
      → open_after run.1 (answers.sock ∷ fds) ≡ answers.sock ∷ fds
      → mask_after run.1 umask ≡ umask
      → Ends (with_premissions answers wp run) (answers.sock ∷ fds) fds umask umask
  with_premissions-Ends umask (code, calls) h same still =
      quiet-Ends calls _ _ umask umask same still (refused_or_listening code)
    where
      refused_or_listening :
          (result : ℤ)
          → Ends
              (if ltb_ℤ result (pos 0)
                then (negsuc 0, closed answers.sock ∷ [])
                else start_listening answers wp)
              (answers.sock ∷ fds)
              fds
              umask
              umask
      refused_or_listening result = elim (Bool-cases (ltb_ℤ result (pos 0))) [
        | inl e ↦ rw e (closed-Ends umask)
        | inr e ↦ rw e (start_listening-Ends umask h)
      ]

  bind_unix-Ends :
      (path : Text) (mask : ℕ)
      → pos 0 ≤ℤ answers.sock
      → Ends (bind_unix answers wp path) (answers.sock ∷ fds) fds mask answers.umask
  unfolding bind_unix
  bind_unix-Ends path mask h = elim (Bool-cases (ltb_ℤ answers.bind (pos 0))) [
    | inl e ↦
        rw e (after-Ends (masked answers.umask ∷ []) _ _ fds mask _ (closed-Ends answers.umask))
    | inr e ↦
        let (same, still) = set_socket_premissions-quiet path (answers.sock ∷ fds) answers.umask in
        rw e (
          after-Ends (bound answers.sock ∷ masked answers.umask ∷ []) _ _ fds mask _ (
            with_premissions-Ends answers.umask (set_socket_premissions answers wp path) h same
              still))
  ]

  bind_inet-Ends :
      (umask : ℕ)
      → pos 0 ≤ℤ answers.sock
      → Ends (bind_inet answers wp) (answers.sock ∷ fds) fds umask umask
  unfolding bind_inet
  bind_inet-Ends umask h = elim (Bool-cases (ltb_ℤ answers.bind (pos 0))) [
    | inl e ↦ rw e (closed-Ends umask)
    | inr e ↦
        rw e (after-Ends (bound answers.sock ∷ []) _ _ fds umask _ (start_listening-Ends umask h))
  ]

  test_connect-quiet :
      (af_unix : Bool) (kept : List ℤ) (mask : ℕ)
      → (open_after (test_connect answers af_unix).1 kept ≡ kept)
        × (mask_after (test_connect answers af_unix).1 mask ≡ mask)
  unfolding test_connect
  test_connect-quiet false kept mask = (refl, refl)
  test_connect-quiet true kept mask = elim (Bool-cases (ltb_ℤ answers.test_sock (pos 0))) [
    | inl e ↦ rw e (refl, refl)
    | inr e ↦ rw e (elim (Bool-cases (eqb_ℤ answers.connect (negsuc 0))) [
      | inl f ↦ rw f (without-head answers.test_sock kept, refl)
      | inr f ↦ rw f (without-head answers.test_sock kept, refl)
    ])
  ]

  with_test-Ends :
      (path : Text) (run : Run)
      → pos 0 ≤ℤ answers.sock
      → open_after run.1 (answers.sock ∷ fds) ≡ answers.sock ∷ fds
      → mask_after run.1 answers.umask ≡ answers.umask
      → Ends (with_test answers wp path run) (answers.sock ∷ fds) fds answers.umask answers.umask
  with_test-Ends path (code, calls) h same still =
      quiet-Ends calls _ _ answers.umask answers.umask same still (in_use_or_bound code)
    where
      in_use_or_bound :
          (result : ℤ)
          → Ends
              (if eqb_ℤ result (pos 0)
                then (negsuc 0, closed answers.sock ∷ [])
                else after
                    (unlinked path ∷ masked (mask_of wp.socket_mode) ∷ [])
                    (bind_unix answers wp path))
              (answers.sock ∷ fds)
              fds
              answers.umask
              answers.umask
      in_use_or_bound result = elim (Bool-cases (eqb_ℤ result (pos 0))) [
        | inl e ↦ rw e (closed-Ends answers.umask)
        | inr e ↦ rw e (
            after-Ends (unlinked path ∷ masked (mask_of wp.socket_mode) ∷ []) _ _ fds _ _
              (bind_unix-Ends path (mask_of wp.socket_mode) h))
      ]

  opened-Ends :
      (af_unix : Bool) (path : Text)
      → pos 0 ≤ℤ answers.sock
      → Ends
          (if wp.listen_address_domain == pmf_af_unix
            then with_test answers wp path (test_connect answers af_unix)
            else bind_inet answers wp)
          (answers.sock ∷ fds)
          fds
          answers.umask
          answers.umask
  opened-Ends af_unix path h = elim (Bool-cases (wp.listen_address_domain == pmf_af_unix)) [
    | inl e ↦
        let (same, still) = test_connect-quiet af_unix (answers.sock ∷ fds) answers.umask in
        rw e (with_test-Ends path (test_connect answers af_unix) h same still)
    | inr e ↦ rw e (bind_inet-Ends answers.umask h)
  ]

  new_listening_socket-Ends :
      (af_unix : Bool) (path : Text)
      → Ends (new_listening_socket answers wp af_unix path) fds fds answers.umask answers.umask
  unfolding new_listening_socket
  new_listening_socket-Ends af_unix path = elim (Bool-cases (ltb_ℤ answers.sock (pos 0))) [
    | inl e ↦ rw e (record { descriptors = refl; restored = refl })
    | inr e ↦ rw e (
        after-Ends (opened answers.sock ∷ []) _ _ fds _ _ (opened-Ends af_unix path (ground arith)))
  ]

  -- Every way out of pmf_sockets_new_listening_socket leaves no descriptor open but the one that it
  -- returns, and leaves the file mask as it was, also where it has changed it in between.
  pub new_listening_socket-cleans :
      (af_unix : Bool) (path : Text)
      → let (result, calls) = new_listening_socket answers wp af_unix path in
        (open_after calls fds ≡ (if leb_ℤ (pos 0) result then result ∷ fds else fds))
        × (mask_after calls answers.umask ≡ answers.umask)
  new_listening_socket-cleans af_unix path =
      let e = new_listening_socket-Ends af_unix path in (e.descriptors, e.restored)
