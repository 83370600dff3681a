-- ===== src/Signals/Ready.antt =====
-- What the signals of pmf_signals.c are once they are set up, and what their handler tells.
use pmf.Common.{
  All, Bool, Bool-cases, List, Pairwise, [], ap, arith, eqb_ℤ_refl, false, if◌then◌else◌, inl, inr,
  ltb_ℤ, map, none, pos, pos_part, refl, some, subst, sym, true, ℕ, ℤ, ◌==◌, ◌∙◌, ◌∷◌, ◌≡◌, ◌≢◌,
  ◌⊎◌,
}
use pmf.Outcome.{Outcome, done, done-inj, failed}
use pmf.Master.{Master}
use pmf.Signals.{
  Attempt, SignalAnswers, SignalCall, attempt, attempts, cloexec, fd_set_blocked, flagged, handled,
  handled_signals, has_nonblock, set_up, sig_char, sig_handler, sigchld, sigint, signals_init_main,
  sigquit, sigterm, sigusr1, sigusr2, with_attempts, without_nonblock,
}

-- The signal of a character that the handler writes.
unfoldable pub signo_of : ℕ → ℕ
signo_of c =
    if c == b'T'
    then sigterm
    else if c == b'I'
    then sigint
    else if c == b'1'
    then sigusr1
    else if c == b'2'
    then sigusr2
    else if c == b'Q'
    then sigquit
    else sigchld

signo_of-sig_char : (signo : ℕ) → sig_char signo ≢ 0 → signo_of (sig_char signo) ≡ signo
unfolding sig_char signo_of
signo_of-sig_char signo h = ground arith

sig_handler-master :
    (s : Master) (signo : ℕ)
    → sig_handler s s.globals.parent_pid signo ≡ (s.sp.1, sig_char signo) ∷ []
unfolding sig_handler
sig_handler-master s signo = let e = eqb_ℤ_refl s.globals.parent_pid in rw e refl

chars-eq : (fd : ℤ) (c d : ℕ) → ◌≡◌ {A = List (ℤ × ℕ)} ((fd, c) ∷ []) ((fd, d) ∷ []) → c ≡ d
chars-eq fd c d h = cc

-- The reader of the socket can tell the signals apart: if the handler of the master writes the same
-- for two signals, the first of which has a character but NUL, they are the same signal.
pub sig_handler-distinct :
    (s : Master) (signo signo' : ℕ)
    → sig_char signo ≢ 0
    → sig_handler s s.globals.parent_pid signo ≡ sig_handler s s.globals.parent_pid signo'
    → signo ≡ signo'
sig_handler-distinct s signo signo' h e =
    let same : sig_char signo ≡ sig_char signo' =
      chars-eq s.sp.1 (sig_char signo) (sig_char signo')
        (sym (sig_handler-master s signo) ∙ e ∙ sig_handler-master s signo') in
    sym (signo_of-sig_char signo h)
    ∙ ap signo_of same
    ∙ signo_of-sig_char signo' (λ z. h (same ∙ z))

-- The attempt fails or makes this call.
abbrev Makes : Attempt → SignalCall → Type 0
Makes a call = (a ≡ none) ⊎ (a ≡ some call)

attempt-Makes :
    (code : ℤ) (call : SignalCall) → (attempt code call ≡ none) ⊎ (attempt code call ≡ some call)
attempt-Makes code call = elim (Bool-cases (ltb_ℤ code (pos 0))) [
  | inl e ↦ inl (rw e refl)
  | inr e ↦ inr (rw e refl)
]

attempts-all :
    (tries : List Attempt) (calls : List SignalCall)
    → Pairwise Makes tries calls
    → (attempts tries).0 ≡ true
    → (attempts tries).1 ≡ calls
unfolding attempts
attempts-all [] [] m h = refl
attempts-all [] (call ∷ calls) m h = absurd m
attempts-all (a ∷ rest) [] m h = absurd m
attempts-all (none ∷ rest) (call ∷ calls) m h = absurd (cc)
attempts-all (some c ∷ rest) (call ∷ calls) (inl e, m) h = absurd (cc)
attempts-all (some c ∷ rest) (call ∷ calls) (inr e, m) h =
    let same : c ≡ call = cc in
    ap (λ x. x ∷ (attempts rest).1) same ∙ ap (call ∷◌) (attempts-all rest calls m h)

fd_set_blocked-Makes :
    (answers : SignalAnswers) (fd : ℤ)
    → (fd_set_blocked answers fd false ≡ none)
      ⊎ (fd_set_blocked answers fd false
          ≡ some (flagged fd (without_nonblock (pos_part (answers.getfl fd)))))
unfolding fd_set_blocked
fd_set_blocked-Makes answers fd = elim (Bool-cases (ltb_ℤ (answers.getfl fd) (pos 0))) [
  | inl e ↦ inl (rw e refl)
  | inr e ↦ rw e (attempt-Makes (answers.setfl fd) _)
]

without_nonblock-clears : (flags : ℕ) → has_nonblock (without_nonblock flags) ≡ false
without_nonblock-clears flags = ground arith

-- The calls of a set-up that succeeds.
abbrev pub set_up_calls : SignalAnswers → List SignalCall
set_up_calls answers =
    flagged answers.sp.0 (without_nonblock (pos_part (answers.getfl answers.sp.0)))
    ∷ flagged answers.sp.1 (without_nonblock (pos_part (answers.getfl answers.sp.1)))
    ∷ cloexec answers.sp.0
    ∷ cloexec answers.sp.1
    ∷ map handled handled_signals

set_up-Makes : (answers : SignalAnswers) → Pairwise Makes (set_up answers) (set_up_calls answers)
unfolding set_up
set_up-Makes answers =
    let handles = λ (signo : ℕ). attempt-Makes (answers.sigaction signo) (handled signo) in
    let closes = λ (fd : ℤ). attempt-Makes (answers.setfd fd) (cloexec fd) in
    let clears = fd_set_blocked-Makes answers in
    (
      clears answers.sp.0,
      (
        clears answers.sp.1,
        (
          closes answers.sp.0,
          (
            closes answers.sp.1,
            (
              handles sigterm,
              (
                handles sigint,
                (handles sigusr1, (handles sigusr2, (handles sigchld, (handles sigquit, tt)))),
              ),
            ),
          ),
        ),
      ),
    )

-- What a call does to a descriptor leaves it blocking.
abbrev pub IsBlocking : SignalCall → Type 0
IsBlocking (flagged fd flags) = has_nonblock flags ≡ false
IsBlocking (cloexec fd) = Unit
IsBlocking (handled signo) = sig_char signo ≢ 0

set_up_calls-IsBlocking : (answers : SignalAnswers) → All IsBlocking (set_up_calls answers)
unfolding sig_char
set_up_calls-IsBlocking answers = (
  without_nonblock-clears (pos_part (answers.getfl answers.sp.0)),
  (
    without_nonblock-clears (pos_part (answers.getfl answers.sp.1)),
    (tt, (tt, ((λ e. cc), ((λ e. cc), ((λ e. cc), ((λ e. cc), ((λ e. cc), ((λ e. cc), tt)))))))),
  ),
)

with_attempts-done :
    (paired s' : Master) (r : Bool × List SignalCall) (calls : List SignalCall)
    → with_attempts paired r ≡ (done s', calls)
    → (r.0 ≡ true) × (paired ≡ s') × (r.1 ≡ calls)
with_attempts-done paired s' (true, made) calls h =
    (refl, done-inj paired s' (ap (λ q. q.0) h), ap (λ q. q.1) h)
with_attempts-done paired s' (false, made) calls h =
    let bad : failed paired ≡ done s' = ap (λ q. q.0) h in absurd (cc)

with_pair :
    (failing : Bool) (s s' : Master) (rest : Outcome Master × List SignalCall)
    (calls : List SignalCall)
    → (if failing then (failed s, []) else rest) ≡ (done s', calls)
    → rest ≡ (done s', calls)
with_pair true s s' rest calls h = let bad : failed s ≡ done s' = ap (λ q. q.0) h in absurd (cc)
with_pair false s s' rest calls h = h

-- Where the set-up of the signals succeeds it has made these calls: it has cleared O_NONBLOCK on
-- both ends of the pair, so that they block, and set them to be closed in what is executed, and it
-- handles the six signals, each of which has a character. The state keeps the pair and changes in
-- nothing else.
pub signals_init_main-ready :
    (answers : SignalAnswers) (s s' : Master) (calls : List SignalCall)
    → signals_init_main answers s ≡ (done s', calls)
    → (s' ≡ record s { sp = answers.sp }) × (calls ≡ set_up_calls answers) × All IsBlocking calls
unfolding signals_init_main
signals_init_main-ready answers s s' calls h =
    let (all, same, made) =
      with_attempts-done (record s { sp = answers.sp }) s' (attempts (set_up answers)) calls
        (with_pair (ltb_ℤ answers.socketpair (pos 0)) s s' _ calls h) in
    let exact : calls ≡ set_up_calls answers =
      sym made ∙ attempts-all (set_up answers) (set_up_calls answers) (set_up-Makes answers) all in
    (sym same, exact, subst (All IsBlocking) (sym exact) (set_up_calls-IsBlocking answers))
