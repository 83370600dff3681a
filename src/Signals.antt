-- ===== src/Signals.antt =====
-- pmf_signals.c, and fd_set_blocked of pmf_sockets.h. What the system answers is an argument.
pub mod Ready
use pmf.Common.{
  Bool, List, Option, [], eqb_ℤ, false, if◌then◌else◌, ltb_ℤ, map, none, not, pos, pos_part, some,
  true, ℕ, ℤ, ◌%◌, ◌+◌, ◌-◌, ◌/◌, ◌==◌, ◌∷◌,
}
use pmf.Outcome.{Outcome, done, failed}
use pmf.Master.{Master}

-- The signals that are handled, by the numbers of Linux.
abbrev pub sigint : ℕ
sigint = 2

abbrev pub sigquit : ℕ
sigquit = 3

abbrev pub sigusr1 : ℕ
sigusr1 = 10

abbrev pub sigusr2 : ℕ
sigusr2 = 12

abbrev pub sigterm : ℕ
sigterm = 15

abbrev pub sigchld : ℕ
sigchld = 17

-- `sig_chars`; the other characters are 0.
unfoldable pub sig_char : ℕ → ℕ
sig_char signo =
    if signo == sigterm
    then b'T'
    else if signo == sigint
    then b'I'
    else if signo == sigusr1
    then b'1'
    else if signo == sigusr2
    then b'2'
    else if signo == sigquit
    then b'Q'
    else if signo == sigchld
    then b'C'
    else 0

-- sig_handler, given the pid of the process: the bytes that it writes and the descriptor. errno is
-- as before.
unfoldable pub sig_handler : Master → ℤ → ℕ → List (ℤ × ℕ)
sig_handler s pid signo =
    if not (eqb_ℤ s.globals.parent_pid pid) then [] else (s.sp.1, sig_char signo) ∷ []

-- `O_NONBLOCK` of Linux, one bit.
abbrev pub o_nonblock : ℕ
o_nonblock = 2048

abbrev pub has_nonblock : ℕ → Bool
has_nonblock flags = flags / o_nonblock % 2 == 1

-- `flags | O_NONBLOCK` and `flags & ~O_NONBLOCK`.
abbrev pub with_nonblock : ℕ → ℕ
with_nonblock flags = if has_nonblock flags then flags else flags + o_nonblock

abbrev pub without_nonblock : ℕ → ℕ
without_nonblock flags = if has_nonblock flags then flags - o_nonblock else flags

-- A call that succeeded.
pub data SignalCall : Type 0 where
  flagged : ℤ → ℕ → SignalCall
  cloexec : ℤ → SignalCall
  handled : ℕ → SignalCall

-- What `socketpair` returns and stores, `fcntl` returns for each descriptor with F_GETFL, F_SETFL
-- and F_SETFD, and `sigaction` for each signal.
pub record SignalAnswers : Type 0 where
  pub socketpair : ℤ
  pub sp : ℤ × ℤ
  pub getfl : ℤ → ℤ
  pub setfl : ℤ → ℤ
  pub setfd : ℤ → ℤ
  pub sigaction : ℕ → ℤ

-- An attempt, which fails or makes a call.
abbrev pub Attempt : Type 0
Attempt = Option SignalCall

abbrev pub attempt : ℤ → SignalCall → Attempt
attempt code call = if ltb_ℤ code (pos 0) then none else some call

-- fd_set_blocked.
unfoldable pub fd_set_blocked : SignalAnswers → ℤ → Bool → Attempt
fd_set_blocked answers fd blocked =
    let flags : ℤ = answers.getfl fd in
    if ltb_ℤ flags (pos 0)
    then none
    else attempt (answers.setfl fd) (
        flagged fd
          (if blocked then with_nonblock (pos_part flags) else without_nonblock (pos_part flags)))

-- A chain of `||` up to the first attempt that fails: whether none failed, and the calls.
unfoldable pub attempts : List Attempt → Bool × List SignalCall
attempts [] = (true, [])
attempts (none ∷ rest) = (false, [])
attempts (some call ∷ rest) = let (all, calls) = attempts rest in (all, call ∷ calls)

abbrev pub handled_signals : List ℕ
handled_signals = sigterm ∷ sigint ∷ sigusr1 ∷ sigusr2 ∷ sigchld ∷ sigquit ∷ []

abbrev pub handle : SignalAnswers → ℕ → Attempt
handle answers signo = attempt (answers.sigaction signo) (handled signo)

-- The attempts of pmf_signals_init_main after `socketpair`, in order.
unfoldable pub set_up : SignalAnswers → List Attempt
set_up answers =
    fd_set_blocked answers answers.sp.0 false
    ∷ fd_set_blocked answers answers.sp.1 false
    ∷ attempt (answers.setfd answers.sp.0) (cloexec answers.sp.0)
    ∷ attempt (answers.setfd answers.sp.1) (cloexec answers.sp.1)
    ∷ map (handle answers) handled_signals

abbrev pub with_attempts : Master → Bool × List SignalCall → Outcome Master × List SignalCall
with_attempts paired (true, calls) = (done paired, calls)
with_attempts paired (false, calls) = (failed paired, calls)

-- pmf_signals_init_main: its outcome and its calls. The pair stays open where it fails.
unfoldable pub signals_init_main : SignalAnswers → Master → Outcome Master × List SignalCall
signals_init_main answers s =
    if ltb_ℤ answers.socketpair (pos 0)
    then (failed s, [])
    else with_attempts (record s { sp = answers.sp }) (attempts (set_up answers))
