-- ===== src/Stdio.antt =====
-- pmf_stdio.c: the standard descriptors and the error log, as the calls that change what a
-- descriptor stands for. What the system answers is an argument.
pub mod Files
use pmf.Common.{
  Bool, List, Option, [], eqb_ℤ, if◌then◌else◌, ltb_ℤ, negsuc, not, pos, some, ℤ, ◌++◌, ◌||◌, ◌∷◌,
}
use pmf.Text.Chars.{Text, text}
use pmf.Conf.Records.{GlobalConfig}
use pmf.Log.Level.{LogState, set_fd}
use pmf.Master.{Master}

-- A call that succeeded: `open`, `dup2` and `close`.
pub data FdCall : Type 0 where
  opened : Option Text → ℤ → FdCall
  duplicated : ℤ → ℤ → FdCall
  closed : ℤ → FdCall

-- What `open` returns (`fd`), `dup2` for each new descriptor, and `isatty(STDERR_FILENO)`.
pub record StdioAnswers : Type 0 where
  pub fd : ℤ
  pub dup2 : ℤ → ℤ
  pub stderr_is_tty : Bool

abbrev pub stdin_fileno : ℤ
stdin_fileno = pos 0

abbrev pub stdout_fileno : ℤ
stdout_fileno = pos 1

abbrev pub stderr_fileno : ℤ
stderr_fileno = pos 2

-- A `dup2` whose answer is not looked at.
abbrev pub dup2_call : StdioAnswers → ℤ → ℤ → List FdCall
dup2_call answers old_fd new_fd =
    if ltb_ℤ (answers.dup2 new_fd) (pos 0) then [] else duplicated old_fd new_fd ∷ []

unfoldable pub use_error_log : StdioAnswers → GlobalConfig → Bool
use_error_log answers g = not (eqb_ℤ g.daemonize (pos 0)) || not answers.stderr_is_tty

abbrev pub with_error_log_fd : ℤ → Master → Master
with_error_log_fd fd s = record s { globals = record s.globals { error_log_fd = fd } }

abbrev pub with_log : LogState → Master → Master
with_log log s = record s { log = log }

-- The log is opened again: the new file takes the place of the old one.
unfoldable pub reopen_error_log : StdioAnswers → ℤ → Master → ℤ × Master × List FdCall
reopen_error_log answers fd s = (
  pos 0,
  s,
  opened s.config.error_log fd
        ∷ (if use_error_log answers s.config then dup2_call answers fd stderr_fileno else [])
      ++ dup2_call answers fd s.globals.error_log_fd
      ++ closed fd ∷ [],
)

-- The log is opened for the first time.
unfoldable pub first_error_log : StdioAnswers → ℤ → Master → ℤ × Master × List FdCall
first_error_log answers fd s =
    let opened_log : Master = with_error_log_fd fd s in
    (
      pos 0,
      if use_error_log answers s.config
          then with_log (set_fd fd s.log).1 opened_log
          else opened_log,
      opened s.config.error_log fd ∷ [],
    )

-- pmf_stdio_open_error_log. Setting FD_CLOEXEC at its end has no effect here but on a child, and
-- its failure is only logged.
unfoldable pub open_error_log : StdioAnswers → Bool → Master → ℤ × Master × List FdCall
open_error_log answers reopen s =
    if ltb_ℤ answers.fd (pos 0)
    then (negsuc 0, s, [])
    else if reopen
    then reopen_error_log answers answers.fd s
    else first_error_log answers answers.fd s

abbrev pub dev_null : Text
dev_null = text "/dev/null"

-- pmf_stdio_init_main: its result and its calls.
unfoldable pub stdio_init_main : StdioAnswers → ℤ × List FdCall
stdio_init_main answers =
    let fd : ℤ = answers.fd in
    if ltb_ℤ fd (pos 0)
    then (negsuc 0, [])
    else if ltb_ℤ (answers.dup2 stdin_fileno) (pos 0)
    then (negsuc 0, opened (some dev_null) fd ∷ closed fd ∷ [])
    else if ltb_ℤ (answers.dup2 stdout_fileno) (pos 0)
    then (negsuc 0, opened (some dev_null) fd ∷ duplicated fd stdin_fileno ∷ closed fd ∷ [])
    else (
      pos 0,
      opened (some dev_null) fd
          ∷ duplicated fd stdin_fileno
          ∷ duplicated fd stdout_fileno
          ∷ closed fd
          ∷ [],
    )
