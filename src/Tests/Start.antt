-- ===== src/Tests/Start.antt =====
-- The standard descriptors, the pid file, the clock, the faults, the signals and the start of the
-- master with some answers of the system.
use pmf.Common.{
  All, Bool, [], arith, eqb_ℤ, false, if◌then◌else◌, inr, leb_ℤ, ltb, negsuc, none, pos, refl,
  replicate, some, to_u64, true, ℕ, ℤ, ◌&&◌, ◌<ℤ◌, ◌<◌, ◌||◌, ◌∷◌, ◌≡◌, ◌≢◌, ◌≤ℤ◌, ◌≤◌, ◌⊎◌,
}
use pmf.Outcome.{done}
use pmf.Text.Chars.{Text, text}
use pmf.Text.Decimal.{show_int}
use pmf.Text.Number.{atoi}
use pmf.Conf.Records.{GlobalConfig, global_config_initial}
use pmf.Master.{Master, globals_initial}
use pmf.Stdio.{
  StdioAnswers, dev_null, open_error_log, stderr_fileno, stdin_fileno, stdio_init_main,
  stdout_fileno, use_error_log,
}
use pmf.Stdio.Files.{
  Descriptors, files_after, input_moved, open_error_log-reopens, output_moved,
  stdio_init_main-files,
}
use pmf.Conf.Pid.{Disk, PidAnswers, disk_after, unlink_pid, write_pid, write_pid-unlink_pid}
use pmf.Clock.{Before, ClockAnswers, clock_get, clock_get-ordered, clock_init}
use pmf.Children.{children_init_main, children_init_main-faults}
use pmf.Signals.{
  SignalAnswers, attempts, fd_set_blocked, set_up, sig_char, signals_init_main, sigterm,
}
use pmf.Signals.Ready.{IsBlocking, set_up_calls, sig_handler-distinct, signals_init_main-ready}
use pmf.Unix.{Accounts}
use pmf.Unix.Start.{
  UnixAnswers, after_fork, await_answer, daemonize, limit_core, limit_files, unix_init_main,
}
use pmf.Unix.Start.Roles.{Role, unix_init_main-Role}
use pmf.Main.{master_initial}

abbrev stdio_answers : StdioAnswers
stdio_answers = record { fd = pos 7; dup2 = λ fd. fd; stderr_is_tty = true }

-- Only the three standard descriptors and the log, at 5, are open.
abbrev some_files : Descriptors
some_files n =
    if leb_ℤ (pos 0) n && leb_ℤ n (pos 2)
    then some (some (text "/dev/tty"))
    else if eqb_ℤ n (pos 5)
    then some (some (text "/log.1"))
    else none

stdio_init_main-files_example :
    let (code, calls) = stdio_init_main stdio_answers in
    (code ≡ (if output_moved stdio_answers then pos 0 else negsuc 0))
    × (files_after calls some_files (pos 0) ≡ (
        if eqb_ℤ (pos 0) (pos 7)
        then none
        else if eqb_ℤ (pos 0) stdin_fileno && input_moved stdio_answers
            || eqb_ℤ (pos 0) stdout_fileno && output_moved stdio_answers
        then some (some dev_null)
        else some_files (pos 0)))
stdio_init_main-files_example = stdio_init_main-files stdio_answers some_files (pos 0) refl

abbrev as_daemon : GlobalConfig
as_daemon = record global_config_initial {
  daemonize = pos 1;
  error_log = some (text "/log");
  pid_file = some (text "/pid");
  emergency_restart_threshold = pos 3;
  emergency_restart_interval = pos 60;
}

abbrev logging : Master
logging = record master_initial {
  config = as_daemon;
  globals = record globals_initial { error_log_fd = pos 5; parent_pid = pos 42 };
}

moves : (new_fd : ℤ) → pos 0 ≤ℤ (if leb_ℤ (pos 0) new_fd then new_fd else pos 0)
moves new_fd = ground arith

abbrev moving : StdioAnswers
moving = record stdio_answers { dup2 = λ fd. if leb_ℤ (pos 0) fd then fd else pos 0 }

open_error_log-reopens_test :
    let (code, s', calls) = open_error_log moving true logging in
    (code ≡ pos 0)
    × (s' ≡ logging)
    × (files_after calls some_files (pos 5) ≡ (
        if eqb_ℤ (pos 5) (pos 5) || eqb_ℤ (pos 5) stderr_fileno && use_error_log moving as_daemon
        then some (some (text "/log"))
        else some_files (pos 5)))
open_error_log-reopens_test =
    open_error_log-reopens moving logging some_files (pos 5) (omega arith) moves refl (λ e. cc)
      (λ e. cc)

abbrev pid_answers : PidAnswers
pid_answers = record { unlink = pos 0; creat = pos 6; write = pos 2 }

abbrev empty_disk : Disk
empty_disk = record { content = λ path. none; path_of = λ fd. none }

pid_written : (write_pid pid_answers logging).0 ≡ pos 0
unfolding write_pid show_int
pid_written = refl

write_pid-unlink_pid_example :
    let written : Disk = disk_after (write_pid pid_answers logging).1 empty_disk in
    let removed : Disk = disk_after (unlink_pid pid_answers logging).1 written in
    ((content : Text) × (written.content (text "/pid") ≡ some content) × (atoi content ≡ pos 42))
    × (written.path_of (pos 6) ≡ none)
    × ((other : Text) → other ≢ text "/pid" → written.content other ≡ empty_disk.content other)
    × (removed.content (text "/pid") ≡ none)
write_pid-unlink_pid_example =
    write_pid-unlink_pid pid_answers pid_answers logging empty_disk (text "/pid")
      (record { above = omega arith; below = omega arith }) refl pid_written
      (unfold unlink_pid in refl)

abbrev at_time : ℕ → ℕ → ClockAnswers
at_time sec nsec = record { monotonic = some (pos sec, pos nsec); time_of_day = none }

clock_get-ordered_test :
    let ready = (clock_init (at_time 0 0) logging).1 in
    ((t : ℤ × ℤ) × (t' : ℤ × ℤ) × (clock_get (at_time 3 900) ready ≡ some t)
      × (clock_get (at_time 3 1200) ready ≡ some t')
      × Before t t'
      × (t'.1 <ℤ pos 1000000))
clock_get-ordered_test =
    clock_get-ordered logging (at_time 0 0) (at_time 3 900) (at_time 3 1200) (pos 0, pos 0) 3 900 3
      1200 refl refl refl (inr (refl, omega arith)) (omega arith)

abbrev small_blocks : ℕ → Bool
small_blocks size = ltb size 0x8000_0000_0000_0000

small_blocks-limit : (size : ℕ) → 0x8000_0000_0000_0000 ≤ size → small_blocks size ≡ false
small_blocks-limit size h = ground arith

abbrev with_faults : Master
with_faults = record logging { last_faults = some (pos 0 ∷ pos 0 ∷ pos 0 ∷ []) }

faults_made : children_init_main small_blocks logging ≡ done with_faults
unfolding children_init_main to_u64
faults_made = refl

children_init_main-faults_example :
    (((pos 3 ≡ pos 0) ⊎ (as_daemon.emergency_restart_interval ≡ pos 0)) × (with_faults ≡ logging))
    ⊎ ((n : ℕ) × (pos 3 ≡ pos n)
        × (0 < n)
        × (as_daemon.emergency_restart_interval ≢ pos 0)
        × (record logging { last_faults = some (replicate n (pos 0)) } ≡ with_faults))
children_init_main-faults_example =
    children_init_main-faults small_blocks logging with_faults small_blocks-limit
      (record { above = omega arith; below = omega arith }) faults_made

-- Both ends of the pair do not block before.
abbrev signal_answers : SignalAnswers
signal_answers = record {
  socketpair = pos 0;
  sp = (pos 8, pos 9);
  getfl = λ fd. pos 2050;
  setfl = λ fd. pos 0;
  setfd = λ fd. pos 0;
  sigaction = λ signo. pos 0;
}

abbrev paired : Master
paired = record logging { sp = (pos 8, pos 9) }

signals_made : signals_init_main signal_answers logging ≡ (done paired, set_up_calls signal_answers)
unfolding signals_init_main set_up attempts fd_set_blocked
signals_made = refl

signals_init_main-ready_example :
    (paired ≡ record logging { sp = (pos 8, pos 9) })
    × (set_up_calls signal_answers ≡ set_up_calls signal_answers)
    × All IsBlocking (set_up_calls signal_answers)
signals_init_main-ready_example =
    signals_init_main-ready signal_answers logging paired (set_up_calls signal_answers) signals_made

sigterm-character : sig_char sigterm ≢ 0
unfolding sig_char
sigterm-character e = cc

sig_handler-distinct_test : sigterm ≡ sigterm
sig_handler-distinct_test = sig_handler-distinct paired sigterm sigterm sigterm-character refl

abbrev no_accounts : Accounts
no_accounts = record { is_root = false; getpwnam = λ n. none; getgrnam = λ n. none; own = none }

-- The process that forked the master reads its answer.
abbrev calling : UnixAnswers
calling = record {
  accounts = no_accounts;
  limit_files = pos 0;
  limit_core = pos 0;
  pipe = (pos 0, (pos 10, pos 11));
  fork = pos 43;
  select = pos 1;
  read = pos 4;
  readval = pos 1;
  clock = at_time 0 0;
  setpriority = pos 0;
  getpid = pos 42;
}

abbrev acknowledged : Master
acknowledged = record logging {
  globals = record globals_initial {
    error_log_fd = pos 5;
    parent_pid = pos 42;
    send_config_pipe = (pos 10, pos 11);
  };
}

caller_goes_on : (unix_init_main calling logging).0 ≡ done acknowledged
unfolding unix_init_main limit_files limit_core daemonize after_fork await_answer
caller_goes_on = refl

unix_init_main-Role_example : Role calling logging acknowledged
unix_init_main-Role_example = unix_init_main-Role calling logging acknowledged caller_goes_on
