-- ===== src/Tests/Run.antt =====
-- A whole start: a main file, an include directory with one pool, and answers of the system that
-- let every part succeed.
use pmf.Common.{
  All, List, Option, Pairwise, [], arith, false, get_elem?, if◌then◌else◌, length, negsuc, none,
  pos, refl, some, true, ◌++◌, ◌+◌, ◌∷◌, ◌≡◌, ◌≤ℤ◌,
}
use pmf.Outcome.{Outcome, done, failed, fault, run_all}
use pmf.Text.Chars.{Text, str_case_eq, str_eq, text}
use pmf.Text.Search.{all_digits, has_char, split_first, split_last}
use pmf.Text.Number.{atoi, strtol}
use pmf.Text.Decimal.{show_int}
use pmf.Conf.Values.{set_integer, set_pm}
use pmf.Conf.Expand.{expand_pool_name, set_string}
use pmf.Conf.Records.{WorkerPool, pool_config_initial}
use pmf.Conf.Options.{run_parser, write_global, write_pool}
use pmf.Conf.Parse.{
  Ini, name_taken, new_pool, options_loop, other_section, other_sections, parse_global_ini,
  parse_pool_ini, section_round, sections_loop,
}
use pmf.Conf.Parse.Names.{Distinct}
use pmf.Conf.Check.{check_common, check_listen, check_pool, check_style}
use pmf.Conf.Check.Pools.{check_pools, process_all_pools}
use pmf.Conf.Load.{
  ConfAnswers, check_global, conf_init_main, file_round, files_loop, is_dir, load_conf_file,
  parse_pool_config, proc_config,
}
use pmf.Conf.Load.Directory.{WasRead, files_loop-reads, sections_in}
use pmf.Conf.Load.Configured.{IsConfigured}
use pmf.Conf.Load.Start.{conf_init_main-IsConfigured}
use pmf.Conf.Pid.{write_pid}
use pmf.Log.Level.{set_fd, set_level}
use pmf.Shm.{block}
use pmf.Stdio.{StdioAnswers, first_error_log, open_error_log, stdio_init_main, use_error_log}
use pmf.Clock.{clock_init}
use pmf.Unix.{Accounts, conf_wp}
use pmf.Unix.Start.{
  UnixAnswers, as_master, conf_pools, daemonize, limit_core, limit_files, own_pools, unix_init_main,
}
use pmf.Signals.{SignalAnswers, attempts, fd_set_blocked, set_up, signals_init_main}
use pmf.Sockets.Address.{domain_from_address}
use pmf.Sockets.Setup.Listening.{Listens, SameRest, sockets_init_main-Listens}
use pmf.Array.{init, push}
use pmf.Scoreboard.Update.{raise_active_max, set_counts, update, update_locked}
use pmf.Sockets.Table.{get_listening_socket, get_use_socket, hash_op, search_key, store_socket}
use pmf.Sockets.Binding.{
  addresses_loop, af_inet_listening_socket, socket_by_addr, strip_brackets, target,
}
use pmf.Sockets.Closing.{close_loop, close_unused}
use pmf.Sockets.Setup.{
  SocketAnswers, get_listening_queue, listen_loop, listen_pool, note_queue, sockets_init_main,
}
use pmf.Master.{Master}
use pmf.Main.{
  World, init_children, init_scoreboards, init_signals, init_sockets, init_unix, master_initial,
  pmf_init,
}
use pmf.Main.Kept.{IsRunning}
use pmf.Main.Running.{pmf_init-IsRunning}
use pmf.Scoreboard.Setup
use pmf.Events
use pmf.Children.{children_init_main}
use pmf.Scoreboard.Setup

-- The sections of a file, and the value of each key.
record Contents : Type 0 where
  sections : List Text
  values : List (Text × Text)

abbrev value_in : List (Text × Text) → Text → Option Text
value_in [] key = none
value_in ((k, v) ∷ values) key = if str_eq key k then some v else value_in values key

abbrev main_file : Contents
main_file = record {
  sections = text "global" ∷ [];
  values = (text "global:include_dir", text "/pools") ∷ [];
}

abbrev pool_file : Contents
pool_file = record {
  sections = text "web" ∷ [];
  values =
      (text "web:listen", text "9000")
      ∷ (text "web:pm", text "static")
      ∷ (text "web:pm.max_children", text "2")
      ∷ [];
}

abbrev files : Ini Contents
files = record {
  load = λ path.
      if str_eq path (text "/etc/pmf.conf")
      then some main_file
      else if str_eq path (text "/pools/web.conf")
      then some pool_file
      else none;
  getnsec = λ d. pos (length d.sections);
  getsecname = λ d n. get_elem? d.sections n;
  getstring = λ d key. value_in d.values key;
}

abbrev stdio_answers : StdioAnswers
stdio_answers = record { fd = pos 3; dup2 = λ fd. fd; stderr_is_tty = true }

-- Everything is a directory; the include directory has a hidden name beside the pool's file.
abbrev conf_answers : ConfAnswers
conf_answers = record {
  stat = λ path. (pos 0, 16877);
  opendir = λ path. some (text "." ∷ text "web.conf" ∷ []);
  malloc_ok = true;
  strdup_ok = true;
  left_over = λ path. pos 0;
  stdio = stdio_answers;
}

names_read :
    files_loop files conf_answers (text "/pools") (text "." ∷ text "web.conf" ∷ []) []
    ≡ done (
        new_pool (record pool_config_initial {
          name = some (text "web");
          listen_address = some (text "9000");
          pm_type = pos 1;
          pm_max_children = pos 2;
        })
        ∷ [])
unfolding files_loop file_round parse_pool_ini sections_loop section_round name_taken options_loop
    str_eq str_case_eq run_parser set_string split_first set_integer set_pm write_pool atoi strtol
    expand_pool_name
names_read = refl

abbrev web_pool : WorkerPool
web_pool = new_pool (record pool_config_initial {
  name = some (text "web");
  listen_address = some (text "9000");
  pm_type = pos 1;
  pm_max_children = pos 2;
})

no_stat_above_0 : (path : Text) → (conf_answers.stat path).0 ≤ℤ pos 0
no_stat_above_0 path = omega arith

files_loop-reads_example :
    Distinct (web_pool ∷ [])
    × (length (web_pool ∷ [])
        ≡ length (◌++◌ {A = WorkerPool} [] [])
          + sections_in files conf_answers (text "/pools") (text "." ∷ text "web.conf" ∷ []))
    × All (WasRead files conf_answers (text "/pools")) (text "." ∷ text "web.conf" ∷ [])
files_loop-reads_example =
    files_loop-reads files conf_answers (text "/pools") (text "." ∷ text "web.conf" ∷ []) []
      (web_pool ∷ []) no_stat_above_0 tt names_read

-- The state of an outcome, and the initial one for a fault.
abbrev state_of : Outcome Master → Master
state_of (done s) = s
state_of (failed s) = s
state_of fault = master_initial

abbrev configured : Master
configured = state_of (conf_init_main files conf_answers master_initial)

is_configured : conf_init_main files conf_answers master_initial ≡ done configured
unfolding conf_init_main load_conf_file proc_config parse_global_ini other_sections other_section
    parse_pool_config is_dir check_global open_error_log first_error_log use_error_log set_fd
    set_level Events.pre_init process_all_pools check_pools check_pool check_listen check_common
    check_style domain_from_address files_loop file_round parse_pool_ini sections_loop section_round
    name_taken options_loop str_eq str_case_eq run_parser set_string split_first set_integer set_pm
    write_pool write_global atoi strtol expand_pool_name has_char all_digits
is_configured = refl

conf_init_main-IsConfigured_example : IsConfigured configured
conf_init_main-IsConfigured_example =
    conf_init_main-IsConfigured files conf_answers master_initial configured no_stat_above_0 tt
      is_configured

abbrev plain_user : Accounts
plain_user = record { is_root = false; getpwnam = λ n. none; getgrnam = λ n. none; own = none }

abbrev unix_answers : UnixAnswers
unix_answers = record {
  accounts = plain_user;
  limit_files = pos 0;
  limit_core = pos 0;
  pipe = (pos 0, (pos 10, pos 11));
  fork = pos 0;
  select = pos 0;
  read = pos 0;
  readval = pos 0;
  clock = record { monotonic = some (pos 1, pos 1); time_of_day = none };
  setpriority = pos 0;
  getpid = pos 42;
}

abbrev signal_answers : SignalAnswers
signal_answers = record {
  socketpair = pos 0;
  sp = (pos 8, pos 9);
  getfl = λ fd. pos 2;
  setfl = λ fd. pos 0;
  setfd = λ fd. pos 0;
  sigaction = λ signo. pos 0;
}

abbrev socket_answers : SocketAnswers
socket_answers = record {
  calloc_ok = true;
  realloc_ok = true;
  accounts = plain_user;
  resolver = λ addr port. some ((some (text "[::]:9000"), pos 12) ∷ []);
  unix_sock = λ wp. negsuc 0;
  tcp_info = λ fd. some (0, 128);
  left_over = pos 0;
}

abbrev a_world : World Contents
a_world = record {
  ini = files;
  stdio = stdio_answers;
  conf = conf_answers;
  unix = unix_answers;
  sizes = record { scoreboard = 120; pointer = 8; proc = 64 };
  shm = λ wp. block 4096;
  now = λ wp. pos 1000;
  board_left_over = pos 0;
  signals = signal_answers;
  malloc_ok = λ size. true;
  sockets = socket_answers;
  event_init = λ n. pos 0;
  pid = record { unlink = pos 0; creat = pos 13; write = pos 2 };
}

abbrev booted : Master
booted = state_of (
    run_all
      (init_unix a_world
        ∷ init_scoreboards a_world
        ∷ init_signals a_world
        ∷ init_children a_world
        ∷ [])
      configured)

abbrev listening : Master
listening = state_of (init_sockets a_world booted)

sockets_made : init_sockets a_world booted ≡ done listening
unfolding sockets_init_main listen_loop listen_pool note_queue get_listening_queue init
    af_inet_listening_socket target split_last strip_brackets socket_by_addr addresses_loop
    get_listening_socket hash_op get_use_socket search_key store_socket push close_unused close_loop
    update update_locked set_counts raise_active_max run_all unix_init_main limit_files limit_core
    daemonize as_master clock_init own_pools conf_pools conf_wp Setup.init_main Setup.init_loop
    Setup.init_pool signals_init_main set_up attempts fd_set_blocked children_init_main
    conf_init_main load_conf_file proc_config parse_global_ini other_sections other_section
    parse_pool_config is_dir check_global open_error_log first_error_log use_error_log set_fd
    set_level Events.pre_init process_all_pools check_pools check_pool check_listen check_common
    check_style domain_from_address files_loop file_round parse_pool_ini sections_loop section_round
    name_taken options_loop str_eq str_case_eq run_parser set_string split_first set_integer set_pm
    write_pool write_global atoi strtol expand_pool_name has_char all_digits
sockets_made = refl

sockets_init_main-Listens_example :
    Pairwise (Listens socket_answers) booted.pools listening.pools × SameRest booted listening
sockets_init_main-Listens_example =
    sockets_init_main-Listens socket_answers booted listening sockets_made

abbrev running : Master
running = state_of (pmf_init a_world master_initial)

is_running : pmf_init a_world master_initial ≡ done running
unfolding pmf_init stdio_init_main write_pid show_int Events.init_main sockets_init_main listen_loop
    listen_pool note_queue get_listening_queue init af_inet_listening_socket target split_last
    strip_brackets socket_by_addr addresses_loop get_listening_socket hash_op get_use_socket
    search_key store_socket push close_unused close_loop update update_locked set_counts
    raise_active_max run_all unix_init_main limit_files limit_core daemonize as_master clock_init
    own_pools conf_pools conf_wp Setup.init_main Setup.init_loop Setup.init_pool signals_init_main
    set_up attempts fd_set_blocked children_init_main conf_init_main load_conf_file proc_config
    parse_global_ini other_sections other_section parse_pool_config is_dir check_global
    open_error_log first_error_log use_error_log set_fd set_level Events.pre_init process_all_pools
    check_pools check_pool check_listen check_common check_style domain_from_address files_loop
    file_round parse_pool_ini sections_loop section_round name_taken options_loop str_eq str_case_eq
    run_parser set_string split_first set_integer set_pm write_pool write_global atoi strtol
    expand_pool_name has_char all_digits
is_running = refl

pmf_init-IsRunning_example : IsRunning running
pmf_init-IsRunning_example =
    pmf_init-IsRunning a_world master_initial running no_stat_above_0 tt is_running
