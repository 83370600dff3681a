-- ===== src/Conf/Load.antt =====
-- The reading of the configuration in pmf_conf.c: pmf_conf_is_dir, pmf_conf_parse_pool_config,
-- pmf_conf_load_conf_file, pmf_conf_proc_config and pmf_conf_init_main. What the system answers is
-- an argument. The dump of the configuration to the log, which changes nothing, is in Conf/Dump.
pub mod Directory
pub mod Passed
pub mod Configured
pub mod Start
use pmf.Common.{
  Bool, List, Option, [], eqb_ℤ, false, if◌then◌else◌, ltb_ℤ, none, not, pos, some, ℕ, ℤ, ◌%◌, ◌&&◌,
  ◌++◌, ◌/◌, ◌==◌, ◌∷◌,
}
use pmf.Outcome.{Outcome, done, failed, map_outcome, of_call, of_code, ◌>>=◌}
use pmf.Text.Chars.{Text, text}
use pmf.Log.Level.{set_level}
use pmf.Events.{pre_init, support_edge_trigger}
use pmf.Conf.Expand.{snprintf}
use pmf.Conf.Records.{WorkerPool}
use pmf.Conf.Parse.{Ini, parse_global_ini, parse_pool_ini}
use pmf.Conf.Check.{priority_invalid}
use pmf.Conf.Check.Pools.{process_all_pools}
use pmf.Master.{Master}
use pmf.Stdio.{StdioAnswers, open_error_log}

-- What `stat` returns and the mode that it stores; the names that `readdir` gives for a directory
-- (`none` where `opendir` fails); whether malloc and strdup find memory; the value that
-- pmf_conf_parse_pool_ini leaves behind for a file; and the answers for the error log.
pub record ConfAnswers : Type 0 where
  pub stat : Text → ℤ × ℕ
  pub opendir : Text → Option (List Text)
  pub malloc_ok : Bool
  pub strdup_ok : Bool
  pub left_over : Text → ℤ
  pub stdio : StdioAnswers

-- `st_mode & S_IFMT`, without the twelve bits below it.
abbrev pub file_type : ℕ → ℕ
file_type mode = mode / 4096 % 16

abbrev pub s_ifdir : ℕ
s_ifdir = 4

abbrev pub s_ifreg : ℕ
s_ifreg = 8

unfoldable pub is_dir : ConfAnswers → Text → Bool
is_dir answers path =
    let (code, mode) = answers.stat path in
    if not (eqb_ℤ code (pos 0)) then false else file_type mode == s_ifdir

abbrev pub max_path : ℕ
max_path = 128

-- A name with a leading dot is passed over.
abbrev pub is_hidden : Text → Bool
is_hidden [] = false
is_hidden (c ∷ s) = c == b'.'

abbrev pub conf_path : Text → Text → Text
conf_path include_dir name = snprintf max_path (include_dir ++ (b'/' ∷ name))

-- The test for a file that is not regular, which `stat` never passes: it does not return more than
-- 0.
abbrev pub skips : ConfAnswers → Text → Bool
skips answers path =
    let (code, mode) = answers.stat path in ltb_ℤ (pos 0) code && not (file_type mode == s_ifreg)

abbrev pub with_pools : Master → List WorkerPool → Master
with_pools s pools = record s { pools = pools }

abbrev pub choose_events : Master → Outcome Master
choose_events s =
    let (code, chosen) = pre_init s.config.event_mechanism in
    of_code (code, record s { event_module = chosen })

abbrev pub apply_level : Master → Master
apply_level s = record s {
  globals = record s.globals { log_level = s.config.log_level };
  log = (set_level s.config.log_level s.log).1;
}

abbrev pub conf_file : Text
conf_file = text "/etc/pmf.conf"

abbrev pub all_pools : Master → Outcome Master
all_pools s =
    let edge_trigger : Bool = not (eqb_ℤ (support_edge_trigger s.event_module) (pos 0)) in
    let (code, pools) = process_all_pools edge_trigger s.pools in of_code (code, with_pools s pools)

module _ (answers : ConfAnswers) where
  -- `PMF_ERROR_LOG_FILE_DEFAULT`, where there is memory for a copy.
  abbrev pub error_log_of : Option Text → Option Text
  error_log_of none = if answers.strdup_ok then some (text "/var/log/pmf.log") else none
  error_log_of (some path) = some path

  abbrev pub with_error_log : Master → Master
  with_error_log s = record s {
    config = record s.config { error_log = error_log_of s.config.error_log };
  }

  -- `none` is NULL, for which `open` fails.
  abbrev pub open_log : Master → Outcome Master
  open_log s = elim s.config.error_log [
    | none ↦ failed s
    | some path ↦ let (code, s', calls) = open_error_log answers.stdio false s in of_code (code, s')
  ]

  -- The checks of the global options.
  unfoldable pub check_global : Master → Outcome Master
  check_global s =
      if ltb_ℤ s.config.process_max (pos 0)
      then failed s
      else if priority_invalid s.config.process_priority
      then failed s
      else done (with_error_log s)

module _ {D : Type 0} (ini : Ini D) (answers : ConfAnswers) where
  abbrev pub with_dictionary : Text → Option D → List WorkerPool → Outcome (List WorkerPool)
  with_dictionary path none pools = failed pools
  with_dictionary path (some dict) pools =
      of_call
        (parse_pool_ini ini answers.strdup_ok dict answers.malloc_ok (answers.left_over path) pools)

  -- One round of the loop over the directory.
  unfoldable pub file_round : Text → Text → List WorkerPool → Outcome (List WorkerPool)
  file_round include_dir name pools =
      let path : Text = conf_path include_dir name in
      if is_hidden name
      then done pools
      else if skips answers path
      then done pools
      else with_dictionary path (ini.load path) pools

  unfoldable pub files_loop : Text → List Text → List WorkerPool → Outcome (List WorkerPool)
  files_loop include_dir [] pools = done pools
  files_loop include_dir (name ∷ names) pools =
      file_round include_dir name pools >>= files_loop include_dir names

  abbrev pub with_names : Text → Option (List Text) → List WorkerPool → Outcome (List WorkerPool)
  with_names include_dir none pools = failed pools
  with_names include_dir (some names) pools = files_loop include_dir names pools

  -- pmf_conf_parse_pool_config.
  unfoldable pub parse_pool_config : Text → List WorkerPool → Outcome (List WorkerPool)
  parse_pool_config include_dir pools = with_names include_dir (answers.opendir include_dir) pools

  -- The pools of the include directory, where there is one.
  abbrev pub include_pools : Option Text → Master → Outcome Master
  include_pools none s = done s
  include_pools (some include_dir) s =
      if is_dir answers include_dir
      then map_outcome (with_pools s) (parse_pool_config include_dir s.pools)
      else done s

  -- pmf_conf_proc_config.
  unfoldable pub proc_config : Master → Outcome Master
  proc_config s =
      include_pools s.config.include_dir (apply_level s)
      >>= check_global answers
      >>= open_log answers
      >>= choose_events

  abbrev pub with_conf_file : Option D → Master → Outcome Master
  with_conf_file none s = failed s
  with_conf_file (some dict) s =
      map_outcome (λ g. record s { config = g })
        (parse_global_ini ini answers.strdup_ok dict s.config)

  -- pmf_conf_load_conf_file.
  unfoldable pub load_conf_file : Master → Outcome Master
  load_conf_file s = with_conf_file (ini.load conf_file) s

  -- pmf_conf_init_main.
  unfoldable pub conf_init_main : Master → Outcome Master
  conf_init_main s = load_conf_file s >>= proc_config >>= all_pools
