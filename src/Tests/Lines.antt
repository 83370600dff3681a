-- ===== src/Tests/Lines.antt =====
-- A warning with an error, as the master process writes it.
use pmf.Common.{All, [], arith, false, length, pos, refl, some, ℕ, ◌+◌, ◌∷◌, ◌≡◌, ◌≤◌}
use pmf.Text.Chars.{Text, text}
use pmf.Conf.Values.{ok, plog_alert, plog_notice, set_log_level}
use pmf.Log.Level.{
  IsLevel, get_level_name, log_initial, set_level, set_level-restores, set_log_level-get_level_name,
}
use pmf.Log.Line.{Source, format_line, max_line_length, vplog}
use pmf.Log.Format.{cut, format_line-cut, vplog-bounded, whole}

abbrev failed_open : Source
failed_open = record {
  time = text "[01-Jan-2024 10:00:00";
  usec = 42;
  pid = pos 7;
  is_child = false;
  function = text "open_it";
  line = pos 12;
  message = text "failed";
  error_text = text "No such file";
  saved_errno = pos 2;
}

abbrev warning_flags : ℕ
warning_flags = 3 + 256

format_line-cut_example :
    format_line warning_flags failed_open log_initial
    ≡ cut (whole warning_flags failed_open log_initial)
format_line-cut_example = format_line-cut warning_flags failed_open log_initial (omega arith)

vplog-bounded_test :
    All (λ w. length w.1 ≤ max_line_length) (vplog warning_flags failed_open log_initial)
    × (length (vplog warning_flags failed_open log_initial) ≤ 2)
vplog-bounded_test = vplog-bounded warning_flags failed_open log_initial (omega arith)

initial-IsLevel : IsLevel log_initial.plog_level
initial-IsLevel = record { above = omega arith; below = omega arith }

set_level-restores_test :
    let (old, s') = set_level plog_alert log_initial in
    (old ≡ plog_notice) × ((set_level old s').1 ≡ log_initial) × IsLevel s'.plog_level
set_level-restores_test = set_level-restores plog_alert log_initial initial-IsLevel

set_log_level-get_level_name_test :
    (name : Text) × (get_level_name plog_notice log_initial ≡ some name)
    × (set_log_level name ≡ ok plog_notice)
set_log_level-get_level_name_test =
    set_log_level-get_level_name plog_notice log_initial initial-IsLevel

vplog_test :
    (vplog 3 failed_open log_initial
      ≡ (pos 2, text "[01-Jan-2024 10:00:00] WARNING: failed\n") ∷ [])
    × (vplog 1 failed_open log_initial ≡ [])
unfolding vplog format_line
vplog_test = (refl, refl)
