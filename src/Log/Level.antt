-- ===== src/Log/Level.antt =====
-- The state of pmf_log.c: plog_set_fd, plog_set_level and plog_get_level_name.
use pmf.Common.{
  Option, arith, eqb_ℤ, if◌then◌else◌, ltb_ℤ, negsuc, none, pos, refl, some, suc, zero, ℤ, ◌||◌,
  ◌≡◌, ◌≤ℤ◌,
}
use pmf.Text.Chars.{Text, str_case_eq, text}
use pmf.Conf.Values.{
  ok, plog_alert, plog_debug, plog_error, plog_notice, plog_warning, set_log_level,
}

-- `plog_fd` and `plog_level`. The external logger is never set, and `launched` stays 0.
pub record LogState : Type 0 where
  pub plog_fd : ℤ
  pub plog_level : ℤ

abbrev pub log_initial : LogState
log_initial = record { plog_fd = negsuc 0; plog_level = plog_notice }

unfoldable pub set_fd : ℤ → LogState → ℤ × LogState
set_fd new_fd s = (s.plog_fd, record s { plog_fd = new_fd })

unfoldable pub set_level : ℤ → LogState → ℤ × LogState
set_level new_value s =
    if ltb_ℤ new_value plog_debug || ltb_ℤ plog_alert new_value
    then (s.plog_level, s)
    else (s.plog_level, record s { plog_level = new_value })

-- `level_names`; the element at 0 is NULL.
abbrev pub level_name : ℤ → Option Text
level_name a =
    if eqb_ℤ a plog_debug
    then some (text "DEBUG")
    else if eqb_ℤ a plog_notice
    then some (text "NOTICE")
    else if eqb_ℤ a plog_warning
    then some (text "WARNING")
    else if eqb_ℤ a plog_error
    then some (text "ERROR")
    else if eqb_ℤ a plog_alert
    then some (text "ALERT")
    else none

unfoldable pub get_level_name : ℤ → LogState → Option Text
get_level_name log_level s =
    if ltb_ℤ log_level (pos 0)
    then level_name s.plog_level
    else if ltb_ℤ log_level plog_debug || ltb_ℤ plog_alert log_level
    then some (text "unknown value")
    else level_name log_level

pub record IsLevel (a : ℤ) : Type 0 where
  pub above : plog_debug ≤ℤ a
  pub below : a ≤ℤ plog_alert

-- Setting a level and then setting back what the call returned restores the log, as
-- pmf_socket_af_inet_listening_socket does around its first attempt; a value that is no level is
-- ignored, and either call returns the level that it found.
pub set_level-restores :
    (new_value : ℤ) (s : LogState)
    → IsLevel s.plog_level
    → let (old, s') = set_level new_value s in
      (old ≡ s.plog_level) × ((set_level old s').1 ≡ s) × IsLevel s'.plog_level
unfolding set_level
set_level-restores new_value s v = ground arith

-- The name that the log gives a level is read back as that level by pmf_conf_set_log_level.
pub set_log_level-get_level_name :
    (a : ℤ) (s : LogState)
    → IsLevel a
    → (name : Text) × (get_level_name a s ≡ some name) × (set_log_level name ≡ ok a)
unfolding get_level_name set_log_level str_case_eq
set_log_level-get_level_name (negsuc n) s v = absurd (omega arith)
set_log_level-get_level_name (pos zero) s v = absurd (omega arith)
set_log_level-get_level_name (pos (suc zero)) s v = (text "DEBUG", refl, refl)
set_log_level-get_level_name (pos (suc (suc zero))) s v = (text "NOTICE", refl, refl)
set_log_level-get_level_name (pos (suc (suc (suc zero)))) s v = (text "WARNING", refl, refl)
set_log_level-get_level_name (pos (suc (suc (suc (suc zero))))) s v = (text "ERROR", refl, refl)
set_log_level-get_level_name (pos (suc (suc (suc (suc (suc zero)))))) s v =
    (text "ALERT", refl, refl)
set_log_level-get_level_name (pos (suc (suc (suc (suc (suc (suc n))))))) s v = absurd (omega arith)
