-- ===== src/Conf/Values.antt =====
-- The option parsers of pmf_conf.c, each from the text of a value to what it stores, or to the
-- message that it returns. What they check of a pointer that their callers never pass as NULL is
-- left out.
pub mod Numbers
pub mod Times
pub mod Words
use Prim.Native.String.{String}
use pmf.Common.{
  Bool, Option, [], eqb_ℤ, false, if◌then◌else◌, ltb, ltb_ℤ, negsuc, none, not, pos, some, true,
  wrap_int, ℕ, ℤ, ◌&&◌, ◌*ℤ◌, ◌==◌, ◌||◌, ◌∷◌,
}
use pmf.Text.Chars.{Text, str_case_eq, text}
use pmf.Text.Number.{atoi}

pub data Parsed (A : Type 0) : Type 0 where
  ok : A → Parsed A
  err : String → Parsed A

-- pmf_log.h: `enum _plog_level`.
abbrev pub plog_debug : ℤ
plog_debug = pos 1

abbrev pub plog_notice : ℤ
plog_notice = pos 2

abbrev pub plog_warning : ℤ
plog_warning = pos 3

abbrev pub plog_error : ℤ
plog_error = pos 4

abbrev pub plog_alert : ℤ
plog_alert = pos 5

-- pmf_conf.h: `PM_TYPE_E`.
abbrev pub pm_style_static : ℤ
pm_style_static = pos 1

abbrev pub pm_style_dynamic : ℤ
pm_style_dynamic = pos 2

abbrev pub pm_style_ondemand : ℤ
pm_style_ondemand = pos 3

unfoldable pub set_log_level : Text → Parsed ℤ
set_log_level value =
    if str_case_eq value (text "debug")
    then ok plog_debug
    else if str_case_eq value (text "notice")
    then ok plog_notice
    else if str_case_eq value (text "warning")
    then ok plog_warning
    else if str_case_eq value (text "error")
    then ok plog_error
    else if str_case_eq value (text "alert")
    then ok plog_alert
    else err "invalid value for 'log_level'"

-- The loop of `pmf_conf_set_integer` from a character that is not the first.
unfoldable pub only_digits : Text → Bool
only_digits [] = true
only_digits (c ∷ s) = if ltb c b'0' || ltb b'9' c then false else only_digits s

unfoldable pub is_number : Text → Bool
unfolding only_digits
is_number [] = true
is_number (c ∷ s) =
    if c == b'-' then only_digits s else if ltb c b'0' || ltb b'9' c then false else only_digits s

unfoldable pub set_integer : Text → Parsed ℤ
unfolding is_number
set_integer value =
    if is_number value
    then ok (atoi value)
    else err "is not a valid number (greater or equal than zero)"

unfoldable pub set_rlimit_core : Text → Parsed ℤ
set_rlimit_core value =
    if str_case_eq value (text "unlimited") then ok (negsuc 0) else elim (set_integer value) [
      | err message ↦ err message
      | ok int_value ↦
          if ltb_ℤ int_value (pos 0)
          then err "must be greater than zero or 'unlimited'"
          else ok int_value
    ]

-- The text without its last character, and that character.
unfoldable pub split_suffix : Text → Option (Text × ℕ)
split_suffix [] = none
split_suffix (c ∷ s) = elim (split_suffix s) [
  | none ↦ some ([], c)
  | some (front, last) ↦ some (c ∷ front, last)
]

-- The `switch` on the suffix. `val` is the text up to the suffix, which the cases with a unit cut
-- off. The products are computed in `int`.
unfoldable pub seconds_of : Text → Text → ℕ → Parsed ℤ
seconds_of value val suffix =
    if suffix == b'm'
    then ok (wrap_int (pos 60 *ℤ atoi val))
    else if suffix == b'h'
    then ok (wrap_int (pos 3600 *ℤ atoi val))
    else if suffix == b'd'
    then ok (wrap_int (pos 86400 *ℤ atoi val))
    else if suffix == b's'
    then ok (atoi val)
    else if ltb suffix b'0' || ltb b'9' suffix
    then err "unknown suffix used in time value"
    else ok (atoi value)

unfoldable pub set_time : Text → Parsed ℤ
unfolding seconds_of split_suffix
set_time value = elim (split_suffix value) [
  | none ↦ err "invalid time value"
  | some (val, suffix) ↦ seconds_of value val suffix
]

unfoldable pub set_boolean : Text → Parsed ℤ
set_boolean value =
    let value_y : Bool = str_case_eq value (text "yes") in
    let value_n : Bool = str_case_eq value (text "no") in
    if not value_y && not value_n
    then err "invalid boolean value"
    else ok (if value_y then pos 1 else pos 0)

unfoldable pub set_pm : Text → Parsed ℤ
set_pm value =
    if str_case_eq value (text "static")
    then ok pm_style_static
    else if str_case_eq value (text "dynamic")
    then ok pm_style_dynamic
    else if str_case_eq value (text "ondemand")
    then ok pm_style_ondemand
    else err "invalid process manager (static, dynamic or ondemand)"

-- pmf_conf.h: `BOOL2STR`, `PM2STR`.
abbrev pub bool_to_str : ℤ → Text
bool_to_str a = if eqb_ℤ a (pos 0) then text "no" else text "yes"

abbrev pub pm_to_str : ℤ → Text
pm_to_str a =
    if eqb_ℤ a pm_style_static
    then text "static"
    else if eqb_ℤ a pm_style_dynamic
    then text "dynamic"
    else text "ondemand"
