-- ===== src/Tests/Values.antt =====
-- The option parsers on values as they stand in a configuration file.
use pmf.Common.{
  [], arith, length, map, negsuc, none, pos, refl, some, true, wrap_int, ◌*ℤ◌, ◌*◌, ◌++◌, ◌<◌, ◌↔◌,
  ◌∷◌, ◌≡◌, ◌≢◌, ◌≤ℤ◌, ◌≤◌, ◌⊎◌,
}
use pmf.Text.Chars.{Text, str_case_eq, text, to_lower}
use pmf.Text.Search.{all_digits, split_first}
use pmf.Text.Number.{atoi}
use pmf.Text.Decimal.{show_int, show_nat}
use pmf.Conf.Values.{
  bool_to_str, ok, pm_style_dynamic, pm_style_ondemand, pm_style_static, pm_to_str, set_boolean,
  set_integer, set_pm, set_rlimit_core, set_time,
}
use pmf.Conf.Values.Numbers.{set_integer-shape, set_integer-show_int, set_rlimit_core-bounds}
use pmf.Conf.Values.Times.{IsForeign, Suffix, set_time-show_nat, set_time-unchecked, set_time-units}
use pmf.Conf.Values.Words.{set_boolean-names, set_pm-names}
use pmf.Conf.Expand.{Expands, max_key_value_len, set_string, set_string-expanded, token}

set_integer-shape_test : (set_integer (text "-12") ≡ ok (negsuc 11)) ↔ (
    (s : Text) × (all_digits s ≡ true)
    × ((text "-12" ≡ s) ⊎ (text "-12" ≡ b'-' ∷ s))
    × (negsuc 11 ≡ atoi (text "-12")))
set_integer-shape_test = set_integer-shape (text "-12") (negsuc 11)

set_integer-show_int_test : set_integer (show_int (negsuc 11)) ≡ ok (negsuc 11)
set_integer-show_int_test =
    set_integer-show_int (negsuc 11) (record { above = omega arith; below = omega arith })

set_rlimit_core-bounds_test :
    ((negsuc 0 ≡ negsuc 0) × (map to_lower (text "Unlimited") ≡ text "unlimited"))
    ⊎ ((pos 0 ≤ℤ negsuc 0) × (set_integer (text "Unlimited") ≡ ok (negsuc 0)))
set_rlimit_core-bounds_test =
    set_rlimit_core-bounds (text "Unlimited") (negsuc 0)
      (unfold set_rlimit_core str_case_eq in refl)

set_time-units_test : set_time (show_nat 2 ++ text "m") ≡ ok (pos (60 * 2))
set_time-units_test = set_time-units 2 Suffix.minute (omega arith)

set_time-show_nat_example : set_time (show_nat 90) ≡ ok (pos 90)
set_time-show_nat_example = set_time-show_nat 90 (omega arith)

letter-IsForeign : IsForeign b'x'
letter-IsForeign = record {
  no_space = refl;
  no_digit = refl;
  no_minus = λ e. absurd (omega arith);
  no_plus = λ e. absurd (omega arith);
}

set_time-unchecked_example :
    (set_time (b'x' ∷ text "yz" ++ b'm' ∷ []) ≡ ok (pos 0))
    × (set_time ((show_nat 12 ++ b'x' ∷ text "yz") ++ b'm' ∷ []) ≡ ok (pos 720))
set_time-unchecked_example =
    set_time-unchecked 12 b'x' (text "yz") letter-IsForeign Suffix.minute (omega arith)

set_pm-names_test : (set_pm (text "Dynamic") ≡ ok pm_style_dynamic) ↔ (
    ((pm_style_dynamic ≡ pm_style_static)
      ⊎ ((pm_style_dynamic ≡ pm_style_dynamic) ⊎ (pm_style_dynamic ≡ pm_style_ondemand)))
    × (map to_lower (text "Dynamic") ≡ pm_to_str pm_style_dynamic))
set_pm-names_test = set_pm-names (text "Dynamic") pm_style_dynamic

set_boolean-names_test :
    (set_boolean (text "YES") ≡ ok (pos 1))
    ↔ (((pos 1 ≡ pos 0) ⊎ (pos 1 ≡ pos 1)) × (map to_lower (text "YES") ≡ bool_to_str (pos 1)))
set_boolean-names_test = set_boolean-names (text "YES") (pos 1)

set_string-expanded_example :
    (value' : Text) × (set_string true (text "/run/$pool.sock") ≡ ok (some value'))
    × Expands value' (text "/run/$pool.sock")
    × (split_first token value' ≡ none)
    × (length value' ≤ 15)
    × (((split_first token (text "/run/$pool.sock") ≡ none) × (value' ≡ text "/run/$pool.sock"))
        ⊎ ((split_first token (text "/run/$pool.sock") ≢ none)
            × (length value' < max_key_value_len)))
set_string-expanded_example = set_string-expanded (text "/run/$pool.sock")

set_time_test : (set_time (text "abcm") ≡ ok (pos 0)) × (set_time (text "3h") ≡ ok (pos 10800))
unfolding set_time atoi wrap_int ◌*ℤ◌
set_time_test = (refl, refl)
