-- ===== src/Conf/Values/Words.antt =====
-- The option parsers for words: each stores a value exactly for the names of that value, in any
-- case.
use pmf.Common.{Bool-cases, ap, arith, inl, inr, map, pos, sym, true, ℤ, ◌↔◌, ◌∙◌, ◌≡◌, ◌⊎◌}
use pmf.Text.Chars.{Text, str_case_eq, str_case_eq-cong, str_case_eq_iff, text, to_lower}
use pmf.Conf.Values.{
  bool_to_str, ok, pm_style_dynamic, pm_style_ondemand, pm_style_static, pm_to_str, set_boolean,
  set_log_level, set_pm,
}

module _ (value : Text) where
  -- Where the text fits a name, and what that says of it.
  names : (name : Text) → str_case_eq value name ≡ true → map to_lower value ≡ map to_lower name
  names name = (str_case_eq_iff value name).0

  set_pm-cong : (name : Text) → map to_lower value ≡ map to_lower name → set_pm value ≡ set_pm name
  unfolding set_pm
  set_pm-cong name h = rw (
    str_case_eq-cong value name (text "static") h,
    str_case_eq-cong value name (text "dynamic") h,
    str_case_eq-cong value name (text "ondemand") h,
  )

  set_boolean-cong :
      (name : Text) → map to_lower value ≡ map to_lower name → set_boolean value ≡ set_boolean name
  unfolding set_boolean
  set_boolean-cong name h =
      rw (str_case_eq-cong value name (text "yes") h, str_case_eq-cong value name (text "no") h)

  set_log_level-cong :
      (name : Text)
      → map to_lower value ≡ map to_lower name
      → set_log_level value ≡ set_log_level name
  unfolding set_log_level
  set_log_level-cong name h = rw (
    str_case_eq-cong value name (text "debug") h,
    str_case_eq-cong value name (text "notice") h,
    str_case_eq-cong value name (text "warning") h,
    str_case_eq-cong value name (text "error") h,
    str_case_eq-cong value name (text "alert") h,
  )

  set_pm-inv :
      (a : ℤ)
      → set_pm value ≡ ok a
      → ((a ≡ pm_style_static) ⊎ ((a ≡ pm_style_dynamic) ⊎ (a ≡ pm_style_ondemand)))
        × (map to_lower value ≡ pm_to_str a)
  unfolding set_pm
  set_pm-inv a h = elim (Bool-cases (str_case_eq value (text "static"))) [
    | inl e ↦
        let v : a ≡ pm_style_static = ground arith in
        (inl v, names (text "static") e ∙ ap pm_to_str (sym v))
    | inr n ↦ elim (Bool-cases (str_case_eq value (text "dynamic"))) [
      | inl e ↦
          let v : a ≡ pm_style_dynamic = ground arith in
          (inr (inl v), names (text "dynamic") e ∙ ap pm_to_str (sym v))
      | inr m ↦
          let e : str_case_eq value (text "ondemand") ≡ true = ground arith in
          let v : a ≡ pm_style_ondemand = ground arith in
          (inr (inr v), names (text "ondemand") e ∙ ap pm_to_str (sym v))
    ]
  ]

  -- pmf_conf_set_pm stores a style exactly for that style's name in any case, and stores nothing
  -- else; the name is the one that pmf_conf_dump prints.
  pub set_pm-names :
      (a : ℤ)
      → (set_pm value ≡ ok a) ↔ (
          ((a ≡ pm_style_static) ⊎ ((a ≡ pm_style_dynamic) ⊎ (a ≡ pm_style_ondemand)))
          × (map to_lower value ≡ pm_to_str a))
  unfolding set_pm str_case_eq
  set_pm-names a = (set_pm-inv a, λ (style, h). stored style h)
    where
      stored :
          (a ≡ pm_style_static) ⊎ ((a ≡ pm_style_dynamic) ⊎ (a ≡ pm_style_ondemand))
          → map to_lower value ≡ pm_to_str a
          → set_pm value ≡ ok a
      stored (inl e) h = set_pm-cong (text "static") (h ∙ ap pm_to_str e) ∙ ap ok (sym e)
      stored (inr (inl e)) h = set_pm-cong (text "dynamic") (h ∙ ap pm_to_str e) ∙ ap ok (sym e)
      stored (inr (inr e)) h = set_pm-cong (text "ondemand") (h ∙ ap pm_to_str e) ∙ ap ok (sym e)

  set_boolean-inv :
      (a : ℤ)
      → set_boolean value ≡ ok a
      → ((a ≡ pos 0) ⊎ (a ≡ pos 1)) × (map to_lower value ≡ bool_to_str a)
  unfolding set_boolean
  set_boolean-inv a h = elim (Bool-cases (str_case_eq value (text "yes"))) [
    | inl e ↦
        let v : a ≡ pos 1 = ground arith in (inr v, names (text "yes") e ∙ ap bool_to_str (sym v))
    | inr n ↦
        let e : str_case_eq value (text "no") ≡ true = ground arith in
        let v : a ≡ pos 0 = ground arith in (inl v, names (text "no") e ∙ ap bool_to_str (sym v))
  ]

  -- fpm_conf_set_boolean stores 1 exactly for "yes" and 0 exactly for "no", in any case, and stores
  -- nothing else; the names are those that pmf_conf_dump prints.
  pub set_boolean-names :
      (a : ℤ)
      → (set_boolean value ≡ ok a)
        ↔ (((a ≡ pos 0) ⊎ (a ≡ pos 1)) × (map to_lower value ≡ bool_to_str a))
  unfolding set_boolean str_case_eq
  set_boolean-names a = (set_boolean-inv a, λ (bit, h). stored bit h)
    where
      stored :
          (a ≡ pos 0) ⊎ (a ≡ pos 1) → map to_lower value ≡ bool_to_str a → set_boolean value ≡ ok a
      stored (inl e) h = set_boolean-cong (text "no") (h ∙ ap bool_to_str e) ∙ ap ok (sym e)
      stored (inr e) h = set_boolean-cong (text "yes") (h ∙ ap bool_to_str e) ∙ ap ok (sym e)
