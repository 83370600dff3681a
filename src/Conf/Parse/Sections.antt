-- ===== src/Conf/Parse/Sections.antt =====
-- pmf_conf_parse_global_ini: what a section of the main file other than `[global]` does. Its loop
-- reads the keys of the global table with the parsers and offsets of the pool table.
use Prim.Native.String.{String}
use pmf.Common.{
  Bool, Bool-cases, List, Option, Option-cases, ap, arith, drop, eqb_ℤ_ne, false, inl, inr, negsuc,
  none, pos, refl, some, suc, sym, true, zero, ℕ, ℕ_discrete, ◌<◌, ◌∙◌, ◌∷◌, ◌≡◌, ◌⊎◌,
}
use pmf.Text.Chars.{Text, str_eq, text}
use pmf.Outcome.{done, fault, ◌>>=◌}
use pmf.Conf.Values.{Parsed, err, ok}
use pmf.Conf.Expand.{set_string}
use pmf.Conf.Records.{GlobalConfig}
use pmf.Conf.Options.{
  Row, global_options, parsed_str, pool_options, row, run_parser, str, string, write_global,
}
use pmf.Conf.Parse.{
  Ini, all_sections, misprinted, options_loop, other_loop, other_round, other_section,
  other_sections, parse_global_ini, real_key, written,
}

abbrev pub is_global : Option Text → Bool
is_global none = false
is_global (some section) = str_eq section (text "global")

true_and_false : true ≡ false → ⊥
true_and_false h = cc

-- A parser of strings fails or gives a string.
parsed_str-either :
    (m : Parsed (Option Text))
    → ((message : String) × (parsed_str m ≡ err message))
      ⊎ ((s : Option Text) × (parsed_str m ≡ ok (str s)))
parsed_str-either (ok s) = inr (s, refl)
parsed_str-either (err message) = inl (message, refl)

run_parser-either :
    (strdup_ok : Bool) (value : Text)
    → ((message : String) × (run_parser strdup_ok string value ≡ err message))
      ⊎ ((s : Option Text) × (run_parser strdup_ok string value ≡ ok (str s)))
unfolding run_parser
run_parser-either strdup_ok value = parsed_str-either (set_string strdup_ok value)

write_global-include_dir :
    (s : Option Text) (g : GlobalConfig)
    → write_global 8 (str s) g ≡ some (record g { include_dir = s })
unfolding write_global
write_global-include_dir s g = refl

write_global-error_log :
    (s : Option Text) (g : GlobalConfig)
    → write_global 16 (str s) g ≡ some (record g { error_log = s })
unfolding write_global
write_global-error_log s g = refl

write_global-misfit : (s : Option Text) (g : GlobalConfig) → write_global 24 (str s) g ≡ none
unfolding write_global
write_global-misfit s g = refl

module _ {D : Type 0} (ini : Ini D) (strdup_ok : Bool) (dict : D) where
  -- A round with a parser of strings does not come to its end, or stores a string.
  string_round :
      (section : Text) (k : Row) (key : String) (offset : ℕ) (g : GlobalConfig)
      → (other_round ini strdup_ok dict section k (row key string offset) g ≡ fault)
        ⊎ ((s : Option Text) × (other_round ini strdup_ok dict section k (row key string offset) g
              ≡ misprinted (written (write_global offset (str s) g))))
  string_round section k key offset g =
      elim (Option-cases (ini.getstring dict (real_key section k.key))) [
        | inl lacks ↦ inl (rw lacks refl)
        | inr (value, given) ↦ elim (run_parser-either strdup_ok value) [
          | inl (message, e) ↦ inl (rw (given, e) refl)
          | inr (s, e) ↦ inr (s, rw (given, e) refl)
        ]
      ]

  -- The third option is stored as a string over two integers, which the store of a string frees as
  -- a pointer.
  third_round :
      (section : Text) (k : Row) (key : String) (g : GlobalConfig)
      → other_round ini strdup_ok dict section k (row key string 24) g ≡ fault
  third_round section k key g = elim (string_round section k key 24 g) [
    | inl e ↦ e
    | inr (s, e) ↦ e ∙ ap (λ m. misprinted (written m)) (write_global-misfit s g)
  ]

  -- A round that stores a string is followed by the next; any other ends the run.
  then_fault :
      (section : Text) (k : Row) (key : String) (offset : ℕ) (keys rows : List Row)
      (g : GlobalConfig)
      → ((s : Option Text) → (g' : GlobalConfig) × (write_global offset (str s) g ≡ some g'))
      → ((g' : GlobalConfig) → other_loop ini strdup_ok dict section keys rows g' ≡ fault)
      → other_loop ini strdup_ok dict section (k ∷ keys) (row key string offset ∷ rows) g ≡ fault
  unfolding other_loop
  then_fault section k key offset keys rows g stores later =
      elim (string_round section k key offset g) [
        | inl e ↦ ap (λ m. m >>= other_loop ini strdup_ok dict section keys rows) e
        | inr (s, e) ↦
            let (g', stored) = stores s in
            ap (λ m. m >>= other_loop ini strdup_ok dict section keys rows)
              (e ∙ ap (λ m. misprinted (written m)) stored)
            ∙ later g'
      ]

  pub other_section-fault :
      (section : Option Text) (g : GlobalConfig)
      → is_global section ≡ false
      → other_section ini strdup_ok dict section g ≡ fault
  unfolding other_section
  other_section-fault none g h = refl
  other_section-fault (some section) g h = rw h (
      then_fault section (row "pid_file" string 0) "user" 8 (drop 1 global_options)
        (drop 1 pool_options) g (λ s. (_, write_global-include_dir s g))
        (λ g'.
          then_fault section (row "include_dir" string 8) "group" 16 (drop 2 global_options)
            (drop 2 pool_options) g' (λ s. (_, write_global-error_log s g'))
            (λ g''.
              unfold other_loop in
              ap
                (λ m.
                  m
                  >>= other_loop ini strdup_ok dict section (drop 3 global_options)
                      (drop 3 pool_options))
                (third_round section (row "error_log" string 16) "listen" g''))))

  other_section-global :
      (section : Option Text) (g : GlobalConfig)
      → is_global section ≡ true
      → other_section ini strdup_ok dict section g ≡ done g
  unfolding other_section
  other_section-global none g h = absurd (true_and_false (sym h))
  other_section-global (some section) g h = rw h refl

  other_sections-fault :
      (n i : ℕ) (g : GlobalConfig)
      → i < n
      → is_global (ini.getsecname dict i) ≡ false
      → other_sections ini strdup_ok dict n g ≡ fault
  unfolding other_sections
  other_sections-fault zero i g h other = absurd (omega arith)
  other_sections-fault (suc n) i g h other = elim (Bool-cases (is_global (ini.getsecname dict n))) [
    | inr e ↦
        ap (λ m. m >>= other_sections ini strdup_ok dict n)
          (other_section-fault (ini.getsecname dict n) g e)
    | inl e ↦
        let before : i < n = elim (ℕ_discrete i n) [
          | yes same ↦ absurd (
              true_and_false
                (sym e ∙ ap (λ k. is_global (ini.getsecname dict k)) (sym same) ∙ other))
          | no ne ↦ omega arith
        ] in
        ap (λ m. m >>= other_sections ini strdup_ok dict n)
          (other_section-global (ini.getsecname dict n) g e)
        ∙ other_sections-fault n i g before other
  ]

  -- A main file with any section but `[global]`, or with a section that has no name, ends in
  -- undefined behaviour once the options of `[global]` have been read, whatever the section holds: a
  -- key that it lacks or whose value is refused is reported by a message with an argument too few,
  -- and where the first three are there, the third is stored as a string over two integers.
  pub parse_global_ini-other :
      (g g' : GlobalConfig) (n i : ℕ)
      → options_loop ini strdup_ok dict write_global (text "global") global_options global_options g
        ≡ done g'
      → ini.getnsec dict ≡ pos n
      → i < n
      → is_global (ini.getsecname dict i) ≡ false
      → parse_global_ini ini strdup_ok dict g ≡ fault
  unfolding parse_global_ini
  parse_global_ini-other g g' n i global count h other =
      ap (λ m. m >>= all_sections ini strdup_ok dict) global
      ∙ rw (count, eqb_ℤ_ne (pos n) (negsuc 0) (λ e. cc)) (other_sections-fault n i g' h other)
