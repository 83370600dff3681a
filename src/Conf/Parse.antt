-- ===== src/Conf/Parse.antt =====
-- pmf_conf_parse_pool_ini, pmf_conf_parse_pool_config and pmf_conf_parse_global_ini of pmf_conf.c.
-- The library iniparser is a parameter, `Ini`.
pub mod Typed
pub mod Keeps
pub mod Names
pub mod Owner
pub mod Sections
use pmf.Common.{
  Bool, List, Option, [], eqb_ℤ, false, if◌then◌else◌, negsuc, none, not, pos_part, some, suc, zero,
  ℕ, ℤ, ◌++◌, ◌||◌, ◌∷◌,
}
use pmf.Outcome.{Outcome, done, failed, fault, ◌>>=◌}
use pmf.Text.Chars.{Text, str_case_eq, str_eq, text}
use pmf.Conf.Values.{Parsed, err, ok}
use pmf.Conf.Expand.{max_key_value_len, snprintf}
use pmf.Conf.Records.{GlobalConfig, PoolConfig, WorkerPool, pool_config_initial, pool_initial}
use pmf.Conf.Options.{
  Row, Value, global_options, pool_options, run_parser, write_global, write_pool,
}

-- What the program calls of lib/iniparser: `iniparser_load`, `iniparser_getnsec`,
-- `iniparser_getsecname` (`none` for NULL) and `iniparser_getstring` with NULL as its default.
pub record Ini (Dictionary : Type 0) : Type 0 where
  pub load : Text → Option Dictionary
  pub getnsec : Dictionary → ℤ
  pub getsecname : Dictionary → ℕ → Option Text
  pub getstring : Dictionary → Text → Option Text

-- `snprintf(real_key, MAX_KEY_VALUE_LEN, "%s:%s", section, key)`.
abbrev pub real_key : Text → Text → Text
real_key section key = snprintf max_key_value_len (section ++ (b':' ∷ key))

-- A store through an offset that may not fit.
abbrev pub written : {C : Type 0} → Option C → Outcome C
written none = fault
written (some c) = done c

-- A parser that fails stores nothing. (After a strdup that fails the field is NULL; the callers
-- give up then, and nothing reads it.)
abbrev pub store_parsed :
    {C : Type 0} → (ℕ → Value → C → Option C) → ℕ → C → Parsed Value → Outcome C
store_parsed write offset c (err message) = failed c
store_parsed write offset c (ok value) = written (write offset value c)

-- A key that is not there is passed over.
abbrev pub option_value :
    {C : Type 0}
    → (ℕ → Value → C → Option C)
    → (Text → Parsed Value)
    → ℕ
    → C
    → Option Text
    → Outcome C
option_value write parse offset c none = done c
option_value write parse offset c (some value) = store_parsed write offset c (parse value)

-- Both messages of the loop over the other sections of the main file have two `%s` and one argument:
-- where one is written, an argument that is not there is read as a pointer. The log still has its
-- first level then, PLOG_NOTICE, at which both are written.
abbrev pub misprinted : {C : Type 0} → Outcome C → Outcome C
misprinted (done c) = done c
misprinted (failed c) = fault
misprinted fault = fault

abbrev pub other_value :
    (Text → Parsed Value) → ℕ → GlobalConfig → Option Text → Outcome GlobalConfig
other_value parse offset g none = fault
other_value parse offset g (some value) =
    misprinted (store_parsed write_global offset g (parse value))

abbrev pub same_name : Text → WorkerPool → Bool
same_name section wp = elim wp.config.name [ none ↦ false | some name ↦ str_case_eq name section ]

unfoldable pub name_taken : Text → List WorkerPool → Bool
name_taken section [] = false
name_taken section (wp ∷ pools) = same_name section wp || name_taken section pools

-- A new pool at the end of the list, with its name and the options of its section.
abbrev pub new_pool : PoolConfig → WorkerPool
new_pool c = record pool_initial { config = c }

abbrev pub named : Text → PoolConfig
named section = record pool_config_initial { name = some section }

-- The pool's pointer in the list sees the options as they are stored.
abbrev pub with_pool : List WorkerPool → Outcome PoolConfig → Outcome (List WorkerPool)
with_pool pools (done c) = done (pools ++ new_pool c ∷ [])
with_pool pools (failed c) = failed (pools ++ new_pool c ∷ [])
with_pool pools fault = fault

abbrev pub with_code : ℤ → Outcome (List WorkerPool) → Outcome (ℤ × List WorkerPool)
with_code left_over (done pools) = done (left_over, pools)
with_code left_over (failed pools) = failed (negsuc 0, pools)
with_code left_over fault = fault

module _ {D : Type 0} (ini : Ini D) (strdup_ok : Bool) (dict : D) where
  open ini use {getnsec, getsecname, getstring}

  -- One round of a loop over a table: the key of one row, the parser and the offset of another.
  abbrev pub option_round :
      {C : Type 0} → (ℕ → Value → C → Option C) → Text → Row → Row → C → Outcome C
  option_round write section k r c =
      option_value write (run_parser strdup_ok r.parser) r.offset c
        (getstring dict (real_key section k.key))

  -- The loop over a table of options, with the keys of `keys` and the parsers and offsets of
  -- `rows`.
  unfoldable pub options_loop :
      {C : Type 0} → (ℕ → Value → C → Option C) → Text → List Row → List Row → C → Outcome C
  options_loop write section [] rows c = done c
  options_loop write section (k ∷ keys) [] c = done c
  options_loop write section (k ∷ keys) (r ∷ rows) c =
      option_round write section k r c >>= options_loop write section keys rows

  -- One round of the loop over the options of any other section of the main file: the key of one
  -- row, the parser and the offset of another.
  abbrev pub other_round : Text → Row → Row → GlobalConfig → Outcome GlobalConfig
  other_round section k r g =
      other_value (run_parser strdup_ok r.parser) r.offset g
        (getstring dict (real_key section k.key))

  unfoldable pub other_loop : Text → List Row → List Row → GlobalConfig → Outcome GlobalConfig
  other_loop section [] rows g = done g
  other_loop section (k ∷ keys) [] g = done g
  other_loop section (k ∷ keys) (r ∷ rows) g =
      other_round section k r g >>= other_loop section keys rows

  -- One round of the loop over the sections of the main file: `[global]` is passed over, and any
  -- other section writes into the global configuration, with the keys of the global table and the
  -- parsers and offsets of the pool table. A section name that is NULL is read all the same.
  unfoldable pub other_section : Option Text → GlobalConfig → Outcome GlobalConfig
  other_section none g = fault
  other_section (some section) g =
      if str_eq section (text "global")
      then done g
      else other_loop section global_options pool_options g

  unfoldable pub other_sections : ℕ → GlobalConfig → Outcome GlobalConfig
  other_sections zero g = done g
  other_sections (suc section_count) g =
      other_section (getsecname dict section_count) g >>= other_sections section_count

  -- The part after the `[global]` options. A negative count but -1 makes no round.
  abbrev pub all_sections : GlobalConfig → Outcome GlobalConfig
  all_sections g =
      if eqb_ℤ (getnsec dict) (negsuc 0)
      then failed g
      else other_sections (pos_part (getnsec dict)) g

  unfoldable pub parse_global_ini : GlobalConfig → Outcome GlobalConfig
  parse_global_ini g =
      options_loop write_global (text "global") global_options global_options g >>= all_sections

  -- One round of pmf_conf_parse_pool_ini, given whether malloc finds memory.
  unfoldable pub section_round : Bool → Option Text → List WorkerPool → Outcome (List WorkerPool)
  section_round malloc_ok none pools = fault
  section_round malloc_ok (some section) pools =
      if str_eq section (text "global")
      then failed pools
      else if name_taken section pools
      then failed pools
      else if not malloc_ok
      then failed pools
      else if not strdup_ok
      then failed (pools ++ new_pool pool_config_initial ∷ [])
      else with_pool pools
          (options_loop write_pool section pool_options pool_options (named section))

  unfoldable pub sections_loop : Bool → ℕ → List WorkerPool → Outcome (List WorkerPool)
  sections_loop malloc_ok zero pools = done pools
  sections_loop malloc_ok (suc section_count) pools =
      section_round malloc_ok (getsecname dict section_count) pools
      >>= sections_loop malloc_ok section_count

  -- The function ends with no `return` after its loop, so its caller reads some value, `left_over`.
  unfoldable pub parse_pool_ini : Bool → ℤ → List WorkerPool → Outcome (ℤ × List WorkerPool)
  parse_pool_ini malloc_ok left_over pools =
      if eqb_ℤ (getnsec dict) (negsuc 0)
      then failed (negsuc 0, pools)
      else with_code left_over (sections_loop malloc_ok (pos_part (getnsec dict)) pools)
