-- ===== src/Conf/Parse/Typed.antt =====
-- Each table stores into fields of the type that its parsers give; the loop over the other sections
-- of the main file mixes the tables and does not.
use pmf.Common.{
  &&_split, Bool, List, Option, [], arith, false, none, pos_part, refl, some, suc, true, zero, ℕ, ℤ,
  ◌&&◌, ◌<◌, ◌==◌, ◌||◌, ◌∷◌, ◌≡◌, ◌≢◌,
}
use pmf.Text.Chars.{Text, text}
use pmf.Outcome.{Outcome, done, failed, fault, ◌>>=◌}
use pmf.Conf.Expand.{set_string}
use pmf.Conf.Values.{
  Parsed, err, ok, set_boolean, set_integer, set_log_level, set_pm, set_rlimit_core, set_time,
}
use pmf.Conf.Records.{GlobalConfig, PoolConfig, WorkerPool}
use pmf.Conf.Options.{
  Parser, Row, Value, boolean, global_options, int, integer, log_level, parsed_int, parsed_str, pm,
  pool_options, rlimit_core, run_parser, str, string, time, write_global, write_pool,
}
use pmf.Conf.Parse.{
  Ini, named, option_round, option_value, options_loop, parse_pool_ini, section_round,
  sections_loop, store_parsed, with_code, with_pool, written,
}

abbrev is_string : Parser → Bool
is_string string = true
is_string _ = false

-- A parser for strings gives a string, any other an integer.
abbrev Fits : Parser → Value → Type 0
Fits p (str s) = is_string p ≡ true
Fits p (int a) = is_string p ≡ false

parsed_int-Fits :
    (p : Parser) (m : Parsed ℤ) {v : Value} → is_string p ≡ false → parsed_int m ≡ ok v → Fits p v
parsed_int-Fits p (ok a) {v} i h = ground arith
parsed_int-Fits p (err message) i h = cc

parsed_str-Fits : (m : Parsed (Option Text)) {v : Value} → parsed_str m ≡ ok v → Fits string v
parsed_str-Fits (ok s) {v} h = ground arith
parsed_str-Fits (err message) h = cc

run_parser-Fits :
    (strdup_ok : Bool) (p : Parser) (value : Text) {v : Value}
    → run_parser strdup_ok p value ≡ ok v
    → Fits p v
unfolding run_parser
run_parser-Fits strdup_ok string value h = parsed_str-Fits (set_string strdup_ok value) h
run_parser-Fits strdup_ok log_level value h = parsed_int-Fits log_level (set_log_level value) refl h
run_parser-Fits strdup_ok integer value h = parsed_int-Fits integer (set_integer value) refl h
run_parser-Fits strdup_ok time value h = parsed_int-Fits time (set_time value) refl h
run_parser-Fits strdup_ok boolean value h = parsed_int-Fits boolean (set_boolean value) refl h
run_parser-Fits strdup_ok rlimit_core value h =
    parsed_int-Fits rlimit_core (set_rlimit_core value) refl h
run_parser-Fits strdup_ok pm value h = parsed_int-Fits pm (set_pm value) refl h

-- The offsets of the strings and of the integers of the two structures.
global_offset : Bool → ℕ → Bool
global_offset true o = o == 0 || (o == 8 || (o == 16 || o == 64))
global_offset false o =
    o == 24
    || (o == 28
        || (o == 32 || (o == 36 || (o == 40 || (o == 44 || (o == 48 || (o == 52 || o == 56)))))))

pool_offset : Bool → ℕ → Bool
pool_offset true o = o == 8 || (o == 16 || o == 24)
pool_offset false o =
    o == 56
    || (o == 60
        || (o == 64
            || (o == 68
                || (o == 72 || (o == 76 || (o == 80 || (o == 84 || (o == 88 || o == 92))))))))

write_global-some :
    (o : ℕ) (p : Parser) (v : Value) (g : GlobalConfig)
    → Fits p v
    → global_offset (is_string p) o ≡ true
    → write_global o v g ≢ none
unfolding write_global global_offset
write_global-some o p (str s) g f h = ground arith
write_global-some o p (int a) g f h = ground arith

write_pool-some :
    (o : ℕ) (p : Parser) (v : Value) (c : PoolConfig)
    → Fits p v
    → pool_offset (is_string p) o ≡ true
    → write_pool o v c ≢ none
unfolding write_pool pool_offset
write_pool-some o p (str s) c f h = ground arith
write_pool-some o p (int a) c f h = ground arith

unfoldable pub all_rows : (Row → Bool) → List Row → Bool
all_rows test [] = true
all_rows test (r ∷ rows) = test r && all_rows test rows

written-safe : {C : Type 0} (o : Option C) → o ≢ none → written o ≢ fault
written-safe none n f = n refl
written-safe (some c) n f = cc

>>=-safe :
    {A : Type 0} (m : Outcome A) (f : A → Outcome A)
    → m ≢ fault
    → ((a : A) → f a ≢ fault)
    → (m >>= f) ≢ fault
>>=-safe (done a) f m h = h a
>>=-safe (failed a) f m h = λ e. cc
>>=-safe fault f m h = λ e. m refl

-- What the two loops over a table of its own share: a store that is safe where an offset fits.
module _ {D : Type 0} (ini : Ini D) (strdup_ok : Bool) (dict : D) {C : Type 0}
    (write : ℕ → Value → C → Option C) (offset_ok : Bool → ℕ → Bool)
    (safe : (o : ℕ) (p : Parser) (v : Value) (c : C)
      → Fits p v
      → offset_ok (is_string p) o ≡ true
      → write o v c ≢ none)
    (section : Text) where
  store_parsed-safe :
      (p : Parser) (o : ℕ) (c : C) (m : Parsed Value)
      → offset_ok (is_string p) o ≡ true
      → ((v : Value) → m ≡ ok v → Fits p v)
      → store_parsed write o c m ≢ fault
  store_parsed-safe p o c (err message) h fits = λ e. cc
  store_parsed-safe p o c (ok v) h fits = written-safe (write o v c) (safe o p v c (fits v refl) h)

  option_value-safe :
      (p : Parser) (o : ℕ) (c : C) (value : Option Text)
      → offset_ok (is_string p) o ≡ true
      → option_value write (run_parser strdup_ok p) o c value ≢ fault
  option_value-safe p o c none h = λ e. cc
  option_value-safe p o c (some value) h =
      store_parsed-safe p o c (run_parser strdup_ok p value) h
        (λ v. run_parser-Fits strdup_ok p value)

  options_loop-safe :
      (keys rows : List Row) (c : C)
      → all_rows (λ r. offset_ok (is_string r.parser) r.offset) rows ≡ true
      → options_loop ini strdup_ok dict write section keys rows c ≢ fault
  unfolding options_loop all_rows
  options_loop-safe [] rows c h = λ e. cc
  options_loop-safe (k ∷ keys) [] c h = λ e. cc
  options_loop-safe (k ∷ keys) (r ∷ rows) c h =
      let (fits, others) = &&_split _ _ h in
      >>=-safe (option_round ini strdup_ok dict write section k r c) _
        (option_value-safe r.parser r.offset c _ fits) (λ c'. options_loop-safe keys rows c' others)

module _ {D : Type 0} (ini : Ini D) (strdup_ok : Bool) (dict : D) where
  -- Reading the options of `[global]` stores each into a field of its type.
  pub global_options-safe :
      (g : GlobalConfig)
      → options_loop ini strdup_ok dict write_global (text "global") global_options global_options g
        ≢ fault
  unfolding all_rows global_offset
  global_options-safe g =
      options_loop-safe ini strdup_ok dict write_global global_offset write_global-some
        (text "global") global_options global_options g refl

  pool_options-safe :
      (section : Text) (c : PoolConfig)
      → options_loop ini strdup_ok dict write_pool section pool_options pool_options c ≢ fault
  unfolding all_rows pool_offset
  pool_options-safe section c =
      options_loop-safe ini strdup_ok dict write_pool pool_offset write_pool-some section
        pool_options pool_options c refl

  with_pool-safe :
      (pools : List WorkerPool) (m : Outcome PoolConfig) → m ≢ fault → with_pool pools m ≢ fault
  with_pool-safe pools (done c) h = λ e. cc
  with_pool-safe pools (failed c) h = λ e. cc
  with_pool-safe pools fault h = λ e. h refl

  section_round-safe :
      (malloc_ok : Bool) (section : Option Text) (pools : List WorkerPool)
      → section ≢ none
      → section_round ini strdup_ok dict malloc_ok section pools ≢ fault
  unfolding section_round
  section_round-safe malloc_ok none pools h = λ e. h refl
  section_round-safe malloc_ok (some section) pools h = ground (
    arith,
    with_pool-safe pools
        (options_loop ini strdup_ok dict write_pool section pool_options pool_options
          (named section))
        (pool_options-safe section (named section)),
  )

  sections_loop-safe :
      (malloc_ok : Bool) (section_count : ℕ) (pools : List WorkerPool)
      → ((i : ℕ) → i < section_count → ini.getsecname dict i ≢ none)
      → sections_loop ini strdup_ok dict malloc_ok section_count pools ≢ fault
  unfolding sections_loop
  sections_loop-safe malloc_ok zero pools h = λ e. cc
  sections_loop-safe malloc_ok (suc section_count) pools h =
      >>=-safe
        (section_round ini strdup_ok dict malloc_ok (ini.getsecname dict section_count) pools) _
        (section_round-safe malloc_ok (ini.getsecname dict section_count) pools
          (h section_count (omega arith)))
        (λ pools'. sections_loop-safe malloc_ok section_count pools' (λ i l. h i (omega arith)))

  -- Where each section that is counted has a name, reading a pool file stores every option into a
  -- field of its type, whatever the file holds and whether or not memory is found.
  pub parse_pool_ini-safe :
      (malloc_ok : Bool) (left_over : ℤ) (pools : List WorkerPool)
      → ((i : ℕ) → i < pos_part (ini.getnsec dict) → ini.getsecname dict i ≢ none)
      → parse_pool_ini ini strdup_ok dict malloc_ok left_over pools ≢ fault
  unfolding parse_pool_ini
  parse_pool_ini-safe malloc_ok left_over pools h = ground (
    arith,
    with_code-safe (sections_loop ini strdup_ok dict malloc_ok (pos_part (ini.getnsec dict)) pools)
        (sections_loop-safe malloc_ok (pos_part (ini.getnsec dict)) pools h),
  )
    where
      with_code-safe : (m : Outcome (List WorkerPool)) → m ≢ fault → with_code left_over m ≢ fault
      with_code-safe (done p) n = λ e. cc
      with_code-safe (failed p) n = λ e. cc
      with_code-safe fault n = λ e. n refl
