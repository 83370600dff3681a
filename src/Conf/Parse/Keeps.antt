-- ===== src/Conf/Parse/Keeps.antt =====
-- A property of a pool's configuration that the stores of the options leave alone.
use pmf.Common.{&&_split, Bool, List, Option, [], none, refl, some, true, ℕ, ◌∷◌, ◌≡◌}
use pmf.Outcome.{Outcome, done, failed, fault, ◌>>=◌}
use pmf.Text.Chars.{Text}
use pmf.Conf.Values.{Parsed, err, ok}
use pmf.Conf.Records.{PoolConfig}
use pmf.Conf.Options.{Row, Value, run_parser, write_pool}
use pmf.Conf.Parse.{Ini, option_round, option_value, options_loop, real_key, store_parsed, written}
use pmf.Conf.Parse.Typed.{all_rows}

-- The property holds of what a call leaves.
abbrev pub Keeps : (PoolConfig → Type 0) → Outcome PoolConfig → Type 0
Keeps P (done c) = P c
Keeps P (failed c) = P c
Keeps P fault = Unit

>>=-Keeps :
    (P : PoolConfig → Type 0) (m : Outcome PoolConfig) (f : PoolConfig → Outcome PoolConfig)
    → Keeps P m
    → ((c : PoolConfig) → P c → Keeps P (f c))
    → Keeps P (m >>= f)
>>=-Keeps P (done c) f k h = h c k
>>=-Keeps P (failed c) f k h = k
>>=-Keeps P fault f k h = tt

-- A store at an offset that is not left out keeps the property.
module _ (P : PoolConfig → Type 0) (free : ℕ → Bool)
    (keeps : (o : ℕ) (v : Value) (c c' : PoolConfig)
      → free o ≡ true
      → write_pool o v c ≡ some c'
      → P c
      → P c') where
  written-Keeps :
      (m : Option PoolConfig) → ((c' : PoolConfig) → m ≡ some c' → P c') → Keeps P (written m)
  written-Keeps none h = tt
  written-Keeps (some c') h = h c' refl

  store_parsed-Keeps :
      (o : ℕ) (c : PoolConfig) (m : Parsed Value)
      → free o ≡ true
      → P c
      → Keeps P (store_parsed write_pool o c m)
  store_parsed-Keeps o c (err message) h e = e
  store_parsed-Keeps o c (ok v) h e =
      written-Keeps (write_pool o v c) (λ c' k. keeps o v c c' h k e)

  option_value-Keeps :
      (parse : Text → Parsed Value) (o : ℕ) (c : PoolConfig) (value : Option Text)
      → free o ≡ true
      → P c
      → Keeps P (option_value write_pool parse o c value)
  option_value-Keeps parse o c none h e = e
  option_value-Keeps parse o c (some value) h e = store_parsed-Keeps o c (parse value) h e

  pub options_loop-Keeps :
      {D : Type 0} (ini : Ini D) (strdup_ok : Bool) (dict : D) (section : Text)
      (keys rows : List Row) (c : PoolConfig)
      → all_rows (λ r. free r.offset) rows ≡ true
      → P c
      → Keeps P (options_loop ini strdup_ok dict write_pool section keys rows c)
  unfolding options_loop all_rows
  options_loop-Keeps ini strdup_ok dict section [] rows c h e = e
  options_loop-Keeps ini strdup_ok dict section (k ∷ keys) [] c h e = e
  options_loop-Keeps ini strdup_ok dict section (k ∷ keys) (r ∷ rows) c h e =
      let (here, others) = &&_split (free r.offset) (all_rows (λ r'. free r'.offset) rows) h in
      >>=-Keeps P (option_round ini strdup_ok dict write_pool section k r c) _
        (option_value-Keeps (run_parser strdup_ok r.parser) r.offset c
          (ini.getstring dict (real_key section k.key)) here e)
        (λ c' e'. options_loop-Keeps ini strdup_ok dict section keys rows c' others e')
