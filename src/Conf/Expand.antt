-- ===== src/Conf/Expand.antt =====
-- pmf_conf_expand_pool_name and pmf_config_set_string of pmf_conf.c.
use native.Mathlib.Numerals.{add-one}
use pmf.Common.{
  Bool, Option, Option-cases, ap, arith, eqb_ℤ, if◌then◌else◌, inl, inr, length, length-append,
  length-take, negsuc, none, pos, refl, some, subst, suc, sym, take, true, zero, ℕ, ℤ, ◌++◌, ◌+◌,
  ◌-◌, ◌<◌, ◌≡◌, ◌≢◌, ◌≤◌, ◌⊎◌,
}
use pmf.Text.Chars.{Text, text}
use pmf.Text.Search.{split_first, split_first_lem}
use pmf.Conf.Values.{Parsed, err, ok}

abbrev pub max_key_value_len : ℕ
max_key_value_len = 128

abbrev pub token : Text
token = text "$pool"

-- `snprintf(buf, size, …)` keeps what fits before the NUL.
abbrev pub snprintf : ℕ → Text → Text
snprintf size s = take (size - 1) s

-- One round of the loop: the text that replaces `*value`.
abbrev pub expand_round : Text → Text → Text
expand_round before after = snprintf max_key_value_len (before ++ (text "pool" ++ after))

-- The loop with a bound on its rounds.
unfoldable pub expand_fuel : ℕ → Text → Text
unfolding split_first
expand_fuel zero value = value
expand_fuel (suc fuel) value = elim (split_first token value) [
  | none ↦ value
  | some (before, after) ↦ expand_fuel fuel (expand_round before after)
]

-- Every round shortens the text, so its length bounds the rounds.
unfoldable pub expand_pool_name : Option Text → ℤ × Option Text
unfolding expand_fuel
expand_pool_name none = (pos 0, none)
expand_pool_name (some value) = (pos 0, some (expand_fuel (length value + 1) value))

abbrev expanded : ℤ × Option Text → Parsed (Option Text)
expanded (code, value) =
    if eqb_ℤ code (negsuc 0) then err "Can't use '$pool' when the pool is not defined" else ok value

-- The value that is stored, given whether `strdup` finds memory.
unfoldable pub set_string : Bool → Text → Parsed (Option Text)
unfolding expand_pool_name
set_string strdup_ok value =
    if strdup_ok
    then expanded (expand_pool_name (some value))
    else err "pmf_conf_set_string(): strdup() failed!"

length-expand_round :
    (before after : Text)
    → length (expand_round before after) + 1 ≤ length (before ++ (token ++ after))
length-expand_round before after = omega (
  arith,
  length-take 127 (before ++ (text "pool" ++ after)),
  length-append before (text "pool" ++ after),
  length-append before (token ++ after),
)

-- What becomes of a text: while it holds "$pool", the first one is replaced by "pool" and the
-- result is cut to 127 bytes.
pub data Expands (value' : Text) : Text → Type 0 where
  plain : split_first token value' ≡ none → Expands value' value'
  round :
      (value before after : Text)
      → split_first token value ≡ some (before, after)
      → Expands value' (take 127 (before ++ (text "pool" ++ after)))
      → Expands value' value

-- A text that held "$pool" has been cut.
abbrev Kept : Text → Text → Type 0
Kept value value' =
    ((split_first token value ≡ none) × (value' ≡ value))
    ⊎ ((split_first token value ≢ none) × (length value' < max_key_value_len))

-- With fuel above the length of the text the loop ends by its test.
expand_fuel_lem :
    (fuel : ℕ) (value : Text)
    → length value < fuel
    → Expands (expand_fuel fuel value) value
      × (split_first token (expand_fuel fuel value) ≡ none)
      × (length (expand_fuel fuel value) ≤ length value)
      × Kept value (expand_fuel fuel value)
unfolding expand_fuel
expand_fuel_lem zero value h = absurd (omega arith)
expand_fuel_lem (suc fuel) value h = elim (Option-cases (split_first token value)) [
  | inl e ↦ rw (e, expand_fuel) (plain e, e, omega arith, inl (refl, refl))
  | inr ((before, after), e) ↦
      let parts = split_first_lem token value before after e in
      let shorter : length (expand_round before after) + 1 ≤ length value =
        subst (λ v. length (expand_round before after) + 1 ≤ length v) (sym parts)
          (length-expand_round before after) in
      let (expands, gone, len, _) =
        expand_fuel_lem fuel (expand_round before after) (omega arith) in
      rw (e, expand_fuel)
        (
          round value before after e expands,
          gone,
          omega arith,
          inr (λ n. cc, omega (arith, length-take 127 (before ++ (text "pool" ++ after)))),
        )
]

expand_fuel-kept :
    (value : Text) → split_first token value ≡ none → expand_fuel (length value + 1) value ≡ value
unfolding expand_fuel
expand_fuel-kept value e = rw (add-one) (rw (e, expand_fuel))

-- A text without "$pool" is stored as it is.
pub set_string-kept :
    (value : Text) → split_first token value ≡ none → set_string true value ≡ ok (some value)
unfolding set_string
set_string-kept value e = ap (λ v. ok (some v)) (expand_fuel-kept value e)

-- A string option, where strdup finds memory, is stored as what becomes of it by replacing the first
-- "$pool" again and again: none is left, and it is never longer than it was; it is unchanged if it
-- held none, and otherwise has fewer than 128 bytes.
pub set_string-expanded :
    (value : Text)
    → (value' : Text) × (set_string true value ≡ ok (some value'))
      × Expands value' value
      × (split_first token value' ≡ none)
      × (length value' ≤ length value)
      × (((split_first token value ≡ none) × (value' ≡ value))
          ⊎ ((split_first token value ≢ none) × (length value' < max_key_value_len)))
unfolding set_string
set_string-expanded value =
    let (expands, gone, len, kept) = expand_fuel_lem (length value + 1) value (omega arith) in
    (expand_fuel (length value + 1) value, refl, expands, gone, len, kept)
