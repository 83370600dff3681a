-- ===== src/Text/Search.antt =====
-- strchr, strrchr, strstr, strspn.
use pmf.Common.{
  Bool, Option, Option-cases, [], arith, false, if◌then◌else◌, inl, inr, none, some, true, ℕ, ◌&&◌,
  ◌++◌, ◌==◌, ◌||◌, ◌∷◌, ◌≡◌,
}
use pmf.Text.Chars.{Text, is_digit}

-- `strchr(s, c) != NULL`.
unfoldable pub has_char : ℕ → Text → Bool
has_char c [] = false
has_char c (d ∷ s) = d == c || has_char c s

-- What stands before and after the last `c`: `strrchr` points at the `c` between them.
unfoldable pub split_last : ℕ → Text → Option (Text × Text)
split_last c [] = none
split_last c (d ∷ s) = elim (split_last c s) [
  | some (before, after) ↦ some (d ∷ before, after)
  | none ↦ if d == c then some ([], s) else none
]

-- `strlen(s) == strspn(s, "0123456789")`.
unfoldable pub all_digits : Text → Bool
all_digits [] = true
all_digits (c ∷ s) = is_digit c && all_digits s

-- What follows a prefix.
unfoldable pub strip_prefix : Text → Text → Option Text
strip_prefix [] s = some s
strip_prefix (p ∷ ps) [] = none
strip_prefix (p ∷ ps) (c ∷ s) = let rest = strip_prefix ps s in if p == c then rest else none

-- What stands before and after the first occurrence of a needle: `strstr` points at its start.
unfoldable pub split_first : Text → Text → Option (Text × Text)
unfolding strip_prefix
split_first needle [] = elim (strip_prefix needle []) [
  | some after ↦ some ([], after)
  | none ↦ none
]
split_first needle (c ∷ s) = elim (strip_prefix needle (c ∷ s)) [
  | some after ↦ some ([], after)
  | none ↦ elim (split_first needle s) [
    | some (before, after) ↦ some (c ∷ before, after)
    | none ↦ none
  ]
]

strip_prefix_lem : (p s after : Text) → strip_prefix p s ≡ some after → s ≡ p ++ after
unfolding strip_prefix
strip_prefix_lem [] s after h = cc
strip_prefix_lem (c ∷ p) [] after h = cc
strip_prefix_lem (c ∷ p) (d ∷ s) after h = ground (arith, strip_prefix_lem p s after)

-- What `split_first` finds makes up the text again.
pub split_first_lem :
    (needle s before after : Text)
    → split_first needle s ≡ some (before, after)
    → s ≡ before ++ (needle ++ after)
unfolding split_first
split_first_lem needle [] before after h = elim (Option-cases (strip_prefix needle [])) [
  | inl e ↦ ground arith
  | inr (rest, e) ↦ ground (arith, strip_prefix_lem needle [] rest)
]
split_first_lem needle (c ∷ s) before after h = elim (Option-cases (strip_prefix needle (c ∷ s))) [
  | inr (rest, e) ↦ ground (arith, strip_prefix_lem needle (c ∷ s) rest)
  | inl e ↦ elim (Option-cases (split_first needle s)) [
    | inl n ↦ ground arith
    | inr ((front, rest), k) ↦ ground (arith, split_first_lem needle s front rest)
  ]
]
