-- ===== src/Text/Number.antt =====
-- strtol, strtoul and atoi.
use pmf.Common.{
  [], if◌then◌else◌, leb, ltb, min, neg, negsuc, pos, refl, u64_mod, wrap_int, ℕ, ℤ, ◌%◌, ◌&&◌, ◌*◌,
  ◌+◌, ◌-◌, ◌==◌, ◌∷◌, ◌≡◌,
}
use pmf.Text.Chars.{Text, is_space, text}

abbrev pub skip_space : Text → Text
skip_space [] = []
skip_space (c ∷ s) = let rest = skip_space s in if is_space c then rest else c ∷ s

-- The digits of a base up to 10 at the front of a text, as a number on top of `acc`.
unfoldable pub digits_value : ℕ → ℕ → Text → ℕ
digits_value base acc [] = acc
digits_value base acc (c ∷ s) =
    let rest = digits_value base (acc * base + (c - 48)) s in
    if leb 48 c && ltb c (48 + base) then rest else acc

abbrev pub long_max : ℕ
long_max = 0x7fff_ffff_ffff_ffff

-- `strtol(s, 0, base)`, which stops at the bounds of `long`.
abbrev pub signed_value : ℕ → Text → ℤ
signed_value base [] = pos 0
signed_value base (c ∷ s) =
    if c == b'-'
    then neg (min (digits_value base 0 s) (long_max + 1))
    else pos (min (digits_value base 0 (if c == b'+' then s else c ∷ s)) long_max)

unfoldable pub strtol : ℕ → Text → ℤ
unfolding digits_value
strtol base s = signed_value base (skip_space s)

-- `(int) strtol(s, 0, 10)`.
unfoldable pub atoi : Text → ℤ
unfolding strtol wrap_int
atoi s = wrap_int (strtol 10 s)

pub atoi_lem : (s : Text) → atoi s ≡ wrap_int (strtol 10 s)
unfolding atoi
atoi_lem s = refl

-- `strtoul(s, 0, base)`: a minus sign negates in `unsigned long`.
abbrev pub negated : ℕ → ℕ
negated n = if leb u64_mod n then u64_mod - 1 else (u64_mod - n) % u64_mod

abbrev pub unsigned_value : ℕ → Text → ℕ
unsigned_value base [] = 0
unsigned_value base (c ∷ s) =
    if c == b'-'
    then negated (digits_value base 0 s)
    else min (digits_value base 0 (if c == b'+' then s else c ∷ s)) (u64_mod - 1)

unfoldable pub strtoul : ℕ → Text → ℕ
unfolding digits_value
strtoul base s = unsigned_value base (skip_space s)

atoi_runs :
    (atoi (text " -42x") ≡ negsuc 41)
    × (atoi (text "abc") ≡ pos 0)
    × (atoi (text "4294967297") ≡ pos 1)
unfolding atoi
atoi_runs = (refl, refl, refl)
