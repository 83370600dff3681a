-- ===== src/Text/Decimal.antt =====
-- `%d` and `%lu` of printf, and reading back what they print.
use pmf.Common.{
  Bool-cases, IsInt, [], ap, arith, if◌then◌else◌, inl, inr, ltb, ltb→lt, min, neg, negsuc, pos,
  refl, suc, true, wrap_int, wrap_int_lem, zero, ℕ, ℤ, ◌%◌, ◌*◌, ◌++◌, ◌+◌, ◌-◌, ◌/◌, ◌<◌, ◌∙◌, ◌∷◌,
  ◌≡◌,
}
use pmf.Text.Chars.{Text, text}
use pmf.Text.Search.{all_digits}
use pmf.Text.Number.{atoi, digits_value, long_max, strtol}

-- The fuel bounds the number of digits.
unfoldable pub show_fuel : ℕ → ℕ → Text
show_fuel zero n = []
show_fuel (suc fuel) n =
    let rest = show_fuel fuel (n / 10) in
    if ltb n 10 then (48 + n) ∷ [] else rest ++ (48 + n % 10) ∷ []

unfoldable pub show_nat : ℕ → Text
unfolding show_fuel
show_nat n = show_fuel (suc n) n

unfoldable pub show_int : ℤ → Text
unfolding show_nat
show_int (pos n) = show_nat n
show_int (negsuc n) = b'-' ∷ show_nat (suc n)

show_int_runs : (show_int (pos 0) ≡ text "0") × (show_int (negsuc 1204) ≡ text "-1205")
unfolding show_int
show_int_runs = (refl, refl)

-- The digits of a text, the last one first to be split off.
digits_value-snoc :
    (acc d : ℕ) (s : Text)
    → all_digits s ≡ true
    → d < 10
    → digits_value 10 acc (s ++ (48 + d) ∷ []) ≡ digits_value 10 acc s * 10 + d
unfolding digits_value all_digits
digits_value-snoc acc d [] h l = ground arith
digits_value-snoc acc d (c ∷ s) h l = ground (arith, digits_value-snoc (acc * 10 + (c - 48)) d s)

all_digits-snoc :
    (d : ℕ) (s : Text) → all_digits s ≡ true → d < 10 → all_digits (s ++ (48 + d) ∷ []) ≡ true
unfolding all_digits
all_digits-snoc d [] h l = ground arith
all_digits-snoc d (c ∷ s) h l = ground (arith, all_digits-snoc d s)

one_digit :
    (n : ℕ) → n < 10 → (all_digits ((48 + n) ∷ []) ≡ true) × (digits_value 10 0 ((48 + n) ∷ []) ≡ n)
unfolding all_digits digits_value
one_digit n h = (ground arith, ground arith)

-- What `show_fuel` prints, given fuel above the number.
show_fuel_lem :
    (fuel n : ℕ)
    → n < fuel
    → (all_digits (show_fuel fuel n) ≡ true) × (digits_value 10 0 (show_fuel fuel n) ≡ n)
unfolding show_fuel
show_fuel_lem zero n h = absurd (omega arith)
show_fuel_lem (suc fuel) n h = elim (Bool-cases (ltb n 10)) [
  | inl small ↦ rw small (one_digit n (ltb→lt n 10 small))
  | inr big ↦
      let (all, value) = show_fuel_lem fuel (n / 10) (ground arith) in
      rw big (
        all_digits-snoc (n % 10) (show_fuel fuel (n / 10)) all (omega arith),
        digits_value-snoc 0 (n % 10) (show_fuel fuel (n / 10)) all (omega arith)
            ∙ omega (arith, value),
      )
]

pub show_nat_lem : (n : ℕ) → (all_digits (show_nat n) ≡ true) × (digits_value 10 0 (show_nat n) ≡ n)
unfolding show_nat
show_nat_lem n = show_fuel_lem (suc n) n (omega arith)

-- A text of digits is read as its value, up to the largest `long`.
pub strtol-digits :
    (s : Text) → all_digits s ≡ true → strtol 10 s ≡ pos (min (digits_value 10 0 s) long_max)
unfolding strtol all_digits
strtol-digits [] h = refl
strtol-digits (c ∷ s) h = ground arith

strtol-minus : (s : Text) → strtol 10 (b'-' ∷ s) ≡ neg (min (digits_value 10 0 s) (long_max + 1))
unfolding strtol
strtol-minus s = refl

neg-suc : (n : ℕ) → neg (suc n) ≡ negsuc n
neg-suc n = ground arith

-- What `%d` prints of an `int`, `atoi` reads as that `int`.
pub atoi-show_int : (a : ℤ) → IsInt a → atoi (show_int a) ≡ a
unfolding atoi show_int
atoi-show_int (pos n) h =
    let (all, value) = show_nat_lem n in
    rw (strtol-digits (show_nat n) all, value, fits) (wrap_int_lem (pos n) h)
  where
    fits : min n long_max ≡ n
    fits = omega arith
atoi-show_int (negsuc n) h =
    let (all, value) = show_nat_lem (suc n) in
    rw (strtol-minus (show_nat (suc n)), value, fits)
      (ap wrap_int (neg-suc n) ∙ wrap_int_lem (negsuc n) h)
  where
    fits : min (suc n) (long_max + 1) ≡ suc n
    fits = omega arith
