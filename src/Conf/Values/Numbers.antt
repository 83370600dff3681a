-- ===== src/Conf/Values/Numbers.antt =====
-- What pmf_conf_set_integer and pmf_conf_set_rlimit_core accept, and what they store.
use pmf.Common.{
  Bool-cases, IsInt, [], ap, arith, inl, inr, map, negsuc, pos, refl, suc, sym, true, ℤ, ◌==◌, ◌↔◌,
  ◌∙◌, ◌∷◌, ◌≡◌, ◌≤ℤ◌, ◌⊎◌,
}
use pmf.Text.Chars.{Text, str_case_eq, str_case_eq_iff, text, to_lower}
use pmf.Text.Search.{all_digits}
use pmf.Text.Number.{atoi}
use pmf.Text.Decimal.{atoi-show_int, show_int, show_nat, show_nat_lem}
use pmf.Conf.Values.{is_number, ok, only_digits, set_integer, set_rlimit_core}

only_digits-eq : (s : Text) → only_digits s ≡ all_digits s
unfolding only_digits all_digits
only_digits-eq [] = refl
only_digits-eq (c ∷ s) = ground (arith, only_digits-eq s)

is_number-digits : (s : Text) → all_digits s ≡ true → is_number s ≡ true
unfolding is_number all_digits
is_number-digits [] h = refl
is_number-digits (c ∷ s) h = ground (arith, only_digits-eq s)

is_number-minus : (s : Text) → all_digits s ≡ true → is_number (b'-' ∷ s) ≡ true
unfolding is_number
is_number-minus s h = only_digits-eq s ∙ h

is_number-shape :
    (value : Text)
    → is_number value ≡ true
    → (s : Text) × (all_digits s ≡ true) × ((value ≡ s) ⊎ (value ≡ b'-' ∷ s))
unfolding is_number all_digits
is_number-shape [] h = ([], refl, inl refl)
is_number-shape (c ∷ s) h = elim (Bool-cases (c == b'-')) [
  | inl e ↦ (s, ground (arith, only_digits-eq s), inr (ground arith))
  | inr e ↦ (c ∷ s, ground (arith, only_digits-eq s), inl refl)
]

set_integer_lem : (value : Text) → is_number value ≡ true → set_integer value ≡ ok (atoi value)
unfolding set_integer
set_integer_lem value h = rw h

set_integer-inv :
    (value : Text) (a : ℤ) → set_integer value ≡ ok a → (is_number value ≡ true) × (a ≡ atoi value)
unfolding set_integer
set_integer-inv value a h = ground arith

-- pmf_conf_set_integer accepts a value exactly if it is a row of digits, possibly empty, or a minus
-- sign before one, and it stores what `atoi` reads.
pub set_integer-shape :
    (value : Text) (a : ℤ)
    → (set_integer value ≡ ok a)
      ↔ ((s : Text) × (all_digits s ≡ true) × ((value ≡ s) ⊎ (value ≡ b'-' ∷ s)) × (a ≡ atoi value))
set_integer-shape value a = (
  λ h.
      let (number, e) = set_integer-inv value a h in
      let (s, digits, shape) = is_number-shape value number in (s, digits, shape, e),
  λ (s, digits, shape, e). set_integer_lem value (number s digits shape) ∙ ap ok (sym e),
)
  where
    number :
        (s : Text) → all_digits s ≡ true → (value ≡ s) ⊎ (value ≡ b'-' ∷ s) → is_number value ≡ true
    number s digits (inl e) = ap is_number e ∙ is_number-digits s digits
    number s digits (inr e) = ap is_number e ∙ is_number-minus s digits

is_number-show_int : (a : ℤ) → is_number (show_int a) ≡ true
unfolding show_int
is_number-show_int (pos n) = is_number-digits (show_nat n) (show_nat_lem n).0
is_number-show_int (negsuc n) = is_number-minus (show_nat (suc n)) (show_nat_lem (suc n)).0

-- Every `int` that pmf_conf_dump prints with `%d`, a negative one too, is stored again as it was.
pub set_integer-show_int : (a : ℤ) → IsInt a → set_integer (show_int a) ≡ ok a
set_integer-show_int a h =
    set_integer_lem (show_int a) (is_number-show_int a) ∙ ap ok (atoi-show_int a h)

-- A value that pmf_conf_set_rlimit_core stores is -1, and then the text was "unlimited" in any
-- case, or it is not negative.
pub set_rlimit_core-bounds :
    (value : Text) (a : ℤ)
    → set_rlimit_core value ≡ ok a
    → ((a ≡ negsuc 0) × (map to_lower value ≡ text "unlimited"))
      ⊎ ((pos 0 ≤ℤ a) × (set_integer value ≡ ok a))
unfolding set_rlimit_core
set_rlimit_core-bounds value a h = elim (Bool-cases (str_case_eq value (text "unlimited"))) [
  | inl e ↦ inl (ground arith, (str_case_eq_iff value (text "unlimited")).0 e)
  | inr e ↦ inr (ground arith, ground arith)
]
