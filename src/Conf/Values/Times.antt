-- ===== src/Conf/Values/Times.antt =====
-- pmf_conf_set_time: the units, and what the check of the suffix lets through.
use pmf.Common.{
  Bool-cases, [], ap, arith, false, inl, inr, int_max, ltb, pos, refl, some, sym, true, wrap_int,
  wrap_int_lem, ℕ, ◌%◌, ◌*ℤ◌, ◌*◌, ◌++◌, ◌+◌, ◌-◌, ◌/◌, ◌<◌, ◌∙◌, ◌∷◌, ◌≡◌, ◌≢◌, ◌≤◌,
}
use pmf.Text.Chars.{Text, is_digit, is_space}
use pmf.Text.Search.{all_digits}
use pmf.Text.Number.{atoi, atoi_lem, digits_value, strtol}
use pmf.Text.Decimal.{atoi-show_int, show_fuel, show_int, show_nat, show_nat_lem}
use pmf.Conf.Values.{ok, seconds_of, set_time, split_suffix}

-- A suffix and the seconds that it stands for.
pub data Suffix : ℕ → ℕ → Type 0 where
  second : Suffix b's' 1
  minute : Suffix b'm' 60
  hour : Suffix b'h' 3600
  day : Suffix b'd' 86400

pub split_suffix-snoc : (s : Text) (c : ℕ) → split_suffix (s ++ c ∷ []) ≡ some (s, c)
unfolding split_suffix
split_suffix-snoc [] c = refl
split_suffix-snoc (d ∷ s) c = rw (split_suffix-snoc s c)

set_time-snoc : (s : Text) (c : ℕ) → set_time (s ++ c ∷ []) ≡ seconds_of (s ++ c ∷ []) s c
unfolding set_time
set_time-snoc s c = rw (split_suffix-snoc s c, set_time)

scaled : (k n : ℕ) → k * n ≤ int_max → wrap_int (pos k *ℤ pos n) ≡ pos (k * n)
scaled k n h = ap wrap_int (product k n) ∙ wrap_int_lem (pos (k * n)) (omega arith)
  where
    product : (k n : ℕ) → pos k *ℤ pos n ≡ pos (k * n)
    product k n = unfold ◌*ℤ◌ in ground arith

-- With a suffix, what is stored is the number before it times its unit, if that fits in an `int`.
seconds_of-Suffix :
    {c k : ℕ} (n : ℕ) (value val : Text)
    → Suffix c k
    → atoi val ≡ pos n
    → k * n ≤ int_max
    → seconds_of value val c ≡ ok (pos (k * n))
unfolding seconds_of
seconds_of-Suffix n value val second e h = ap ok e ∙ ap (λ m. ok (pos m)) (omega arith)
seconds_of-Suffix n value val minute e h = rw e (ap ok (scaled 60 n h))
seconds_of-Suffix n value val hour e h = rw e (ap ok (scaled 3600 n h))
seconds_of-Suffix n value val day e h = rw e (ap ok (scaled 86400 n h))

Suffix-pos : {c k : ℕ} → Suffix c k → 0 < k
Suffix-pos second = omega arith
Suffix-pos minute = omega arith
Suffix-pos hour = omega arith
Suffix-pos day = omega arith

below_product : (k n m : ℕ) → 0 < k → k * n ≤ m → n ≤ m
below_product k n m p h = grind arith

pub atoi-show_nat : (n : ℕ) → n ≤ int_max → atoi (show_nat n) ≡ pos n
atoi-show_nat n h = (unfold show_int in atoi-show_int (pos n) (omega arith))

split_suffix-digits :
    (c : ℕ) (s : Text)
    → all_digits (c ∷ s) ≡ true
    → (front : Text) × (last : ℕ) × (split_suffix (c ∷ s) ≡ some (front, last))
      × (is_digit last ≡ true)
unfolding split_suffix all_digits
split_suffix-digits c [] h = ([], c, refl, ground arith)
split_suffix-digits c (d ∷ s) h =
    let (front, last, e, digit) = split_suffix-digits d s (ground arith) in
    (c ∷ front, last, rw e, digit)

seconds_of-digit :
    (value val : Text) (c : ℕ) → is_digit c ≡ true → seconds_of value val c ≡ ok (atoi value)
unfolding seconds_of
seconds_of-digit value val c h = ground arith

set_time-digits :
    (c : ℕ) (s : Text) → all_digits (c ∷ s) ≡ true → set_time (c ∷ s) ≡ ok (atoi (c ∷ s))
unfolding set_time
set_time-digits c s h =
    let (front, last, e, digit) = split_suffix-digits c s h in
    rw (e, set_time) (seconds_of-digit (c ∷ s) front last digit)

snoc-cons : (s : Text) (d : ℕ) → (c : ℕ) × (t : Text) × (s ++ d ∷ [] ≡ c ∷ t)
snoc-cons [] d = (d, [], refl)
snoc-cons (c ∷ s) d = (c, s ++ d ∷ [], refl)

show_nat-cons : (n : ℕ) → (c : ℕ) × (s : Text) × (show_nat n ≡ c ∷ s)
unfolding show_nat
show_nat-cons n = elim (Bool-cases (ltb n 10)) [
  | inl e ↦ (48 + n, [], rw e)
  | inr e ↦ rw e (snoc-cons (show_fuel n (n / 10)) (48 + n % 10))
]

-- A number with a suffix is stored as that many of the suffix's units in seconds, where the result
-- fits in an `int`.
pub set_time-units :
    (n : ℕ) {c k : ℕ}
    → Suffix c k
    → k * n ≤ int_max
    → set_time (show_nat n ++ c ∷ []) ≡ ok (pos (k * n))
set_time-units n {c} {k} unit fits =
    set_time-snoc (show_nat n) c
    ∙ seconds_of-Suffix n _ (show_nat n) unit
        (atoi-show_nat n (below_product k n int_max (Suffix-pos unit) fits)) fits

-- A number with no suffix is stored as that many seconds, where it fits in an `int`.
pub set_time-show_nat : (n : ℕ) → n ≤ int_max → set_time (show_nat n) ≡ ok (pos n)
set_time-show_nat n fits =
    let (c, s, e) = show_nat-cons n in
    ap set_time e
    ∙ set_time-digits c s (ap all_digits (sym e) ∙ (show_nat_lem n).0)
    ∙ ap ok (ap atoi (sym e) ∙ atoi-show_nat n fits)

-- What can start neither a number nor the space before one.
pub record IsForeign (c : ℕ) : Type 0 where
  pub no_space : is_space c ≡ false
  pub no_digit : is_digit c ≡ false
  pub no_minus : c ≢ b'-'
  pub no_plus : c ≢ b'+'

strtol-foreign : (c : ℕ) (s : Text) → IsForeign c → strtol 10 (c ∷ s) ≡ pos 0
unfolding strtol
strtol-foreign c s f = ground arith

atoi-foreign : (c : ℕ) (s : Text) → IsForeign c → atoi (c ∷ s) ≡ pos 0
atoi-foreign c s f =
    atoi_lem (c ∷ s) ∙ ap wrap_int (strtol-foreign c s f) ∙ wrap_int_lem (pos 0) (omega arith)

digits_value-stops :
    (t : Text) (c acc : ℕ) (s : Text)
    → all_digits t ≡ true
    → is_digit c ≡ false
    → digits_value 10 acc (t ++ c ∷ s) ≡ digits_value 10 acc t
unfolding digits_value all_digits
digits_value-stops [] c acc s h f = ground arith
digits_value-stops (d ∷ t) c acc s h f =
    let later = digits_value-stops t c (acc * 10 + (d - 48)) s (ground arith) f in ground arith

strtol-stops :
    (d : ℕ) (t : Text) (c : ℕ) (s : Text)
    → all_digits (d ∷ t) ≡ true
    → is_digit c ≡ false
    → strtol 10 ((d ∷ t) ++ c ∷ s) ≡ strtol 10 (d ∷ t)
unfolding strtol all_digits
strtol-stops d t c s h f = let same = digits_value-stops (d ∷ t) c 0 s h f in ground arith

-- What follows a number does not count for atoi.
atoi-stops :
    (n c : ℕ) (s : Text) → is_digit c ≡ false → n ≤ int_max → atoi (show_nat n ++ c ∷ s) ≡ pos n
atoi-stops n c s f fits =
    let (d, t, e) = show_nat-cons n in
    let digits : all_digits (d ∷ t) ≡ true = ap all_digits (sym e) ∙ (show_nat_lem n).0 in
    ap (λ v. atoi (v ++ c ∷ s)) e
    ∙ atoi_lem ((d ∷ t) ++ c ∷ s)
    ∙ ap wrap_int (strtol-stops d t c s digits f)
    ∙ sym (atoi_lem (d ∷ t))
    ∙ ap atoi (sym e)
    ∙ atoi-show_nat n fits

set_time-foreign :
    (c : ℕ) (s : Text) {u k : ℕ}
    → IsForeign c
    → Suffix u k
    → set_time (c ∷ s ++ u ∷ []) ≡ ok (pos 0)
set_time-foreign c s {u} {k} f unit =
    set_time-snoc (c ∷ s) u
    ∙ seconds_of-Suffix 0 _ (c ∷ s) unit (atoi-foreign c s f) (omega arith)
    ∙ ap (λ m. ok (pos m)) (omega arith)

-- Only the last character of the value is checked. Before a suffix, a text that begins with no
-- digit, space or sign is accepted and stored as 0 seconds; and after a number such a text is passed
-- over, and what is stored is the number times the unit of the suffix, where that fits in an `int`.
pub set_time-unchecked :
    (n c : ℕ) (s : Text) {u k : ℕ}
    → IsForeign c
    → Suffix u k
    → k * n ≤ int_max
    → (set_time (c ∷ s ++ u ∷ []) ≡ ok (pos 0))
      × (set_time ((show_nat n ++ c ∷ s) ++ u ∷ []) ≡ ok (pos (k * n)))
set_time-unchecked n c s {u} {k} f unit fits = (
  set_time-foreign c s f unit,
  set_time-snoc (show_nat n ++ c ∷ s) u
      ∙ seconds_of-Suffix n _ (show_nat n ++ c ∷ s) unit
          (atoi-stops n c s f.no_digit (below_product k n int_max (Suffix-pos unit) fits)) fits,
)
