-- ===== src/Text/Chars.antt =====
-- A C string is the list of its bytes before the terminating NUL.
use Prim.Native.Char.{code}
use Prim.Native.String.{String}
use mathlib.Core.Path.{ap₂}
use pmf.Common.{
  Bool, Bool-cases, List, [], arith, false, if◌then◌else◌, inl, inr, leb, map, refl, true, ℕ, ◌&&◌,
  ◌+◌, ◌==◌, ◌||◌, ◌↔◌, ◌∷◌, ◌≡◌, ◌≢◌,
}

abbrev pub Text : Type 0
Text = List ℕ

-- The bytes of a literal in ASCII.
abbrev pub text : String → Text
text String.[] = []
text (String.◌∷◌ c s) = code c ∷ text s

abbrev pub is_digit : ℕ → Bool
is_digit c = leb 48 c && leb c 57

abbrev pub is_space : ℕ → Bool
is_space c = c == 32 || (leb 9 c && leb c 13)

abbrev pub to_lower : ℕ → ℕ
to_lower c = if leb 65 c && leb c 90 then c + 32 else c

-- `!strcmp(a, b)` and `!strcasecmp(a, b)`.
unfoldable pub str_eq : Text → Text → Bool
str_eq [] [] = true
str_eq [] (d ∷ t) = false
str_eq (c ∷ s) [] = false
str_eq (c ∷ s) (d ∷ t) = c == d && str_eq s t

unfoldable pub str_case_eq : Text → Text → Bool
str_case_eq [] [] = true
str_case_eq [] (d ∷ t) = false
str_case_eq (c ∷ s) [] = false
str_case_eq (c ∷ s) (d ∷ t) = to_lower c == to_lower d && str_case_eq s t

pub str_eq_iff : (s t : Text) → (str_eq s t ≡ true) ↔ (s ≡ t)
unfolding str_eq
str_eq_iff [] [] = (λ _. refl, λ _. refl)
str_eq_iff [] (d ∷ t) = (λ h. cc, λ h. cc)
str_eq_iff (c ∷ s) [] = (λ h. cc, λ h. cc)
str_eq_iff (c ∷ s) (d ∷ t) =
    (λ h. ground (arith, (str_eq_iff s t).0), λ h. ground (arith, (str_eq_iff s t).1))

cons_iff :
    (a b : ℕ) {p : Bool} {s t : Text}
    → (p ≡ true) ↔ (s ≡ t)
    → ((a == b && p) ≡ true) ↔ (a ∷ s ≡ b ∷ t)
cons_iff a b h = (λ e. ground (arith, h.0), λ e. ground (arith, h.1))

pub str_case_eq_iff : (s t : Text) → (str_case_eq s t ≡ true) ↔ (map to_lower s ≡ map to_lower t)
unfolding str_case_eq
str_case_eq_iff [] [] = (λ _. refl, λ _. refl)
str_case_eq_iff [] (d ∷ t) = (λ h. cc, λ h. cc)
str_case_eq_iff (c ∷ s) [] = (λ h. cc, λ h. cc)
str_case_eq_iff (c ∷ s) (d ∷ t) = cons_iff (to_lower c) (to_lower d) (str_case_eq_iff s t)

cons_parts : {a b : ℕ} {s t : Text} → a ∷ s ≡ b ∷ t → (a ≡ b) × (s ≡ t)
cons_parts h = (cc, cc)

-- A comparison that ignores case sees a text only up to case.
pub str_case_eq-cong :
    (s t u : Text) → map to_lower s ≡ map to_lower t → str_case_eq s u ≡ str_case_eq t u
unfolding str_case_eq
str_case_eq-cong [] [] u h = refl
str_case_eq-cong [] (d ∷ t) u h = cc
str_case_eq-cong (c ∷ s) [] u h = cc
str_case_eq-cong (c ∷ s) (d ∷ t) [] h = refl
str_case_eq-cong (c ∷ s) (d ∷ t) (e ∷ u) h =
    let (same, rest) = cons_parts h in
    ap₂ (λ a b. a == to_lower e && b) same (str_case_eq-cong s t u rest)

pub str_eq_refl : (s : Text) → str_eq s s ≡ true
str_eq_refl s = (str_eq_iff s s).1 refl

pub str_eq_ne : (s t : Text) → s ≢ t → str_eq s t ≡ false
str_eq_ne s t h = elim (Bool-cases (str_eq s t)) [
  | inl e ↦ absurd (h ((str_eq_iff s t).0 e))
  | inr e ↦ e
]
