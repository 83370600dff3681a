-- ===== src/Outcome.antt =====
-- How a call of the program ends. Its functions return a code that the caller tests for being
-- negative.
use pmf.Common.{
  Bool, List, [], ap, false, if◌then◌else◌, inl, inr, ltb_ℤ, negsuc, pos, refl, true, ℤ, ◌∷◌, ◌≡◌,
  ◌⊎◌,
}

-- The end of a call: it returns with a state, it returns -1 with the state at that point, or it has
-- read or written through a pointer that it must not use.
pub data Outcome (A : Type 0) : Type 0 where
  done : A → Outcome A
  failed : A → Outcome A
  fault : Outcome A

infixl 5 ◌>>=◌
abbrev pub ◌>>=◌ : {A : Type 0} → Outcome A → (A → Outcome A) → Outcome A
done a >>= f = f a
failed a >>= f = failed a
fault >>= f = fault

pub >>=-done :
    {A : Type 0} (m : Outcome A) (f : A → Outcome A) {b : A}
    → (m >>= f) ≡ done b
    → (a : A) × (m ≡ done a) × (f a ≡ done b)
>>=-done (done a) f h = (a, refl, h)
>>=-done (failed a) f h = cc
>>=-done fault f h = cc

-- `if (0 > f()) return -1;` around a function that returns a code with the state.
abbrev pub of_code : {A : Type 0} → ℤ × A → Outcome A
of_code (code, a) = if ltb_ℤ code (pos 0) then failed a else done a

-- The same where the call may not come to its end.
abbrev pub of_call : {A : Type 0} → Outcome (ℤ × A) → Outcome A
of_call (done r) = of_code r
of_call (failed (code, a)) = failed a
of_call fault = fault

abbrev pub map_outcome : {A B : Type 0} → (A → B) → Outcome A → Outcome B
map_outcome f (done a) = done (f a)
map_outcome f (failed a) = failed (f a)
map_outcome f fault = fault

pub if-done :
    {A : Type 0} (failing : Bool) (x : A) (m : Outcome A) {b : A}
    → (if failing then failed x else m) ≡ done b
    → (failing ≡ false) × (m ≡ done b)
if-done true x m h = absurd (cc)
if-done false x m h = (refl, h)

pub done-inj : {A : Type 0} (a b : A) → done a ≡ done b → a ≡ b
done-inj a b h = cc

pub of_code-done :
    {A : Type 0} (code : ℤ) (a : A) {b : A}
    → of_code (code, a) ≡ done b
    → (ltb_ℤ code (pos 0) ≡ false) × (a ≡ b)
of_code-done code a {b} h =
    let (e, same) = if-done (ltb_ℤ code (pos 0)) a (done a) h in (e, done-inj a b same)

pub of_call-done :
    {A : Type 0} (m : Outcome (ℤ × A)) {b : A}
    → of_call m ≡ done b
    → (code : ℤ) × (m ≡ done (code, b)) × (ltb_ℤ code (pos 0) ≡ false)
of_call-done (done (code, a)) h =
    let (k, e) = of_code-done code a h in (code, ap (λ c. done (code, c)) e, k)
of_call-done (failed (code, a)) h = cc
of_call-done fault h = cc

pub map_outcome-done :
    {A B : Type 0} (f : A → B) (m : Outcome A) {b : B}
    → map_outcome f m ≡ done b
    → (a : A) × (m ≡ done a) × (f a ≡ b)
map_outcome-done f (done a) {b} h = (a, refl, done-inj (f a) b h)
map_outcome-done f (failed a) h = cc
map_outcome-done f fault h = cc

pub if-either :
    {A : Type 0} (test : Bool) (m n : A) {r : A} → (if test then m else n) ≡ r → (m ≡ r) ⊎ (n ≡ r)
if-either true m n h = inl h
if-either false m n h = inr h

pub if_failing :
    (failing : Bool) → ltb_ℤ (if failing then negsuc 0 else pos 0) (pos 0) ≡ false → failing ≡ false
if_failing true h = absurd (cc)
if_failing false h = refl

pub if-found :
    {A : Type 0} (found : Bool) (x a : A) {b : A}
    → (if found then done a else failed x) ≡ done b
    → (found ≡ true) × (a ≡ b)
if-found true x a {b} h = (refl, done-inj a b h)
if-found false x a h = absurd (cc)

-- `0 > f() || 0 > g() || ...`: the calls in order, up to the first that does not come back with
-- success.
unfoldable pub run_all : {A : Type 0} → List (A → Outcome A) → A → Outcome A
run_all [] a = done a
run_all (f ∷ calls) a = f a >>= run_all calls

pub run_all-done :
    {A : Type 0} (f : A → Outcome A) (calls : List (A → Outcome A)) (a : A) {b : A}
    → run_all (f ∷ calls) a ≡ done b
    → (c : A) × (f a ≡ done c) × (run_all calls c ≡ done b)
unfolding run_all
run_all-done f calls a h = >>=-done (f a) (run_all calls) h

pub run_all-nil : {A : Type 0} (a b : A) → run_all [] a ≡ done b → a ≡ b
unfolding run_all
run_all-nil a b h = done-inj a b h
