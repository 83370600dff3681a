-- ===== src/Common/Lists.antt =====
-- Lists measured and indexed by native numbers, under the library's names.
use Prim.Native.Nat.{ℕ, zero, suc, ◌+◌, ◌-◌, ◌<◌, ◌≤◌, min}
use mathlib.Core.Path.{◌≡◌, refl, ap, ◌∙◌}
use mathlib.Core.Logic.{◌≢◌}
use mathlib.Core.List.{List, [], ◌∷◌, ◌++◌}
use mathlib.Core.Option.{Option, none, some}
use native.Mathlib.Omega.{arith}

module _ {ℓ} {A : Type ℓ} where
  abbrev pub length : List A → ℕ
  length [] = 0
  length (x ∷ xs) = suc (length xs)

  abbrev pub get_elem? : List A → ℕ → Option A
  get_elem? [] i = none
  get_elem? (x ∷ xs) zero = some x
  get_elem? (x ∷ xs) (suc i) = get_elem? xs i

  -- A write out of bounds changes nothing.
  abbrev pub set : List A → ℕ → A → List A
  set [] i v = []
  set (x ∷ xs) zero v = v ∷ xs
  set (x ∷ xs) (suc i) v = x ∷ set xs i v

  abbrev pub take : ℕ → List A → List A
  take zero xs = []
  take (suc n) [] = []
  take (suc n) (x ∷ xs) = x ∷ take n xs

  abbrev pub drop : ℕ → List A → List A
  drop zero xs = xs
  drop (suc n) [] = []
  drop (suc n) (x ∷ xs) = drop n xs

  abbrev pub replicate : ℕ → A → List A
  replicate zero a = []
  replicate (suc n) a = a ∷ replicate n a

module _ {ℓ} {A : Type ℓ} where
  pub length-append : (xs ys : List A) → length (xs ++ ys) ≡ length xs + length ys
  length-append [] ys = omega arith
  length-append (x ∷ xs) ys = omega (arith, length-append xs ys)

  pub length-set : (xs : List A) (i : ℕ) (v : A) → length (set xs i v) ≡ length xs
  length-set [] i v = refl
  length-set (x ∷ xs) zero v = refl
  length-set (x ∷ xs) (suc i) v = ap suc (length-set xs i v)

  pub length-take : (n : ℕ) (xs : List A) → length (take n xs) ≡ min n (length xs)
  length-take zero xs = omega arith
  length-take (suc n) [] = omega arith
  length-take (suc n) (x ∷ xs) = omega (arith, length-take n xs)

  pub length-replicate : (n : ℕ) (a : A) → length (replicate n a) ≡ n
  length-replicate zero a = refl
  length-replicate (suc n) a = ap suc (length-replicate n a)

  pub get_elem?-set_self :
      (xs : List A) (i : ℕ) (v : A) → i < length xs → get_elem? (set xs i v) i ≡ some v
  get_elem?-set_self [] i v h = elim h [ ]
  get_elem?-set_self (x ∷ xs) zero v h = refl
  get_elem?-set_self (x ∷ xs) (suc i) v h = get_elem?-set_self xs i v (omega arith)

  pub get_elem?-set_ne :
      (xs : List A) {i j : ℕ} (v : A) → i ≢ j → get_elem? (set xs i v) j ≡ get_elem? xs j
  get_elem?-set_ne [] v h = refl
  get_elem?-set_ne (x ∷ xs) {i = zero} {j = zero} v h = absurd (h refl)
  get_elem?-set_ne (x ∷ xs) {i = zero} {j = suc j} v h = refl
  get_elem?-set_ne (x ∷ xs) {i = suc i} {j = zero} v h = refl
  get_elem?-set_ne (x ∷ xs) {i = suc i} {j = suc j} v h = get_elem?-set_ne xs v (λ e. h (ap suc e))

  -- A predicate of every element; it computes to a tuple.
  abbrev pub All {κ} : (A → Type κ) → List A → Type κ
  All P [] = Unit
  All P (x ∷ xs) = P x × All P xs

  pub All-map {κ ι} :
      (P : A → Type κ) (Q : A → Type ι) (xs : List A) → ((x : A) → P x → Q x) → All P xs → All Q xs
  All-map P Q [] h all = tt
  All-map P Q (x ∷ xs) h all = (h x all.0, All-map P Q xs h all.1)

-- The first elements of what two lists make.
module _ {ℓ} {A : Type ℓ} where
  pub take-append : (n : ℕ) (s t : List A) → take n s ++ take (n - length s) t ≡ take n (s ++ t)
  take-append zero [] t = refl
  take-append zero (c ∷ s) t = let e : 0 - length (c ∷ s) ≡ 0 = omega arith in ap (λ k. take k t) e
  take-append (suc n) [] t = let e : suc n - 0 ≡ suc n = omega arith in ap (λ k. take k t) e
  take-append (suc n) (c ∷ s) t =
      let e : suc n - suc (length s) ≡ n - length s = omega arith in
      ap (λ k. c ∷ (take n s ++ take k t)) e ∙ ap (c ∷◌) (take-append n s t)

  pub take-all : (n : ℕ) (s : List A) → length s ≤ n → take n s ≡ s
  take-all zero [] h = refl
  take-all zero (c ∷ s) h = absurd (omega arith)
  take-all (suc n) [] h = refl
  take-all (suc n) (c ∷ s) h = ap (c ∷◌) (take-all n s (omega arith))

  pub take-take :
      (n k : ℕ) (s t : List A) → n ≤ k → k ≤ length s → take n (take k s) ≡ take n (s ++ t)
  take-take zero k s t h g = refl
  take-take (suc n) zero s t h g = absurd (omega arith)
  take-take (suc n) (suc k) [] t h g = absurd (omega arith)
  take-take (suc n) (suc k) (c ∷ s) t h g =
      ap (c ∷◌) (take-take n k s t (omega arith) (omega arith))

  pub append-nil : (s : List A) → s ++ [] ≡ s
  append-nil [] = refl
  append-nil (c ∷ s) = ap (c ∷◌) (append-nil s)

  pub append_assoc : (s t u : List A) → (s ++ t) ++ u ≡ s ++ (t ++ u)
  append_assoc [] t u = refl
  append_assoc (c ∷ s) t u = ap (c ∷◌) (append_assoc s t u)

-- A relation of the elements of two lists at the same places; it computes to a tuple.
module _ {ℓ κ} {A : Type ℓ} {B : Type κ} where
  abbrev pub Pairwise : (A → B → Type 0) → List A → List B → Type 0
  Pairwise R [] [] = Unit
  Pairwise R [] (y ∷ ys) = ⊥
  Pairwise R (x ∷ xs) [] = ⊥
  Pairwise R (x ∷ xs) (y ∷ ys) = R x y × Pairwise R xs ys

  pub Pairwise-map :
      (R S : A → B → Type 0) (xs : List A) (ys : List B)
      → ((x : A) (y : B) → R x y → S x y)
      → Pairwise R xs ys
      → Pairwise S xs ys
  Pairwise-map R S [] [] h p = tt
  Pairwise-map R S [] (y ∷ ys) h p = p
  Pairwise-map R S (x ∷ xs) [] h p = p
  Pairwise-map R S (x ∷ xs) (y ∷ ys) h p = (h x y p.0, Pairwise-map R S xs ys h p.1)

  pub Pairwise-All :
      (R : A → B → Type 0) (P : A → Type 0) (Q : B → Type 0) (xs : List A) (ys : List B)
      → ((x : A) (y : B) → R x y → P x → Q y)
      → Pairwise R xs ys
      → All P xs
      → All Q ys
  Pairwise-All R P Q [] [] h p all = tt
  Pairwise-All R P Q [] (y ∷ ys) h p all = absurd p
  Pairwise-All R P Q (x ∷ xs) [] h p all = absurd p
  Pairwise-All R P Q (x ∷ xs) (y ∷ ys) h p all =
      (h x y p.0 all.0, Pairwise-All R P Q xs ys h p.1 all.1)

  pub Pairwise-right :
      (R : A → B → Type 0) (Q : B → Type 0) (xs : List A) (ys : List B)
      → ((x : A) (y : B) → R x y → Q y)
      → Pairwise R xs ys
      → All Q ys
  Pairwise-right R Q [] [] h p = tt
  Pairwise-right R Q [] (y ∷ ys) h p = absurd p
  Pairwise-right R Q (x ∷ xs) [] h p = absurd p
  Pairwise-right R Q (x ∷ xs) (y ∷ ys) h p = (h x y p.0, Pairwise-right R Q xs ys h p.1)

  pub Pairwise-some :
      (R : A → B → Type 0) (xs : List A) (ys : List B) → Pairwise R xs ys → xs ≢ [] → ys ≢ []
  Pairwise-some R [] [] p h e = h refl
  Pairwise-some R [] (y ∷ ys) p h e = p
  Pairwise-some R (x ∷ xs) [] p h e = p
  Pairwise-some R (x ∷ xs) (y ∷ ys) p h e = cc
