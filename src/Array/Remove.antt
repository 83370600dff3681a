-- ===== src/Array/Remove.antt =====
-- pmf_array_remove_item: the last member takes the place of the removed one.
use mathlib.Core.List.{Perm, perm_append_comm}
use mathlib.Core.List.Perm
use pmf.Array.{Array, remove_item}
use pmf.Array.Valid.{IsValid, members}
use pmf.Common.{
  All, List, Option, [], ap, arith, get_elem?, if◌then◌else◌, length, length-set, negsuc, refl, set,
  signed32, some, subst, suc, sym, take, zero, ℕ, ℕ_discrete, ◌++◌, ◌-◌, ◌<◌, ◌==◌, ◌∙◌, ◌∷◌, ◌≡◌,
  ◌≤◌,
}

module _ {ℓ} {A : Type ℓ} where
  -- Overwriting an element of a list by `l` exchanges it for `l`.
  set-perm :
      (xs : List A) (i : ℕ) {x : A} (l : A)
      → get_elem? xs i ≡ some x
      → Perm (x ∷ set xs i l) (l ∷ xs)
  set-perm [] i l h = cc
  set-perm (y ∷ xs) zero {x} l h = let e : y ≡ x = cc in rw e (Perm.swap l x xs)
  set-perm (y ∷ xs) (suc i) {x} l h =
      Perm.trans (Perm.swap y x (set xs i l))
        (Perm.trans (Perm.cons y (set-perm xs i l h)) (Perm.swap l y xs))

  pub take-suc :
      (xs : List A) (k : ℕ) {l : A}
      → get_elem? xs k ≡ some l
      → take (suc k) xs ≡ take k xs ++ l ∷ []
  take-suc [] k h = cc
  take-suc (y ∷ xs) zero h = ground arith
  take-suc (y ∷ xs) (suc k) h = ap (◌∷◌ y) (take-suc xs k h)

  take-set : (xs : List A) (k i : ℕ) (l : A) → i < k → take k (set xs i l) ≡ set (take k xs) i l
  take-set [] (suc k) i l h = refl
  take-set xs zero i l h = absurd (omega arith)
  take-set (y ∷ xs) (suc k) zero l h = refl
  take-set (y ∷ xs) (suc k) (suc i) l h = ap (◌∷◌ y) (take-set xs k i l (omega arith))

  take-set_same : (xs : List A) (i : ℕ) (l : A) → take i (set xs i l) ≡ take i xs
  take-set_same [] i l = refl
  take-set_same (y ∷ xs) zero l = refl
  take-set_same (y ∷ xs) (suc i) l = ap (◌∷◌ y) (take-set_same xs i l)

  get_elem?-take : (xs : List A) (k i : ℕ) → i < k → get_elem? (take k xs) i ≡ get_elem? xs i
  get_elem?-take [] (suc k) i h = refl
  get_elem?-take xs zero i h = absurd (omega arith)
  get_elem?-take (y ∷ xs) (suc k) zero h = refl
  get_elem?-take (y ∷ xs) (suc k) (suc i) h = get_elem?-take xs k i (omega arith)

  pub get_elem?-in : (xs : List A) (i : ℕ) → i < length xs → (x : A) × (get_elem? xs i ≡ some x)
  get_elem?-in [] i h = absurd (omega arith)
  get_elem?-in (x ∷ xs) zero h = (x, refl)
  get_elem?-in (x ∷ xs) (suc i) h = get_elem?-in xs i (omega arith)

  -- Moving the last of the first `suc k` elements over the element at `i` removes that one.
  swap_remove-perm :
      (xs : List A) (k i : ℕ) {x l : A}
      → i < k
      → get_elem? xs i ≡ some x
      → get_elem? xs k ≡ some l
      → Perm (x ∷ take k (set xs i l)) (take (suc k) xs)
  swap_remove-perm xs k i {x} {l} h hx hl =
      rw (take-suc xs k hl, take-set xs k i l h)
        (Perm.trans (set-perm (take k xs) i l (get_elem?-take xs k i h ∙ hx))
          (perm_append_comm (l ∷ []) (take k xs)))

module _ {ℓ} {A : Type ℓ} where
  last-perm :
      (a : Array A) {c : Option A}
      → 0 < a.used_num
      → get_elem? a.cells (a.used_num - 1) ≡ some c
      → Perm (c ∷ take (a.used_num - 1) a.cells) (members a)
  last-perm a {c} h hc =
      let e : a.used_num ≡ suc (a.used_num - 1) = omega arith in
      rw (ap (λ k. take k a.cells) e ∙ take-suc a.cells (a.used_num - 1) hc)
        (perm_append_comm (c ∷ []) (take (a.used_num - 1) a.cells))

  moved-perm :
      (a : Array A) (n : ℕ) {c l : Option A}
      → n < a.used_num - 1
      → get_elem? a.cells n ≡ some c
      → get_elem? a.cells (a.used_num - 1) ≡ some l
      → Perm (c ∷ take (a.used_num - 1) (set a.cells n l)) (members a)
  moved-perm a n {c} {l} h hc hl =
      let e : a.used_num ≡ suc (a.used_num - 1) = omega arith in
      rw (ap (λ k. take k a.cells) e) (swap_remove-perm a.cells (a.used_num - 1) n h hc hl)

module _ {A : Type 0} (P : A → Type 0) where
  pub All-get :
      (xs : List A) (n i : ℕ) {x : A} → All P (take n xs) → i < n → get_elem? xs i ≡ some x → P x
  All-get [] n i h l e = absurd (cc)
  All-get (y ∷ xs) zero i h l e = absurd (omega arith)
  All-get (y ∷ xs) (suc n) zero {x} h l e = let same : y ≡ x = cc in subst P same h.0
  All-get (y ∷ xs) (suc n) (suc i) h l e = All-get xs n i h.1 (omega arith) e

  All-less : (xs : List A) (n k : ℕ) → k ≤ n → All P (take n xs) → All P (take k xs)
  All-less xs n zero l h = tt
  All-less [] n (suc k) l h = tt
  All-less (y ∷ xs) zero (suc k) l h = absurd (omega arith)
  All-less (y ∷ xs) (suc n) (suc k) l h = (h.0, All-less xs n k (omega arith) h.1)

  All-set : (xs : List A) (i : ℕ) (x : A) → All P xs → P x → All P (set xs i x)
  All-set [] i x h p = tt
  All-set (y ∷ xs) zero x h p = (p, h.1)
  All-set (y ∷ xs) (suc i) x h p = (h.0, All-set xs i x h.1 p)

  All-moved :
      (xs : List A) (n i : ℕ) (x : A)
      → i < n - 1
      → get_elem? xs (n - 1) ≡ some x
      → All P (take n xs)
      → All P (take (n - 1) (set xs i x))
  All-moved xs n i x l e h = rw (take-set xs (n - 1) i x l) (
      All-set (take (n - 1) xs) i x (All-less xs n (n - 1) (omega arith) h)
        (All-get xs n (n - 1) h (omega arith) e))

  pub All-snoc : (xs : List A) (x : A) → All P xs → P x → All P (xs ++ x ∷ [])
  All-snoc [] x h p = (p, tt)
  All-snoc (y ∷ xs) x h p = (h.0, All-snoc xs x h.1 p)

All-Unit : {A : Type 0} (xs : List A) → All (λ x. Unit {0}) xs
All-Unit [] = tt
All-Unit (x ∷ xs) = (tt, All-Unit xs)

module _ {A : Type 0} where
  -- Removing a member keeps what holds of all members.
  pub remove_item-keeps :
      (P : Option A → Type 0) {a : Array A} (n : ℕ) {c : Option A}
      → All P (members a)
      → IsValid a
      → n < a.used_num
      → get_elem? a.cells n ≡ some c
      → (a' : Array A) × (remove_item a n
          ≡ some (if n == a.used_num - 1 then negsuc 0 else signed32 n, a'))
        × IsValid a'
        × (a'.used_num ≡ a.used_num - 1)
        × (take n a'.cells ≡ take n a.cells)
        × All P (members a')
        × Perm (c ∷ members a') (members a)
  unfolding remove_item
  remove_item-keeps P {a} n {c} all v lt hc = elim (ℕ_discrete n (a.used_num - 1)) [
    | yes e ↦ (
      record a { used_num = a.used_num - 1 },
      ground arith,
      omega arith,
      refl,
      refl,
      All-less P a.cells a.used_num (a.used_num - 1) (omega arith) all,
      last-perm a (omega arith) (ap (get_elem? a.cells) (sym e) ∙ hc),
    )
    | no ne ↦
        let (l, hl) = get_elem?-in a.cells (a.used_num - 1) (omega (arith, v.within, v.block)) in
        (
          record a { cells = set a.cells n l; used_num = a.used_num - 1 },
          ground arith,
          omega (arith, length-set a.cells n l),
          refl,
          take-set_same a.cells n l,
          All-moved P a.cells a.used_num n l (omega arith) hl all,
          moved-perm a n (omega arith) hc hl,
        )
  ]

  -- Removing the member at `n` of a valid array finds all that it reads inside the block, returns
  -- `n`, or -1 for the last member, and leaves a valid array of the other members, those before `n`
  -- at their places and the others in some order.
  pub remove_item-perm :
      {a : Array A} (n : ℕ) {c : Option A}
      → IsValid a
      → n < a.used_num
      → get_elem? a.cells n ≡ some c
      → (a' : Array A) × (remove_item a n
          ≡ some (if n == a.used_num - 1 then negsuc 0 else signed32 n, a'))
        × IsValid a'
        × (a'.used_num ≡ a.used_num - 1)
        × (take n a'.cells ≡ take n a.cells)
        × Perm (c ∷ members a') (members a)
  remove_item-perm {a} n {c} v lt hc =
      let (a', run, valid, used, before, all, perm) =
        remove_item-keeps (λ x. Unit {0}) n (All-Unit (members a)) v lt hc in
      (a', run, valid, used, before, perm)
