-- ===== src/Array/Valid.antt =====
-- The representation invariant of an array: which cells are in use.
use pmf.Common.{
  List, Option, [], ap, arith, get_elem?, length, none, refl, some, suc, take, u32_mod, u64_mod,
  zero, ℕ, ◌*◌, ◌<◌, ◌∷◌, ◌≡◌, ◌≤◌,
}
use pmf.Array.{Array, resize}

-- The largest number of members that this development speaks about fits in an `unsigned int`.
pub record IsValid {ℓ} {A : Type ℓ} (a : Array A) : Type 0 where
  pub sized : 0 < a.member_size
  pub within : a.used_num ≤ a.allocated_num
  pub block : length a.cells ≡ a.allocated_num
  pub fits : a.member_size * a.allocated_num < u64_mod
  pub few : a.allocated_num < u32_mod

-- The members in use, in order.
abbrev pub members {ℓ} : {A : Type ℓ} → Array A → List (Option A)
members a = take a.used_num a.cells

module _ {ℓ} {A : Type ℓ} where
  pub length-resize : (n : ℕ) (cells : List (Option A)) → length (resize n cells) ≡ n
  length-resize zero cells = refl
  length-resize (suc n) [] = ap suc (length-resize n [])
  length-resize (suc n) (c ∷ cells) = ap suc (length-resize n cells)

  pub take-resize :
      (k n : ℕ) (cells : List (Option A))
      → k ≤ n
      → k ≤ length cells
      → take k (resize n cells) ≡ take k cells
  take-resize zero n cells h l = refl
  take-resize (suc k) n [] h l = absurd (omega arith)
  take-resize (suc k) zero (c ∷ cells) h l = absurd (omega arith)
  take-resize (suc k) (suc n) (c ∷ cells) h l =
      ap (◌∷◌ c) (take-resize k n cells (omega arith) (omega arith))

  -- A cell that `realloc` adds is indeterminate.
  pub get_elem?-resize :
      (n k : ℕ) (cells : List (Option A))
      → length cells ≤ k
      → k < n
      → get_elem? (resize n cells) k ≡ some none
  get_elem?-resize zero k cells h l = absurd (omega arith)
  get_elem?-resize (suc n) zero [] h l = refl
  get_elem?-resize (suc n) (suc k) [] h l = get_elem?-resize n k [] (omega arith) (omega arith)
  get_elem?-resize (suc n) zero (c ∷ cells) h l = absurd (omega arith)
  get_elem?-resize (suc n) (suc k) (c ∷ cells) h l =
      get_elem?-resize n k cells (omega arith) (omega arith)
