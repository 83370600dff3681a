-- ===== src/Array/Push.antt =====
-- pmf_array_push: the block grows, and the caller gets a pointer only for the first member.
use native.Mathlib.Nat.{mod-eq_of_lt, mul-div_cancel_left}
use pmf.Common.{
  Bool, Bool-cases, ap, arith, get_elem?, if◌then◌else◌, inl, inr, length, none, some, take, true,
  u32_mod, u64_mod, ℕ, ◌*◌, ◌+◌, ◌/◌, ◌<◌, ◌==◌, ◌∙◌, ◌≡◌, ◌≤◌, ◌⊎◌,
}
use pmf.Array.{Array, grow, new_allocated_num, push, resize}
use pmf.Array.Valid.{IsValid, get_elem?-resize, length-resize, members, take-resize}

-- What the block may grow to: the next size is still counted by an `unsigned int`, in bytes by a
-- `size_t`.
pub record HasRoom {ℓ} {A : Type ℓ} (a : Array A) : Type 0 where
  pub counted : a.allocated_num * 2 + 20 < u32_mod
  pub bytes : a.member_size * (a.allocated_num * 2 + 20) < u64_mod

mul_mono : (k m n : ℕ) → m ≤ n → k * m ≤ k * n
mul_mono k m n h = grind arith

module _ {ℓ} {A : Type ℓ} where
  new_allocated_num_bounds :
      (a : Array A)
      → HasRoom a
      → (a.allocated_num < new_allocated_num a)
        × (new_allocated_num a ≤ a.allocated_num * 2 + 20)
        × (a.member_size * new_allocated_num a < u64_mod)
  new_allocated_num_bounds a r = (
    ground arith,
    ground arith,
    omega (
      arith,
      mul_mono a.member_size (new_allocated_num a) (a.allocated_num * 2 + 20) (ground arith),
    ),
  )

  grow-cells :
      {a : Array A} → IsValid a → HasRoom a → (grow a).cells ≡ resize (new_allocated_num a) a.cells
  grow-cells {a} v r =
      let (_, _, small) = new_allocated_num_bounds a r in
      ap (λ n. resize n a.cells)
        (ap (λ n. n / a.member_size) (mod-eq_of_lt small)
          ∙ mul-div_cancel_left (new_allocated_num a) v.sized)

  grow-IsValid : {a : Array A} → IsValid a → HasRoom a → IsValid (grow a)
  grow-IsValid {a} v r =
      let (more, most, small) = new_allocated_num_bounds a r in
      record {
        sized = v.sized;
        within = omega arith;
        block = ap length (grow-cells v r) ∙ length-resize (new_allocated_num a) a.cells;
        fits = small;
        few = omega arith;
      }

  -- A push that succeeds or fails keeps the array valid.
  pub push-IsValid :
      (realloc_ok : Bool) {a : Array A} → IsValid a → HasRoom a → IsValid (push realloc_ok a).1
  unfolding push
  push-IsValid realloc_ok {a} v r = ground (arith, grow-IsValid v r, new_allocated_num_bounds a r)

  -- A push that finds memory raises the number of members by one and keeps those that were there.
  pub push-members :
      {a : Array A}
      → IsValid a
      → HasRoom a
      → let a' = (push true a).1 in
        (a'.used_num ≡ a.used_num + 1) × (take a.used_num a'.cells ≡ members a)
  unfolding push
  push-members {a} v r = ground (
    arith,
    grow-cells v r,
    new_allocated_num_bounds a r,
    take-resize a.used_num (new_allocated_num a) a.cells,
  )

  pub push-pointer :
      {a : Array A}
      → IsValid a
      → HasRoom a
      → (push true a).0 ≡ (if a.used_num == 0 then some 0 else none)
  unfolding push
  push-pointer {a} v r = ground arith

  -- A push that finds memory counts one member more and keeps those that were there, and the array
  -- stays valid; but it returns a pointer only for the first member of an empty array, and NULL for
  -- any later one.
  pub push-counted :
      {a : Array A}
      → IsValid a
      → HasRoom a
      → let (pointer, a') = push true a in
        (pointer ≡ (if a.used_num == 0 then some 0 else none))
        × (a'.used_num ≡ a.used_num + 1)
        × (take a.used_num a'.cells ≡ members a)
        × IsValid a'
  push-counted v r =
      let (counted, kept) = push-members v r in
      (push-pointer v r, counted, kept, push-IsValid true v r)

  -- The member that a push counts is the next cell as it was, or one that realloc has added.
  pub push-next :
      {a : Array A}
      → IsValid a
      → HasRoom a
      → (get_elem? (push true a).1.cells a.used_num ≡ get_elem? a.cells a.used_num)
        ⊎ (get_elem? (push true a).1.cells a.used_num ≡ some none)
  unfolding push
  push-next {a} v r = elim (Bool-cases (a.used_num == a.allocated_num)) [
    | inr e ↦ inl (ground arith)
    | inl e ↦ inr (
        rw e (
          ap (λ cells. get_elem? cells a.used_num) (grow-cells v r)
          ∙ get_elem?-resize (new_allocated_num a) a.used_num a.cells (ground arith)
              (ground (arith, new_allocated_num_bounds a r))))
  ]
