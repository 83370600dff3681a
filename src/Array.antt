-- ===== src/Array.antt =====
-- pmf_array.h: an array of variable length. `cells` is the block behind `data`, a cell for each
-- member that was allocated (NULL is the empty block); a cell is `none` while its content is
-- indeterminate. A pointer to the member at `data + member_size * n` is `some n`, and NULL is
-- `none`. Whether malloc, calloc and realloc find memory is an argument.
pub mod Valid
pub mod Push
pub mod Remove
use pmf.Common.{
  Bool, List, Option, [], false, get_elem?, if◌then◌else◌, length, ltb, negsuc, none, replicate,
  set, signed32, some, suc, true, u32_mod, u64_mod, zero, ℕ, ℤ, ◌%◌, ◌*◌, ◌+◌, ◌-◌, ◌/◌, ◌==◌, ◌∷◌,
}

pub record Array {ℓ} (A : Type ℓ) : Type ℓ where
  pub cells : List (Option A)
  pub member_size : ℕ
  pub used_num : ℕ
  pub allocated_num : ℕ

-- `size_t` subtraction wraps.
abbrev pub sub_size : ℕ → ℕ → ℕ
sub_size a b = (a + u64_mod - b % u64_mod) % u64_mod

module _ {ℓ} {A : Type ℓ} where
  -- The second branch of each pair is the state of the struct, if there is one after the call.
  unfoldable pub init :
      (zeroed : A) (array : Option (Array A)) (malloc_ok calloc_ok : Bool)
      (member_size initial_num : ℕ)
      → Bool × Option (Array A)
  init zeroed none false calloc_ok size num = (false, none)
  init zeroed none true calloc_ok size num =
      if calloc_ok
      then (
        true,
        some (record {
          cells = replicate num (some zeroed);
          member_size = size;
          used_num = 0;
          allocated_num = num;
        }),
      )
      else (false, none)
  init zeroed (some a) malloc_ok calloc_ok size num =
      if calloc_ok
      then (
        true,
        some (record {
          cells = replicate num (some zeroed);
          member_size = size;
          used_num = 0;
          allocated_num = num;
        }),
      )
      else (false, some (record a { cells = []; member_size = size }))

  unfoldable pub item : Array A → ℕ → Option ℕ
  item a n = if ltb (sub_size a.used_num 1) n then none else some n

  -- The argument is converted to `unsigned int`.
  unfoldable pub item_last : Array A → Option ℕ
  unfolding item
  item_last a = item a (sub_size a.used_num 1 % u32_mod)

  -- `memcpy` of one member; `none` is an access through NULL or out of the block.
  unfoldable pub copy_member : List (Option A) → Option ℕ → Option ℕ → Option (List (Option A))
  copy_member cells none from = none
  copy_member cells (some to) none = none
  copy_member cells (some to) (some from) =
      if ltb to (length cells)
      then elim (get_elem? cells from) [ none ↦ none | some member ↦ some (set cells to member) ]
      else none

  drop_last : Array A → Array A
  drop_last a = record a { used_num = sub_size a.used_num 1 }

  unfoldable pub remove_item : Array A → ℕ → Option (ℤ × Array A)
  unfolding item item_last copy_member drop_last
  remove_item a n =
      if ltb (sub_size a.used_num 1) n
      then some (negsuc 0, a)
      else if ltb n (sub_size a.used_num 1)
      then elim (copy_member a.cells (item a n) (item_last a)) [
        | none ↦ none
        | some cells' ↦ some (signed32 n, drop_last (record a { cells = cells' }))
      ]
      else some (negsuc 0, drop_last a)

  -- `realloc` keeps what fits, and what it adds is indeterminate.
  abbrev pub resize : ℕ → List (Option A) → List (Option A)
  resize zero cells = []
  resize (suc n) [] = none ∷ resize n []
  resize (suc n) (c ∷ cells) = c ∷ resize n cells

  abbrev pub new_allocated_num : Array A → ℕ
  new_allocated_num a = if a.allocated_num == 0 then 20 else a.allocated_num * 2 % u64_mod

  -- The members that fit in the block of `member_size * new_allocated_num` bytes.
  abbrev pub grow : Array A → Array A
  grow a = record a {
    cells = resize (a.member_size * new_allocated_num a % u64_mod / a.member_size) a.cells;
    allocated_num = new_allocated_num a;
  }

  -- The pointer is computed before `used_num` is raised.
  unfoldable pub take_next : Array A → Option ℕ × Array A
  unfolding item
  take_next a = (item a (a.used_num % u32_mod), record a { used_num = (a.used_num + 1) % u64_mod })

  unfoldable pub push : Bool → Array A → Option ℕ × Array A
  unfolding take_next
  push realloc_ok a =
      if a.used_num == a.allocated_num
      then if realloc_ok then take_next (grow a) else (none, a)
      else take_next a

  unfoldable pub free : Array A → Array A
  free a = record { cells = []; member_size = 0; used_num = 0; allocated_num = 0 }
