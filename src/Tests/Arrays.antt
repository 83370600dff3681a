-- ===== src/Tests/Arrays.antt =====
-- An array of three cells with two members.
use mathlib.Core.List.{Perm}
use pmf.Common.{[], arith, false, none, refl, signed32, some, take, true, ℕ, ◌∷◌, ◌≡◌}
use pmf.Array.{Array, init, push, remove_item}
use pmf.Array.Valid.{IsValid, members}
use pmf.Array.Push.{HasRoom, push-IsValid, push-counted, push-members}
use pmf.Array.Remove.{remove_item-perm}

abbrev two : Array ℕ
two = record {
  cells = some 5 ∷ some 6 ∷ some 0 ∷ [];
  member_size = 32;
  used_num = 2;
  allocated_num = 3;
}

two-IsValid : IsValid two
two-IsValid = record {
  sized = omega arith;
  within = omega arith;
  block = refl;
  fits = omega arith;
  few = omega arith;
}

two-HasRoom : HasRoom two
two-HasRoom = record { counted = omega arith; bytes = omega arith }

push-IsValid_test : IsValid (push true two).1
push-IsValid_test = push-IsValid true two-IsValid two-HasRoom

push-members_test :
    ((push true two).1.used_num ≡ 3) × (take 2 (push true two).1.cells ≡ some 5 ∷ some 6 ∷ [])
push-members_test = push-members two-IsValid two-HasRoom

push-counted_example :
    ((push true two).0 ≡ none)
    × ((push true two).1.used_num ≡ 3)
    × (take 2 (push true two).1.cells ≡ some 5 ∷ some 6 ∷ [])
    × IsValid (push true two).1
push-counted_example = push-counted two-IsValid two-HasRoom

remove_item-perm_example :
    (a' : Array ℕ) × (remove_item two 0 ≡ some (signed32 0, a'))
    × IsValid a'
    × (a'.used_num ≡ 1)
    × (take 0 a'.cells ≡ [])
    × Perm (some 5 ∷ members a') (some 5 ∷ some 6 ∷ [])
remove_item-perm_example = remove_item-perm 0 two-IsValid (omega arith) refl

init_test :
    (init {A = ℕ} 0 none true true 32 2 ≡ (
      true,
      some (record {
        cells = some 0 ∷ some 0 ∷ [];
        member_size = 32;
        used_num = 0;
        allocated_num = 2;
      }),
    ))
    × (init {A = ℕ} 0 none true false 32 2 ≡ (false, none))
unfolding init
init_test = (refl, refl)
