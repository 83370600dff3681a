-- ===== src/Sockets/Closing/Unused.antt =====
-- What the loop closes, and what it leaves.
use mathlib.Core.List.{Perm}
use mathlib.Core.List.Perm
use pmf.Common.{
  All, Bool-cases, List, Option, [], ap, arith, eqb_ℤ, false, get_elem?, inl, inr, ltb, ltb→lt, map,
  pos, refl, some, subst, suc, sym, take, true, zero, ℕ, ℤ, ◌++◌, ◌+◌, ◌<◌, ◌∙◌, ◌∷◌, ◌≡◌, ◌≤◌,
}
use pmf.Array.{remove_item}
use pmf.Array.Valid.{IsValid, members}
use pmf.Array.Remove.{All-get, All-snoc, get_elem?-in, remove_item-keeps, take-suc}
use pmf.Sockets.Table.{ListeningSocket, Table}
use pmf.Sockets.Closing.{Closed, also_closed, close_loop, close_round, close_unused, finished}

-- A member that holds a socket, and one that is in use as well.
abbrev pub IsHeld : Option ListeningSocket → Type 0
IsHeld c = (ls : ListeningSocket) × (c ≡ some ls)

abbrev pub IsUsed : Option ListeningSocket → Type 0
IsUsed c = (ls : ListeningSocket) × (c ≡ some ls) × (eqb_ℤ ls.refcount (pos 0) ≡ false)

abbrev pub IsUnused : ListeningSocket → Type 0
IsUnused ls = eqb_ℤ ls.refcount (pos 0) ≡ true

-- What the loop promises from member `i` on.
Closes : Closed → Table → Type 0
Closes run t =
    (closed : List ListeningSocket) × (t' : Table) × (run ≡ finished closed t')
    × IsValid t'
    × All IsUnused closed
    × All IsUsed (members t')
    × Perm (map some closed ++ members t') (members t)

take-next :
    {A : Type 0} (xs : List A) (i : ℕ) {x : A}
    → get_elem? xs i ≡ some x
    → take (i + 1) xs ≡ take i xs ++ x ∷ []
take-next xs i {x} h =
    let e : i + 1 ≡ suc i = omega arith in ap (λ n. take n xs) e ∙ take-suc xs i h

close_round-again :
    (i : ℕ) (t t₁ : Table) (ls : ListeningSocket) (code : ℤ) (again next : Table → Closed)
    → IsUnused ls
    → get_elem? t.cells i ≡ some (some ls)
    → remove_item t i ≡ some (code, t₁)
    → Perm (some ls ∷ members t₁) (members t)
    → Closes (again t₁) t₁
    → Closes (close_round (get_elem? t.cells i) i t again next) t
unfolding Closes
close_round-again i t t₁ ls code again next unused e removed perm
      (closed, t', run, v, gone, used, p) =
    rw (e, unused, removed)
      (
        ls ∷ closed,
        t',
        ap (also_closed ls) run,
        v,
        (unused, gone),
        used,
        Perm.trans (Perm.cons (some ls) p) perm,
      )

close_round-next :
    (i : ℕ) (t : Table) (ls : ListeningSocket) (again next : Table → Closed)
    → eqb_ℤ ls.refcount (pos 0) ≡ false
    → get_elem? t.cells i ≡ some (some ls)
    → Closes (next t) t
    → Closes (close_round (get_elem? t.cells i) i t again next) t
close_round-next i t ls again next used e later = rw (e, used) later

close_loop-Closes :
    (fuel i : ℕ) (t : Table)
    → IsValid t
    → All IsHeld (members t)
    → All IsUsed (take i t.cells)
    → i ≤ t.used_num
    → t.used_num < i + fuel
    → Closes (close_loop fuel i t) t
unfolding close_loop Closes
close_loop-Closes zero i t v held used low high = absurd (omega arith)
close_loop-Closes (suc fuel) i t v held used low high = elim (Bool-cases (ltb i t.used_num)) [
  | inr e ↦
      let end : i ≡ t.used_num = ground arith in
      rw e ([], t, refl, v, tt, subst (λ n. All IsUsed (take n t.cells)) end used, Perm.refl _)
  | inl e ↦
      let lt : i < t.used_num = ltb→lt _ _ e in
      let (c, found) = get_elem?-in t.cells i (omega (arith, v.within, v.block)) in
      let (ls, is_held) = All-get IsHeld t.cells t.used_num i held lt found in
      let cell : get_elem? t.cells i ≡ some (some ls) = found ∙ ap some is_held in
      rw e (elim (Bool-cases (eqb_ℤ ls.refcount (pos 0))) [
        | inl unused ↦
            let (t₁, removed, v₁, less, before, held₁, perm) =
              remove_item-keeps IsHeld i held v lt cell in
            close_round-again i t t₁ ls _ _ _ unused cell removed perm (
              close_loop-Closes fuel i t₁ v₁ held₁ (subst (All IsUsed) (sym before) used)
                (omega arith) (omega arith))
        | inr in_use ↦ close_round-next i t ls _ _ in_use cell (
            close_loop-Closes fuel (i + 1) t v held
              (subst (All IsUsed) (sym (take-next t.cells i cell))
                (All-snoc IsUsed (take i t.cells) (some ls) used (ls, refl, in_use)))
              (omega arith) (omega arith))
      ])
]

-- After the sockets are set up the loop ends, reads no member that it must not read, closes exactly
-- the members with no reference, and leaves a valid table of the others. The table is valid before,
-- and every member of it holds a socket.
pub close_unused-closes :
    (t : Table)
    → IsValid t
    → All IsHeld (members t)
    → (closed : List ListeningSocket) × (t' : Table) × (close_unused t ≡ finished closed t')
      × IsValid t'
      × All IsUnused closed
      × All IsUsed (members t')
      × Perm (map some closed ++ members t') (members t)
unfolding close_unused Closes
close_unused-closes t v held =
    close_loop-Closes (t.used_num + 1) 0 t v held tt (omega arith) (omega arith)
