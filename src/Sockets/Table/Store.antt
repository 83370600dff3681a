-- ===== src/Sockets/Table/Store.antt =====
-- PMF_STORE_SOCKET and PMF_STORE_USE_SOCKET.
use pmf.Common.{
  All, List, Option, [], ap, arith, get_elem?, get_elem?-set_self, inl, inr, length, length-set,
  negsuc, none, pos, refl, set, some, suc, sym, take, true, wrap_int, ℕ, ℤ, ◌++◌, ◌+ℤ◌, ◌<◌, ◌∙◌,
  ◌∷◌, ◌≡◌, ◌⊎◌,
}
use pmf.Text.Chars.{Text}
use pmf.Array.{push}
use pmf.Array.Valid.{IsValid, members}
use pmf.Array.Push.{HasRoom, push-IsValid, push-members, push-next, push-pointer}
use pmf.Sockets.Table.{
  ListeningSocket, Table, fill, get_use, get_use_socket, hash_op, search_key, store_socket,
  store_use, use_found, used_again,
}
use pmf.Sockets.Table.Lookup.{HasOther, IsBlank, search_key-at, search_key-blank}
use pmf.Array.Remove.{get_elem?-in, take-suc}

other_cell :
    {ls : ListeningSocket}
    → ◌≡◌ {A = Option (Option ListeningSocket)} (some (some ls)) (some none)
    → ⊥
other_cell h = cc

fill-some :
    (ls : ListeningSocket) (p : Option ℕ × Table) {i : ℕ}
    → p.0 ≡ some i
    → fill ls p ≡ (pos 0, record p.1 { cells = set p.1.cells i (some ls) })
fill-some ls (none, t) e = cc
fill-some ls (some j, t) {i} e =
    let same : j ≡ i = cc in ap (λ k. (pos 0, record t { cells = set t.cells k (some ls) })) same

fill-none : (ls : ListeningSocket) (p : Option ℕ × Table) → p.0 ≡ none → fill ls p ≡ (negsuc 0, p.1)
fill-none ls (none, t) e = refl
fill-none ls (some j, t) e = cc

first_cell :
    {A : Type 0} (cells : List A) (x : A) → 0 < length cells → take 1 (set cells 0 x) ≡ x ∷ []
first_cell [] x h = absurd (omega arith)
first_cell (c ∷ cells) x h = refl

abbrev stored_socket : ℤ → ℕ → Text → ListeningSocket
stored_socket sock type key = record { refcount = pos 1; sock = sock; type = type; key = some key }

module _ (sock : ℤ) (type : ℕ) (key : Text) where
  lookup_one :
      (t : Table)
      → members t ≡ some (stored_socket sock type key) ∷ []
      → hash_op true get_use sock type (some key) t
        ≡ some (
          sock,
          record t { cells = set t.cells 0 (some (used_again (stored_socket sock type key))) },
        )
  unfolding hash_op get_use_socket
  lookup_one t e =
      ap (λ cells. use_found t (search_key key cells)) e
      ∙ ap (use_found t) (search_key-at key [] [] (stored_socket sock type key) tt refl)

  -- On an empty table a store succeeds, and a lookup of the same key then gives back the socket
  -- that was stored and counts its second use.
  pub get_use-store_use :
      {t : Table}
      → IsValid t
      → HasRoom t
      → t.used_num ≡ 0
      → (t' : Table) × (t'' : Table) × (hash_op true store_use sock type (some key) t
          ≡ some (pos 0, t'))
        × (hash_op true get_use sock type (some key) t' ≡ some (sock, t''))
        × (t''.used_num ≡ 1)
        × (get_elem? t''.cells 0
            ≡ some (some (record { refcount = pos 2; sock = sock; type = type; key = some key })))
  get_use-store_use {t} v r empty = (
    t',
    record t' { cells = set t'.cells 0 (some (used_again (stored_socket sock type key))) },
    (unfold hash_op store_socket in
        ap some (fill-some (stored_socket sock type key) (push true t) pointer)),
    lookup_one t' one,
    used,
    get_elem?-set_self t'.cells 0 _
          (omega (arith, space, length-set t₁.cells 0 (some (stored_socket sock type key))))
        ∙ ap (λ n. some (some (record { refcount = n; sock = sock; type = type; key = some key })))
            twice,
  )
    where
      t₁ : Table
      t₁ = (push true t).1

      t' : Table
      t' = record t₁ { cells = set t₁.cells 0 (some (stored_socket sock type key)) }

      pointer : (push true t).0 ≡ some 0
      pointer = push-pointer v r ∙ ground arith

      used : t₁.used_num ≡ 1
      used = omega (arith, (push-members v r).0)

      space : 0 < length t₁.cells
      space = let v' = push-IsValid true v r in omega (arith, used, v'.within, v'.block)

      one : members t' ≡ some (stored_socket sock type key) ∷ []
      one =
          ap (λ n. take n t'.cells) used
          ∙ first_cell t₁.cells (some (stored_socket sock type key)) space

      twice : wrap_int (pos 1 +ℤ pos 1) ≡ pos 2
      twice = unfold wrap_int ◌+ℤ◌ in refl

  -- The next cell after the members holds no key, as calloc leaves it.
  abbrev pub NextBlank : Table → Type 0
  NextBlank t = (c : Option ListeningSocket) → get_elem? t.cells t.used_num ≡ some c → IsBlank c

  -- On a table that has a member, and whose next cell is as calloc left it, a store fails with
  -- memory at hand, and counts a member with no key: a later lookup of a key that no member has
  -- reads that key.
  pub store_use-breaks :
      {t : Table}
      → IsValid t
      → HasRoom t
      → 0 < t.used_num
      → NextBlank t
      → (other : Text) → All (HasOther other) (members t)
      → (t' : Table) × (hash_op true store_use sock type (some key) t ≡ some (negsuc 0, t'))
        × (hash_op true get_use sock type (some other) t' ≡ none)
  store_use-breaks {t} v r some_member blank other h = (
    t₁,
    (unfold hash_op store_socket in
        ap some (fill-none (stored_socket sock type key) (push true t) pointer)),
    (unfold hash_op get_use_socket in
        ap (λ cells. use_found t₁ (search_key other cells)) with_blank
        ∙ ap (use_found t₁) (search_key-blank other (members t) next.0 h next.1.1)),
  )
    where
      t₁ : Table
      t₁ = (push true t).1

      pointer : (push true t).0 ≡ none
      pointer = push-pointer v r ∙ ground arith

      counted : t₁.used_num ≡ suc t.used_num
      counted = omega (arith, (push-members v r).0)

      is_blank :
          (c : Option ListeningSocket)
          → get_elem? t₁.cells t.used_num ≡ some c
          → (get_elem? t₁.cells t.used_num ≡ get_elem? t.cells t.used_num)
            ⊎ (get_elem? t₁.cells t.used_num ≡ some none)
          → IsBlank c
      is_blank c found (inl same) = blank c (sym same ∙ found)
      is_blank none found (inr e) = tt
      is_blank (some ls) found (inr e) = absurd (other_cell (sym found ∙ e))

      next : (c : Option ListeningSocket) × ((get_elem? t₁.cells t.used_num ≡ some c) × IsBlank c)
      next =
          let v' = push-IsValid true v r in
          let (c, found) =
            get_elem?-in t₁.cells t.used_num (omega (arith, v'.within, v'.block, counted)) in
          (c, (found, is_blank c found (push-next v r)))

      with_blank : members t₁ ≡ members t ++ next.0 ∷ []
      with_blank =
          ap (λ n. take n t₁.cells) counted
          ∙ take-suc t₁.cells t.used_num next.1.0
          ∙ ap (λ cells. cells ++ next.0 ∷ []) (push-members v r).1
