-- ===== src/Sockets/Table/Lookup.antt =====
-- PMF_GET_USE_SOCKET: what the search finds.
use pmf.Common.{
  All, List, Option, [], ap, arith, false, if◌then◌else◌, length, none, refl, some, ◌++◌, ◌∙◌, ◌∷◌,
  ◌≡◌,
}
use pmf.Text.Chars.{Text, str_eq, str_eq_iff}
use pmf.Sockets.Table.{ListeningSocket, absent, at, bad_key, match_key, next_index, search_key}

-- A member with a key other than this one.
abbrev pub HasOther : Text → Option ListeningSocket → Type 0
HasOther key c =
    (ls : ListeningSocket) × (k : Text) × (c ≡ some ls) × (ls.key ≡ some k) × (str_eq k key ≡ false)

-- A member whose key must not be read: indeterminate, or NULL.
abbrev pub IsBlank : Option ListeningSocket → Type 0
IsBlank none = Unit
IsBlank (some ls) = ls.key ≡ none

-- The search goes past members with other keys, one after the other.
search_key-other :
    (key : Text) (c : Option ListeningSocket) (cells : List (Option ListeningSocket))
    → HasOther key c
    → search_key key (c ∷ cells) ≡ next_index (search_key key cells)
unfolding search_key
search_key-other key c cells (ls, k, e, f, n) =
    ap (λ d. search_key key (d ∷ cells)) e
    ∙ ap (λ o. match_key o key ls (next_index (search_key key cells))) f
    ∙ rw n

pub search_key-absent :
    (key : Text) (cells : List (Option ListeningSocket))
    → All (HasOther key) cells
    → search_key key cells ≡ absent
search_key-absent key [] h = unfold search_key in refl
search_key-absent key (c ∷ cells) h =
    search_key-other key c cells h.0 ∙ ap next_index (search_key-absent key cells h.1)

pub search_key-at :
    (key : Text) (before after : List (Option ListeningSocket)) (ls : ListeningSocket)
    → All (HasOther key) before
    → ls.key ≡ some key
    → search_key key (before ++ some ls ∷ after) ≡ at (length before) ls
unfolding search_key
search_key-at key [] after ls h e =
    ap (λ o. match_key o key ls (next_index (search_key key after))) e
    ∙ ap (λ b. if b then at 0 ls else next_index (search_key key after))
        ((str_eq_iff key key).1 refl)
search_key-at key (c ∷ before) after ls h e =
    search_key-other key c (before ++ some ls ∷ after) h.0
    ∙ ap next_index (search_key-at key before after ls h.1 e)
    ∙ ap (λ i. at i ls) (omega arith)

pub search_key-blank :
    (key : Text) (before : List (Option ListeningSocket)) (c : Option ListeningSocket)
    → All (HasOther key) before
    → IsBlank c
    → search_key key (before ++ c ∷ []) ≡ bad_key
unfolding search_key
search_key-blank key [] none h b = refl
search_key-blank key [] (some ls) h b = ap (λ o. match_key o key ls absent) b
search_key-blank key (d ∷ before) c h b =
    search_key-other key d (before ++ c ∷ []) h.0
    ∙ ap next_index (search_key-blank key before c h.1 b)
