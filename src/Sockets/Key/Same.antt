-- ===== src/Sockets/Key/Same.antt =====
-- Which addresses have the same key.
use pmf.Common.{
  Bool-cases, List, Option, ap, arith, inl, inr, refl, some, sym, true, ℕ, ◌++◌, ◌<◌, ◌∙◌, ◌∷◌, ◌≡◌,
  ◌≢◌, ◌⊎◌,
}
use pmf.Text.Chars.{Text, str_eq, str_eq_iff}
use pmf.Text.Search.{split_last}
use pmf.Text.Number.{digits_value}
use pmf.Text.Decimal.{show_nat, show_nat_lem}
use pmf.Sockets.Address.{pmf_af_inet, pmf_af_unix}
use pmf.Sockets.Binding.Reading.{split_last-append}
use pmf.Sockets.Table.{ListeningSocket, at, next_index, search_key}
use pmf.Sockets.Key.{Ntop, SockAddr, in4, in6, key_of, ntohs, un}

-- An address as the system makes it: a port has 16 bits, and a path that the program listens on
-- begins with a slash.
pub data IsAddress : SockAddr → Type 0 where
  is_in4 : (a w : ℕ) → w < 65536 → IsAddress (in4 a w)
  is_in6 : (a w : ℕ) → w < 65536 → IsAddress (in6 a w)
  is_un : (path : Text) → IsAddress (un (b'/' ∷ path))

abbrev pub type_of : SockAddr → ℕ
type_of (un path) = pmf_af_unix
type_of sa = pmf_af_inet

-- What inet_ntop prints is printed for one address only, and begins with no slash.
pub record IsNtop (ntop : Ntop) : Type 0 where
  pub four-inj : (a b : ℕ) → ntop.four a ≡ ntop.four b → a ≡ b
  pub six-inj : (a b : ℕ) → ntop.six a ≡ ntop.six b → a ≡ b
  pub apart : (a b : ℕ) → ntop.four a ≢ ntop.six b
  pub four-start : (a : ℕ) (s t : Text) → ntop.four a ++ b':' ∷ s ≢ b'/' ∷ t
  pub six-start : (a : ℕ) (s t : Text) → ntop.six a ++ b':' ∷ s ≢ b'/' ∷ t

ntohs-inj : (v w : ℕ) → v < 65536 → w < 65536 → ntohs v ≡ ntohs w → v ≡ w
ntohs-inj v w small small' e = omega arith

pub show_nat-inj : (m n : ℕ) → show_nat m ≡ show_nat n → m ≡ n
show_nat-inj m n e = sym (show_nat_lem m).1 ∙ ap (digits_value 10 0) e ∙ (show_nat_lem n).1

print_in-inj :
    (s t : Text) (m n : ℕ) → s ++ b':' ∷ show_nat m ≡ t ++ b':' ∷ show_nat n → (s ≡ t) × (m ≡ n)
print_in-inj s t m n e =
    let parts =
      sym (split_last-append s (show_nat m) (show_nat_lem m).0)
      ∙ ap (split_last b':') e
      ∙ split_last-append t (show_nat n) (show_nat_lem n).0 in
    (cc, show_nat-inj m n (cc))

-- The key that the table has for an address.
abbrev pub own_key : Ntop → SockAddr → Option Text
own_key ntop sa = key_of ntop true (type_of sa) sa

module _ (ntop : Ntop) (is_ntop : IsNtop ntop) where
  same_key :
      {sa sb : SockAddr} (key : Text)
      → IsAddress sa
      → IsAddress sb
      → own_key ntop sa ≡ some key
      → own_key ntop sb ≡ some key
      → sa ≡ sb
  unfolding key_of
  same_key key (is_in4 a v small) (is_in4 b w small') h k =
      let (addr, port) = print_in-inj (ntop.four a) (ntop.four b) (ntohs v) (ntohs w) (cc) in
      let e = is_ntop.four-inj a b addr in let p = ntohs-inj v w small small' port in cc
  same_key key (is_in6 a v small) (is_in6 b w small') h k =
      let (addr, port) = print_in-inj (ntop.six a) (ntop.six b) (ntohs v) (ntohs w) (cc) in
      let e = is_ntop.six-inj a b addr in let p = ntohs-inj v w small small' port in cc
  same_key key (is_in4 a v small) (is_in6 b w small') h k =
      absurd
        (is_ntop.apart a b (print_in-inj (ntop.four a) (ntop.six b) (ntohs v) (ntohs w) (cc)).0)
  same_key key (is_in6 a v small) (is_in4 b w small') h k =
      absurd
        (is_ntop.apart b a (print_in-inj (ntop.four b) (ntop.six a) (ntohs w) (ntohs v) (cc)).0)
  same_key key (is_in4 a v small) (is_un path) h k =
      absurd (is_ntop.four-start a (show_nat (ntohs v)) path (cc))
  same_key key (is_in6 a v small) (is_un path) h k =
      absurd (is_ntop.six-start a (show_nat (ntohs v)) path (cc))
  same_key key (is_un path) (is_in4 b w small) h k =
      absurd (is_ntop.four-start b (show_nat (ntohs w)) path (cc))
  same_key key (is_un path) (is_in6 b w small) h k =
      absurd (is_ntop.six-start b (show_nat (ntohs w)) path (cc))
  same_key key (is_un path) (is_un path') h k = let e : b'/' ∷ path ≡ b'/' ∷ path' = cc in ap un e

  has_key : {sa : SockAddr} → IsAddress sa → (key : Text) × (own_key ntop sa ≡ some key)
  unfolding key_of
  has_key (is_in4 a w small) = (_, refl)
  has_key (is_in6 a w small) = (_, refl)
  has_key (is_un path) = (_, refl)

  -- Where inet_ntop prints each text for one address only, and none that begins with a slash, every
  -- address has a key, and the search of the table stops at a socket that was stored with the key
  -- of one address, when it looks for another's, exactly if the two are the same address; otherwise
  -- it goes on to the sockets after that one. A path begins with a slash, and a port has 16 bits.
  pub search_key-address :
      {sa sb : SockAddr} (ls : ListeningSocket) (cells : List (Option ListeningSocket))
      → IsAddress sa
      → IsAddress sb
      → ls.key ≡ own_key ntop sa
      → (key : Text) × (own_key ntop sb ≡ some key)
        × (((sa ≡ sb) × (search_key key (some ls ∷ cells) ≡ at 0 ls))
            ⊎ ((sa ≢ sb) × (search_key key (some ls ∷ cells) ≡ next_index (search_key key cells))))
  unfolding search_key
  search_key-address {sa} {sb} ls cells is_sa is_sb stored =
      let (key, e) = has_key is_sb in
      let (old, k) = has_key is_sa in
      let here : ls.key ≡ some old = stored ∙ k in
      (
        key,
        e,
        elim (Bool-cases (str_eq old key)) [
          | inl y ↦
              let same : old ≡ key = (str_eq_iff old key).0 y in
              inl (same_key key is_sa is_sb (k ∙ ap some same) e, rw (here, y) refl)
          | inr n ↦ inr (
            λ s.
                let keys : own_key ntop sa ≡ own_key ntop sb = ap (own_key ntop) s in
                let again : old ≡ key = cc in let yes' = (str_eq_iff old key).1 again in cc,
            rw (here, n) refl,
          )
        ],
      )
