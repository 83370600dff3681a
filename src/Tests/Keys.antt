-- ===== src/Tests/Keys.antt =====
-- The keys of two addresses, with a printing of addresses as numbers.
use pmf.Common.{[], arith, pos, refl, some, true, ℕ, ◌++◌, ◌∷◌, ◌≡◌, ◌≢◌, ◌⊎◌}
use pmf.Text.Chars.{Text}
use pmf.Text.Decimal.{show_nat}
use pmf.Sockets.Address.{pmf_af_inet}
use pmf.Sockets.Table.{ListeningSocket, at, next_index, search_key}
use pmf.Sockets.Key.{Ntop, SockAddr, in4, key_of}
use pmf.Sockets.Key.Same.{IsNtop, is_in4, own_key, search_key-address, show_nat-inj}

abbrev numbers : Ntop
numbers = record { four = λ a. b'4' ∷ show_nat a; six = λ a. b'6' ∷ show_nat a }

tail_eq : (c : ℕ) (s t : Text) → c ∷ s ≡ c ∷ t → s ≡ t
tail_eq c s t e = cc

heads_differ : (c d : ℕ) (s t : Text) → c ≢ d → c ∷ s ≢ d ∷ t
heads_differ c d s t ne e = let k : c ≡ d = cc in ne k

numbers-IsNtop : IsNtop numbers
numbers-IsNtop = record {
  four-inj = λ a b e. show_nat-inj a b (tail_eq b'4' (show_nat a) (show_nat b) e);
  six-inj = λ a b e. show_nat-inj a b (tail_eq b'6' (show_nat a) (show_nat b) e);
  apart = λ a b. heads_differ b'4' b'6' (show_nat a) (show_nat b) (λ e. omega arith);
  four-start = λ a s t. heads_differ b'4' b'/' (show_nat a ++ b':' ∷ s) t (λ e. omega arith);
  six-start = λ a s t. heads_differ b'6' b'/' (show_nat a ++ b':' ∷ s) t (λ e. omega arith);
}

-- Ports 80 and 81 of one address, as they lie in memory.
abbrev port_80 : SockAddr
port_80 = in4 0x0100_007f 0x5000

abbrev port_81 : SockAddr
port_81 = in4 0x0100_007f 0x5100

abbrev member : ListeningSocket
member = record {
  refcount = pos 1;
  sock = pos 6;
  type = pmf_af_inet;
  key = key_of numbers true pmf_af_inet port_80;
}

search_key-address_example :
    (key : Text) × (own_key numbers port_81 ≡ some key)
    × (((port_80 ≡ port_81) × (search_key key (some member ∷ []) ≡ at 0 member))
        ⊎ ((port_80 ≢ port_81)
            × (search_key key (some member ∷ []) ≡ next_index (search_key key []))))
search_key-address_example =
    search_key-address numbers numbers-IsNtop member [] (is_in4 0x0100_007f 0x5000 (omega arith))
      (is_in4 0x0100_007f 0x5100 (omega arith)) refl
