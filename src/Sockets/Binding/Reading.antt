-- ===== src/Sockets/Binding/Reading.antt =====
-- How a listen address is read.
use pmf.Common.{
  [], ap, arith, eqb_ℤ, false, int_max, none, pos, refl, some, true, ℕ, ◌++◌, ◌<◌, ◌∙◌, ◌∷◌, ◌≡◌,
  ◌≤◌,
}
use pmf.Text.Chars.{Text}
use pmf.Text.Search.{all_digits, split_last}
use pmf.Text.Number.{atoi}
use pmf.Text.Decimal.{show_nat, show_nat_lem}
use pmf.Conf.Values.Times.{atoi-show_nat, split_suffix-snoc}
use pmf.Sockets.Binding.{any_address, host, strip_brackets, target, unbracketed}

split_last-digits : (s : Text) → all_digits s ≡ true → split_last b':' s ≡ none
unfolding split_last all_digits
split_last-digits [] h = refl
split_last-digits (c ∷ s) h = rw (split_last-digits s (ground arith), split_last) (ground arith)

pub split_last-append :
    (h s : Text) → all_digits s ≡ true → split_last b':' (h ++ b':' ∷ s) ≡ some (h, s)
unfolding split_last
split_last-append [] s d = rw (split_last-digits s d)
split_last-append (c ∷ h) s d = rw (split_last-append h s d, split_last)

atoi-port : (p : ℕ) → 0 < p → p ≤ int_max → eqb_ℤ (atoi (show_nat p)) (pos 0) ≡ false
atoi-port p low high = ap (λ a. eqb_ℤ a (pos 0)) (atoi-show_nat p high) ∙ ground arith

target-host :
    (h : Text) (p : ℕ)
    → 0 < p
    → p ≤ int_max
    → target (h ++ b':' ∷ show_nat p) ≡ host (strip_brackets h) (show_nat p)
unfolding target
target-host h p low high =
    rw (split_last-append h (show_nat p) (show_nat_lem p).0, atoi-port p low high) refl

strip_brackets-bracketed : (h : Text) → strip_brackets (b'[' ∷ h ++ b']' ∷ []) ≡ h
unfolding strip_brackets
strip_brackets-bracketed h =
    ap (unbracketed b'[' (h ++ b']' ∷ [])) (split_suffix-snoc (b'[' ∷ h) b']')

-- An address that is a host, a colon and a port is read as that host, without the brackets around
-- it, and that port; a port alone is read as that port on any address. The port is not 0 and fits
-- in an `int`.
pub target-show_nat :
    (h : Text) (p : ℕ)
    → 0 < p
    → p ≤ int_max
    → (target (h ++ b':' ∷ show_nat p) ≡ host (strip_brackets h) (show_nat p))
      × (target ((b'[' ∷ h ++ b']' ∷ []) ++ b':' ∷ show_nat p) ≡ host h (show_nat p))
      × (target (show_nat p) ≡ any_address (show_nat p))
unfolding target
target-show_nat h p low high = (
  target-host h p low high,
  target-host (b'[' ∷ h ++ b']' ∷ []) p low high
      ∙ ap (λ a. host a (show_nat p)) (strip_brackets-bracketed h),
  rw (split_last-digits (show_nat p) (show_nat_lem p).0, (show_nat_lem p).0, atoi-port p low high)
      refl,
)
