-- ===== src/Base/Text/Decimal.antt =====
-- Decimal numbers: what `String(n)` prints, `Number` reads back.
use Prim.Native.Nat.{ℕ, zero, suc, ◌+◌, ◌/◌, ◌%◌, ◌^◌, ◌≤◌, ◌<◌}
use mathlib.Core.Path.{◌≡◌, ◌∙◌, ap}
use mathlib.Core.Logic.{◌↔◌, inl, inr}
use mathlib.Core.Bool.{true, false}
use mathlib.Core.List.{[], ◌∷◌}
use native.Mathlib.Nat.{pow-suc}
use native.Mathlib.Omega.{arith}
use floppyguard.Base.Tests.{Bool-cases, ltb}
use floppyguard.Base.Lists.{length, All, All-map, all_iff}
use floppyguard.Base.Text.{
  Text, is_digit, is_space, is_number, number, number_from, decimal, decimal_from,
}
use floppyguard.Base.Text.Laws.{Free, NoSpace}

abbrev pub Digits : Text → Type 0
Digits s = All (λ c. is_digit c ≡ true) s

number_from-decimal_from :
    (fuel n : ℕ) (acc : Text)
    → n < fuel
    → number_from 0 (decimal_from fuel n acc) ≡ number_from n acc
unfolding number_from decimal_from
number_from-decimal_from zero n acc h = absurd (omega arith)
number_from-decimal_from (suc fuel) n acc h = elim (Bool-cases (ltb n 10)) [
  | inl e ↦ rw e (ap (λ m. number_from m acc) (omega arith))
  | inr e ↦ rw e (
      number_from-decimal_from fuel (n / 10) ((b'0' + n % 10) ∷ acc) (ground arith)
      ∙ ap (λ m. number_from m acc) (omega arith))
]

-- Every natural number is read back as it was printed.
pub number-decimal : (n : ℕ) → number (decimal n) ≡ n
unfolding decimal number_from
number-decimal n = number_from-decimal_from (suc n) n [] (omega arith)

Digits-decimal_from : (fuel n : ℕ) (acc : Text) → Digits acc → Digits (decimal_from fuel n acc)
unfolding decimal_from is_digit
Digits-decimal_from zero n acc h = h
Digits-decimal_from (suc fuel) n acc h = elim (Bool-cases (ltb n 10)) [
  | inl e ↦ rw e (ground arith, h)
  | inr e ↦ rw e (Digits-decimal_from fuel (n / 10) ((b'0' + n % 10) ∷ acc) (ground arith, h))
]

pub Digits-decimal : (n : ℕ) → Digits (decimal n)
unfolding decimal
Digits-decimal n = Digits-decimal_from (suc n) n [] tt

length-decimal_from :
    (k fuel n : ℕ) (acc : Text)
    → n < 10 ^ suc k
    → n < fuel
    → (length acc < length (decimal_from fuel n acc))
      × (length (decimal_from fuel n acc) ≤ length acc + suc k)
unfolding decimal_from
length-decimal_from k zero n acc h l = absurd (omega arith)
length-decimal_from zero (suc fuel) n acc h l = ground arith
length-decimal_from (suc k) (suc fuel) n acc h l = elim (Bool-cases (ltb n 10)) [
  | inl e ↦ rw e (omega arith)
  | inr e ↦ rw e (
      let small : n / 10 < 10 ^ suc k = omega (arith, pow-suc 10 (suc k)) in
      let bounds =
        length-decimal_from k fuel (n / 10) ((b'0' + n % 10) ∷ acc) small (ground arith) in
      (omega (arith, bounds.0), omega (arith, bounds.1)))
]

pub digit_bounds : (c : ℕ) → (is_digit c ≡ true) ↔ ((b'0' ≤ c) × (c ≤ b'9'))
unfolding is_digit
digit_bounds c = ground arith

-- A text of digits holds no separator and no white space.
pub Free-of_Digits : (c : ℕ) (s : Text) → is_digit c ≡ false → Digits s → Free c s
Free-of_Digits c s p h = All-map (λ x q e. ground arith) s h

pub NoSpace-of_Digits : (s : Text) → Digits s → NoSpace s
unfolding is_digit is_space
NoSpace-of_Digits s h = All-map (λ x q. ground arith) s h

-- A number of at most k + 1 digits prints as a text that `\d{1,k+1}` accepts.
pub is_number-decimal : (k n : ℕ) → n < 10 ^ suc k → is_number (suc k) (decimal n) ≡ true
unfolding is_number decimal
is_number-decimal k n h =
    let b = length-decimal_from k (suc n) n [] h (omega arith) in
    let d = (all_iff is_digit (decimal_from (suc n) n [])).1 (Digits-decimal n) in ground arith
