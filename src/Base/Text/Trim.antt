-- ===== src/Base/Text/Trim.antt =====
-- Trimming and the lines of a text.
use Prim.Native.Nat.{ℕ}
use mathlib.Core.Path.{◌≡◌, refl, sym, ◌∙◌, ap, subst}
use mathlib.Core.Logic.{◌≢◌, ◌⊎◌, inl, inr}
use mathlib.Core.Bool.{true, false}
use mathlib.Core.List.{List, [], ◌∷◌, ◌++◌, reverse, reverse-reverse, reverse-append, reverse-cons}
use native.Mathlib.Omega.{arith}
use floppyguard.Base.Tests.{Bool-cases, ◌==◌}
use floppyguard.Base.Lists.{All, All-map}
use floppyguard.Base.Text.{Text, onto_head, split, join, is_space, trim_start, trim}
use floppyguard.Base.Text.Laws.{Free, NoSpace, split-Free, split-append}

abbrev pub trim_end : Text → Text
trim_end s = reverse (trim_start (reverse s))

-- A text ends in a character that is no white space.
abbrev pub EndsBlack : Text → Type 0
EndsBlack s = (u : Text) × (d : ℕ) × (s ≡ u ++ d ∷ []) × (is_space d ≡ false)

abbrev pub StartsBlack : Text → Type 0
StartsBlack s = (c : ℕ) × (u : Text) × (s ≡ c ∷ u) × (is_space c ≡ false)

trim_start-StartsBlack : (s : Text) → StartsBlack s → trim_start s ≡ s
unfolding trim_start
trim_start-StartsBlack s (c, u, e, b) = rw e (rw b refl)

trim_end-EndsBlack : (s : Text) → EndsBlack s → trim_end s ≡ s
trim_end-EndsBlack s (u, d, e, b) = rw e (
    ap (λ (r : Text). reverse (trim_start r)) (reverse-append u (d ∷ []))
    ∙ ap reverse (trim_start-StartsBlack (d ∷ reverse u) (d, reverse u, refl, b))
    ∙ reverse-cons d (reverse u)
    ∙ ap (λ (r : Text). r ++ d ∷ []) (reverse-reverse u))

pub trim-Black : (s : Text) → StartsBlack s → EndsBlack s → trim s ≡ s
unfolding trim
trim-Black s a b = rw (trim_start-StartsBlack s a) (trim_end-EndsBlack s b)

-- White space behind a text is dropped.
trim_end-space : (s : Text) (d : ℕ) → is_space d ≡ true → trim_end (s ++ d ∷ []) ≡ trim_end s
unfolding trim_start
trim_end-space s d b =
    ap (λ (r : Text). reverse (trim_start r)) (reverse-append s (d ∷ []))
    ∙ ap reverse (skip (reverse s))
  where
    skip : (r : Text) → trim_start (d ∷ r) ≡ trim_start r
    skip r = rw b refl

trim_start-append :
    (s : Text) (d : ℕ)
    → is_space d ≡ true
    → (trim_start (s ++ d ∷ []) ≡ trim_start s ++ d ∷ [])
      ⊎ ((trim_start (s ++ d ∷ []) ≡ []) × (trim_start s ≡ []))
unfolding trim_start
trim_start-append [] d b = inr (rw b refl, refl)
trim_start-append (c ∷ s) d b = elim (Bool-cases (is_space c)) [
  | inl e ↦ rw e (trim_start-append s d b)
  | inr e ↦ inl (rw e refl)
]

pub trim-space : (s : Text) (d : ℕ) → is_space d ≡ true → trim (s ++ d ∷ []) ≡ trim s
unfolding trim
trim-space s d b = elim (trim_start-append s d b) [
  | inl e ↦ rw e (trim_end-space (trim_start s) d b)
  | inr (e, f) ↦ rw (e, f) refl
]

-- White space in front of a text is dropped.
pub trim-cons : (d : ℕ) (s : Text) → is_space d ≡ true → trim (d ∷ s) ≡ trim s
unfolding trim trim_start
trim-cons d s b = rw b refl

-- A text that starts with a character that is no white space keeps this character.
pub trim_head : (c : ℕ) (s : Text) → is_space c ≡ false → trim (c ∷ s) ≡ c ∷ trim_end s
unfolding trim trim_start
trim_head c s b =
    ap trim_end (trim_start-StartsBlack (c ∷ s) (c, s, refl, b))
    ∙ ap (λ (r : Text). reverse (trim_start r)) (reverse-cons c s)
    ∙ behind (reverse s)
  where
    behind : (r : Text) → reverse (trim_start (r ++ c ∷ [])) ≡ c ∷ reverse (trim_start r)
    behind [] = rw b refl
    behind (x ∷ r) = elim (Bool-cases (is_space x)) [
      | inl e ↦ rw e (behind r)
      | inr e ↦ rw e (reverse-append (x ∷ r) (c ∷ []))
    ]

-- A text without white space is one line.
pub Free-NoSpace : (s : Text) → NoSpace s → Free 10 s
unfolding is_space
Free-NoSpace s h = All-map (λ c e. ground arith) s h

-- Lines without a line end are found again behind `join`.
pub split-join :
    (c : ℕ) (l : Text) (ls : List Text)
    → All (Free c) (l ∷ ls)
    → split c (join (c ∷ []) (l ∷ ls)) ≡ l ∷ ls
unfolding join
split-join c l [] h = split-Free c l h.0
split-join c l (m ∷ ls) h =
    split-append c l (join (c ∷ []) (m ∷ ls)) h.0
    ∙ ap (λ (r : List Text). l ∷ r) (split-join c m ls h.1)

-- No part of a split text holds the separator.
pub Free-split : (c : ℕ) (s : Text) → All (Free c) (split c s)
unfolding split
Free-split c [] = (tt, tt)
Free-split c (x ∷ s) = elim (Bool-cases (x == c)) [
  | inl e ↦ rw e (tt, Free-split c s)
  | inr e ↦ rw e (onto (split c s) (Free-split c s) (ground arith))
]
  where
    onto : (ws : List Text) → All (Free c) ws → x ≢ c → All (Free c) (onto_head x ws)
    onto [] h n = ((n, tt), tt)
    onto (w ∷ ws) h n = ((n, h.0), h.1)

from_onto :
    (P : ℕ → Type 0) (x : ℕ) (ws : List Text) → All (All P) (onto_head x ws) → P x × All (All P) ws
from_onto P x [] h = (h.0.0, tt)
from_onto P x (w ∷ ws) h = (h.0.0, (h.0.1, h.1))

-- What holds of the separator and of all parts holds of the text.
pub All-of_split : (P : ℕ → Type 0) (c : ℕ) (s : Text) → P c → All (All P) (split c s) → All P s
unfolding split
All-of_split P c [] pc h = tt
All-of_split P c (x ∷ s) pc h = elim (Bool-cases (x == c)) [
  | inl e ↦ (subst P (sym (equal x c e)) pc, All-of_split P c s pc (rw e at h).1)
  | inr e ↦
      let (px, rest) = from_onto P x (split c s) (rw e at h) in (px, All-of_split P c s pc rest)
]
  where
    equal : (m n : ℕ) → (m == n) ≡ true → m ≡ n
    equal m n e = ground arith

-- What holds of a text holds of its parts.
pub All-of_append : (P : ℕ → Type 0) (a b : Text) → All P (a ++ b) → All P a × All P b
All-of_append P [] b h = (tt, h)
All-of_append P (x ∷ a) b h = let (p, q) = All-of_append P a b h.1 in ((h.0, p), q)
