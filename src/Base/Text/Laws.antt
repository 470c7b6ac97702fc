-- ===== src/Base/Text/Laws.antt =====
-- Laws of the string methods: equality, splitting at a separator, trimming.
use Prim.Native.Nat.{ℕ}
use mathlib.Core.Path.{◌≡◌, refl}
use mathlib.Core.Logic.{◌≢◌, ◌↔◌, inl, inr}
use mathlib.Core.Bool.{true, false}
use mathlib.Core.List.{List, [], ◌∷◌, ◌++◌, reverse, reverse-reverse}
use native.Mathlib.Omega.{arith}
use floppyguard.Base.Tests.{Bool-cases}
use floppyguard.Base.Lists.{All, In, any_find, any_of_In}
use floppyguard.Base.Text.{Text, text_eq, includes, split, is_space, trim_start, trim}

pub text_eq_iff : (s t : Text) → (text_eq s t ≡ true) ↔ (s ≡ t)
unfolding text_eq
text_eq_iff [] [] = ((λ _. refl), (λ _. refl))
text_eq_iff [] (b ∷ t) = ((λ h. cc), (λ h. cc))
text_eq_iff (a ∷ s) [] = ((λ h. cc), (λ h. cc))
text_eq_iff (a ∷ s) (b ∷ t) = ground (arith, text_eq_iff s t)

pub text_eq_refl : (s : Text) → text_eq s s ≡ true
text_eq_refl s = (text_eq_iff s s).1 refl

pub text_eq_ne : (s t : Text) → ¬ (s ≡ t) → text_eq s t ≡ false
text_eq_ne s t n = elim (Bool-cases (text_eq s t)) [
  | inl e ↦ absurd (n ((text_eq_iff s t).0 e))
  | inr e ↦ e
]

pub includes_iff : (texts : List Text) (t : Text) → (includes texts t ≡ true) ↔ In t texts
unfolding includes
includes_iff texts t = (
  (λ h. let (x, m, e) = any_find (text_eq t) texts h in rw ((text_eq_iff t x).0 e) m),
  (λ m. any_of_In (text_eq t) t texts m (text_eq_refl t)),
)

-- A text that does not hold the separator.
abbrev pub Free : ℕ → Text → Type 0
Free c s = All (λ x. x ≢ c) s

pub split-Free : (c : ℕ) (s : Text) → Free c s → split c s ≡ s ∷ []
unfolding split
split-Free c [] h = refl
split-Free c (x ∷ s) h = ground (arith, split-Free c s h.1)

-- Splitting after a part that is free of the separator gives that part first.
pub split-append : (c : ℕ) (s t : Text) → Free c s → split c (s ++ c ∷ t) ≡ s ∷ split c t
unfolding split
split-append c [] t h = ground arith
split-append c (x ∷ s) t h = ground (arith, split-append c s t h.1)

abbrev pub NoSpace : Text → Type 0
NoSpace s = All (λ c. is_space c ≡ false) s

trim_start_lem : (s : Text) → NoSpace s → trim_start s ≡ s
unfolding trim_start
trim_start_lem [] h = refl
trim_start_lem (c ∷ s) h = rw h.0

NoSpace-reverse : (s t : Text) → NoSpace s → NoSpace t → NoSpace (mathlib.Core.List.reverse_aux s t)
NoSpace-reverse [] t h k = k
NoSpace-reverse (c ∷ s) t h k = NoSpace-reverse s (c ∷ t) h.1 (h.0, k)

-- A text with no white space is not changed by `trim`.
pub trim_lem : (s : Text) → NoSpace s → trim s ≡ s
unfolding trim
trim_lem s h =
    rw (trim_start_lem s h, trim_start_lem (reverse s) (NoSpace-reverse s [] h tt))
      (reverse-reverse s)
