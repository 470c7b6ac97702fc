-- ===== src/WireGuard/Renames/Moves.antt =====
-- What steps that rename do to one name, and to the rows of the agents.
use floppyguard.Base.{
  ℕ, suc, ◌<◌, ◌≡◌, ◌⊎◌, inl, inr, refl, sym, ap, ◌∙◌, List, [], ◌∷◌, ◌++◌, map, if◌then◌else◌, All,
  In, Distinct, Bool-cases, arith,
}
use mathlib.Core.Path.{subst}
use floppyguard.Base.Text.{Text, codes, text_eq, decimal, split, number, is_digit}
use floppyguard.Base.Text.Laws.{text_eq_refl, text_eq_ne, split-append}
use floppyguard.Base.Text.Decimal.{number-decimal, Free-of_Digits, Digits-decimal}
use floppyguard.WireGuard.Renames.{move, Rename, Staged, temp_name, staged}

abbrev pub Steps : Type 0
Steps = List (Text × Text)

abbrev pub sources : Steps → List Text
sources steps = map (λ (s : Text × Text). s.0) steps

abbrev pub targets : Steps → List Text
targets steps = map (λ (s : Text × Text). s.1) steps

-- The steps one after the other, and all of them at once.
abbrev pub moves : Steps → Text → Text
moves [] t = t
moves (s ∷ steps) t = moves steps (move s.0 s.1 t)

abbrev pub renamed : Steps → Text → Text
renamed [] t = t
renamed (s ∷ steps) t = if text_eq t s.0 then s.1 else renamed steps t

moves-none : (steps : Steps) (t : Text) → ¬ In t (sources steps) → moves steps t ≡ t
moves-none [] t n = refl
moves-none (s ∷ steps) t n =
    rw (text_eq_ne t s.0 (λ e. n (inl e))) (moves-none steps t (λ m. n (inr m)))

-- Where no step leads to a name that a step leaves, their order does not matter.
pub moves-renamed :
    (steps : Steps)
    → All (λ t. ¬ In t (sources steps)) (targets steps)
    → (t : Text) → moves steps t ≡ renamed steps t
moves-renamed [] h t = refl
moves-renamed (s ∷ steps) h t = elim (Bool-cases (text_eq t s.0)) [
  | inl e ↦ rw e (moves-none steps s.1 (λ m. h.0 (inr m)))
  | inr e ↦ rw e (moves-renamed steps (narrow (targets steps) h.1) t)
]
  where
    narrow :
        (ts : List Text)
        → All (λ t. ¬ In t (sources (s ∷ steps))) ts
        → All (λ t. ¬ In t (sources steps)) ts
    narrow [] k = tt
    narrow (u ∷ us) k = ((λ m. k.0 (inr m)), narrow us k.1)

abbrev pub to_temp : List Staged → Steps
to_temp ss = map (λ (s : Staged). (s.old, s.temp)) ss

abbrev pub from_temp : List Staged → Steps
from_temp ss = map (λ (s : Staged). (s.temp, s.new)) ss

abbrev pub at_once : List Staged → Steps
at_once ss = map (λ (s : Staged). (s.old, s.new)) ss

abbrev pub temps : List Staged → List Text
temps ss = map (λ (s : Staged). s.temp) ss

renamed-to_temp :
    (ss : List Staged) (t : Text)
    → (renamed (to_temp ss) t ≡ t) ⊎ In (renamed (to_temp ss) t) (temps ss)
renamed-to_temp [] t = inl refl
renamed-to_temp (s ∷ ss) t = elim (Bool-cases (text_eq t s.old)) [
  | inl e ↦ inr (inl (rw e refl))
  | inr e ↦
      let q : renamed (to_temp (s ∷ ss)) t ≡ renamed (to_temp ss) t = rw e refl in
      elim (renamed-to_temp ss t) [
        | inl k ↦ inl (q ∙ k)
        | inr m ↦ inr (inr (subst (λ (v : Text). In v (temps ss)) (sym q) m))
      ]
]

-- Both phases together rename at once.
pub renamed-renamed :
    (ss : List Staged)
    → Distinct (temps ss)
    → (t : Text) → ¬ In t (temps ss)
    → renamed (from_temp ss) (renamed (to_temp ss) t) ≡ renamed (at_once ss) t
renamed-renamed [] d t n = refl
renamed-renamed (s ∷ ss) d t n = elim (Bool-cases (text_eq t s.old)) [
  | inl e ↦ rw (e, text_eq_refl s.temp) refl
  | inr e ↦
      let u = renamed (to_temp ss) t in
      let apart : ¬ (u ≡ s.temp) = λ q. elim (renamed-to_temp ss t) [
        | inl k ↦ n (inl (sym k ∙ q))
        | inr m ↦ d.0 (subst (λ (v : Text). In v (temps ss)) q m)
      ] in
      rw (e, text_eq_ne u s.temp apart) (renamed-renamed ss d.1 t (λ m. n (inr m)))
]

-- The temporary names differ.
cancel : (p s t : Text) → (p ++ s) ≡ (p ++ t) → s ≡ t
cancel [] s t e = e
cancel (c ∷ p) s t e = cancel p s t (tail_eq e)
  where
    tail_eq : (c ∷ (p ++ s)) ≡ (c ∷ (p ++ t)) → (p ++ s) ≡ (p ++ t)
    tail_eq e = cc

first_part : (i : ℕ) → split b'_' (decimal i ++ codes "__") ≡ decimal i ∷ split b'_' (codes "_")
unfolding is_digit
first_part i =
    split-append b'_' (decimal i) (codes "_")
      (Free-of_Digits b'_' (decimal i) refl (Digits-decimal i))

head_eq : (a b : Text) (r : List Text) → (a ∷ r) ≡ (b ∷ r) → a ≡ b
head_eq a b r e = cc

temp_name_injective : (stamp i j : ℕ) → temp_name stamp i ≡ temp_name stamp j → i ≡ j
unfolding temp_name
temp_name_injective stamp i j e =
    let e₁ =
      cancel (codes "__fg_rename_") (decimal stamp ++ (b'_' ∷ (decimal i ++ codes "__")))
        (decimal stamp ++ (b'_' ∷ (decimal j ++ codes "__"))) e in
    let e₂ =
      cancel (decimal stamp) (b'_' ∷ (decimal i ++ codes "__")) (b'_' ∷ (decimal j ++ codes "__"))
        e₁ in
    let e₃ = cancel (b'_' ∷ []) (decimal i ++ codes "__") (decimal j ++ codes "__") e₂ in
    let e₄ =
      head_eq (decimal i) (decimal j) (split b'_' (codes "_"))
        (sym (first_part i) ∙ ap (split b'_') e₃ ∙ first_part j) in
    sym (number-decimal i) ∙ ap number e₄ ∙ number-decimal j

later_temps :
    (stamp i j : ℕ) (rs : List Rename)
    → i < j
    → ¬ In (temp_name stamp i) (temps (staged stamp j rs))
unfolding staged
later_temps stamp i j [] h m = m
later_temps stamp i j (r ∷ rs) h (inl e) = omega (arith, temp_name_injective stamp i j e)
later_temps stamp i j (r ∷ rs) h (inr m) = later_temps stamp i (suc j) rs (omega arith) m

pub Distinct-staged : (stamp i : ℕ) (rs : List Rename) → Distinct (temps (staged stamp i rs))
unfolding staged
Distinct-staged stamp i [] = tt
Distinct-staged stamp i (r ∷ rs) =
    (later_temps stamp i (suc i) rs (omega arith), Distinct-staged stamp (suc i) rs)
