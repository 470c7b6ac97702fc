-- ===== src/Base/Lists.antt =====
-- Lists over the native numbers, and the Boolean folds that JavaScript calls `some` and `every`.
use Prim.Native.Nat.{ℕ, suc, ◌+◌, ◌*◌, ◌≤◌}
use mathlib.Core.Path.{◌≡◌, refl, sym, ap, ◌∙◌, subst}
use mathlib.Core.Logic.{◌⊎◌, inl, inr, ◌↔◌}
use mathlib.Core.Bool.{Bool, true, false, ◌&&◌, ◌||◌, false≢true}
use mathlib.Core.List.{List, [], ◌∷◌, ◌++◌, map}
use native.Mathlib.Omega.{arith}
use floppyguard.Base.Tests.{if◌then◌else◌, Bool-cases}

module _ {ℓ} {A : Type ℓ} where
  abbrev pub length : List A → ℕ
  length [] = 0
  length (x ∷ xs) = suc (length xs)

  -- `xs.some(p)`, `xs.every(p)` and `xs.filter(p)`.
  unfoldable pub any : (A → Bool) → List A → Bool
  any p [] = false
  any p (x ∷ xs) = p x || any p xs

  unfoldable pub all : (A → Bool) → List A → Bool
  all p [] = true
  all p (x ∷ xs) = p x && all p xs

  unfoldable pub filter : (A → Bool) → List A → List A
  filter p [] = []
  filter p (x ∷ xs) = let rest = filter p xs in if p x then x ∷ rest else rest

-- Membership with its place kept, and the predicate that holds of every element.
abbrev pub In : {A : Type 0} → A → List A → Type 0
In a [] = ⊥
In a (x ∷ xs) = (a ≡ x) ⊎ In a xs

abbrev pub All {ℓ κ} : {A : Type ℓ} → (A → Type κ) → List A → Type κ
All P [] = Unit
All P (x ∷ xs) = P x × All P xs

module _ {ℓ} {A : Type ℓ} where
  pub length-append : (xs ys : List A) → length (xs ++ ys) ≡ length xs + length ys
  length-append [] ys = omega arith
  length-append (x ∷ xs) ys = omega (arith, length-append xs ys)

  pub append-nil : (xs ys : List A) → (xs ++ ys ≡ []) ↔ ((xs ≡ []) × (ys ≡ []))
  append-nil [] ys = ((λ h. (refl, h)), (λ h. h.1))
  append-nil (x ∷ xs) ys = ((λ h. absurd (cc)), (λ h. absurd (cc (h.0))))

  pub append_none : (xs : List A) → xs ++ [] ≡ xs
  append_none [] = refl
  append_none (x ∷ xs) = ap (x ∷◌) (append_none xs)

  pub append_assoc : (xs ys zs : List A) → (xs ++ ys) ++ zs ≡ xs ++ (ys ++ zs)
  append_assoc [] ys zs = refl
  append_assoc (x ∷ xs) ys zs = ap (x ∷◌) (append_assoc xs ys zs)

  pub all_iff : (p : A → Bool) (xs : List A) → (all p xs ≡ true) ↔ All (λ x. p x ≡ true) xs
  unfolding all
  all_iff p [] = ((λ _. tt), (λ _. refl))
  all_iff p (x ∷ xs) = ground (arith, all_iff p xs)

  pub length-filter-le : (p : A → Bool) (xs : List A) → length (filter p xs) ≤ length xs
  unfolding filter
  length-filter-le p [] = omega arith
  length-filter-le p (x ∷ xs) = ground (arith, length-filter-le p xs)

  pub any-append : (p : A → Bool) (xs ys : List A) → any p (xs ++ ys) ≡ (any p xs || any p ys)
  unfolding any
  any-append p [] ys = refl
  any-append p (x ∷ xs) ys = ground (arith, any-append p xs ys)

  pub All-append {κ} : (P : A → Type κ) (xs ys : List A) → All P xs → All P ys → All P (xs ++ ys)
  All-append P [] ys h k = k
  All-append P (x ∷ xs) ys h k = (h.0, All-append P xs ys h.1 k)

  pub All-map {κ κ'} :
      {P : A → Type κ} {Q : A → Type κ'} (f : (x : A) → P x → Q x) (xs : List A)
      → All P xs
      → All Q xs
  All-map f [] h = tt
  All-map f (x ∷ xs) h = (f x h.0, All-map f xs h.1)

module _ {A : Type 0} where
  -- `any` finds an element, and `all` reaches each one.
  pub any_find : (p : A → Bool) (xs : List A) → any p xs ≡ true → (x : A) × In x xs × (p x ≡ true)
  unfolding any
  any_find p [] h = ground arith
  any_find p (x ∷ xs) h = elim (Bool-cases (p x)) [
    | inl e ↦ (x, inl refl, e)
    | inr e ↦ let (y, m, q) = any_find p xs (rw e at h) in (y, inr m, q)
  ]

  pub any_of_In : (p : A → Bool) (x : A) (xs : List A) → In x xs → p x ≡ true → any p xs ≡ true
  unfolding any
  any_of_In p x [] m h = absurd m
  any_of_In p x (y ∷ ys) (inl e) h = rw (← e, h)
  any_of_In p x (y ∷ ys) (inr m) h = ground (arith, any_of_In p x ys m h)

  pub All_at {κ} : (P : A → Type κ) (x : A) (xs : List A) → All P xs → In x xs → P x
  All_at P x [] h m = absurd m
  All_at P x (y ∷ ys) h (inl e) = rw e h.0
  All_at P x (y ∷ ys) h (inr m) = All_at P x ys h.1 m

  pub All-of_In {κ} : {P : A → Type κ} (xs : List A) → ((x : A) → In x xs → P x) → All P xs
  All-of_In [] f = tt
  All-of_In (x ∷ xs) f = (f x (inl refl), All-of_In xs (λ y m. f y (inr m)))

  pub In-filter :
      (p : A → Bool) (x : A) (xs : List A) → In x (filter p xs) ↔ (In x xs × (p x ≡ true))
  unfolding filter
  In-filter p x [] = ((λ m. absurd m), (λ m. absurd m.0))
  In-filter p x (y ∷ ys) = elim (Bool-cases (p y)) [
    | inl e ↦ rw e (
      (λ m. elim m [
        | inl q ↦ (inl q, rw q e)
        | inr r ↦ (inr ((In-filter p x ys).0 r).0, ((In-filter p x ys).0 r).1)
      ]),
      (λ m. elim m.0 [ inl q ↦ inl q | inr r ↦ inr ((In-filter p x ys).1 (r, m.1)) ]),
    )
    | inr e ↦ rw e (
      (λ m. (inr ((In-filter p x ys).0 m).0, ((In-filter p x ys).0 m).1)),
      (λ m. elim m.0 [
        | inl q ↦ absurd (false≢true (sym e ∙ ap p (sym q) ∙ m.1))
        | inr r ↦ (In-filter p x ys).1 (r, m.1)
      ]),
    )
  ]

  pub In-append : (x : A) (xs ys : List A) → In x (xs ++ ys) ↔ (In x xs ⊎ In x ys)
  In-append x [] ys = ((λ m. inr m), (λ m. elim m [ inl q ↦ absurd q | inr r ↦ r ]))
  In-append x (z ∷ xs) ys = (
    (λ m. elim m [
      | inl q ↦ inl (inl q)
      | inr r ↦ elim ((In-append x xs ys).0 r) [ inl a ↦ inl (inr a) | inr b ↦ inr b ]
    ]),
    (λ m. elim m [
      | inl q ↦ elim q [ inl a ↦ inl a | inr b ↦ inr ((In-append x xs ys).1 (inl b)) ]
      | inr r ↦ inr ((In-append x xs ys).1 (inr r))
    ]),
  )

-- No element stands twice.
abbrev pub Distinct : {A : Type 0} → List A → Type 0
Distinct [] = Unit
Distinct (x ∷ xs) = (¬ In x xs) × Distinct xs

module _ {A : Type 0} where
  pub Distinct-append_one :
      (xs : List A) (y : A) → Distinct xs → ¬ In y xs → Distinct (xs ++ y ∷ [])
  Distinct-append_one [] y d n = ((λ m. m), tt)
  Distinct-append_one (x ∷ xs) y d n = (
    (λ m. elim ((In-append x xs (y ∷ [])).0 m) [
      | inl a ↦ d.0 a
      | inr b ↦ elim b [ inl e ↦ n (inl (sym e)) | inr z ↦ z ]
    ]),
    Distinct-append_one xs y d.1 (λ m. n (inr m)),
  )

  pub In-left : (x : A) (xs ys : List A) → In x xs → In x (xs ++ ys)
  In-left x xs ys m = (In-append x xs ys).1 (inl m)

  pub In-right : (x : A) (xs ys : List A) → In x ys → In x (xs ++ ys)
  In-right x xs ys m = (In-append x xs ys).1 (inr m)

  pub ne-nil_of_In : (x : A) (xs : List A) → In x xs → ¬ (xs ≡ [])
  ne-nil_of_In x [] m e = m
  ne-nil_of_In x (y ∷ ys) m e = absurd (cc)

-- `flatMap`, or the lists that nested loops go through.
unfoldable pub flat_map {ℓ κ} : {A : Type ℓ} {B : Type κ} → (A → List B) → List A → List B
flat_map f [] = []
flat_map f (x ∷ xs) = f x ++ flat_map f xs

module _ {A B : Type 0} where
  pub In-flat_map :
      (f : A → List B) (y : B) (xs : List A)
      → In y (flat_map f xs) ↔ ((x : A) × In x xs × In y (f x))
  unfolding flat_map
  In-flat_map f y [] = ((λ m. absurd m), (λ h. h.1))
  In-flat_map f y (x ∷ xs) = (
    (λ m. elim ((In-append y (f x) (flat_map f xs)).0 m) [
      | inl a ↦ (x, inl refl, a)
      | inr b ↦ let (z, i, j) = (In-flat_map f y xs).0 b in (z, inr i, j)
    ]),
    (λ h. elim h.1 [
      | inl e ↦ In-left y (f x) (flat_map f xs) (subst (λ (z : A). In y (f z)) e h.2)
      | inr i ↦ In-right y (f x) (flat_map f xs) ((In-flat_map f y xs).1 (h.0, i, h.2))
    ]),
  )

  pub In-map : (f : A → B) (y : B) (xs : List A) → In y (map f xs) ↔ ((x : A) × In x xs × (y ≡ f x))
  In-map f y [] = ((λ m. absurd m), (λ h. h.1))
  In-map f y (x ∷ xs) = (
    (λ m. elim m [
      | inl e ↦ (x, inl refl, e)
      | inr b ↦ let (z, i, j) = (In-map f y xs).0 b in (z, inr i, j)
    ]),
    (λ h. elim h.1 [ inl e ↦ inl (h.2 ∙ ap f e) | inr i ↦ inr ((In-map f y xs).1 (h.0, i, h.2)) ]),
  )

  pub length-map : (f : A → B) (xs : List A) → length (map f xs) ≡ length xs
  length-map f [] = refl
  length-map f (x ∷ xs) = ap suc (length-map f xs)

  -- A loop whose rounds all give the same number of elements.
  pub length-flat_map_const :
      (f : A → List B) (n : ℕ) (xs : List A)
      → ((x : A) → length (f x) ≡ n)
      → length (flat_map f xs) ≡ length xs * n
  unfolding flat_map
  length-flat_map_const f n [] h = omega arith
  length-flat_map_const f n (x ∷ xs) h =
      omega (arith, length-append (f x) (flat_map f xs), h x, length-flat_map_const f n xs h)

pub All-every {ℓ κ} : {A : Type ℓ} {P : A → Type κ} (xs : List A) → ((x : A) → P x) → All P xs
All-every [] f = tt
All-every (x ∷ xs) f = (f x, All-every xs f)
