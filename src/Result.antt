-- ===== src/Result.antt =====
-- Errors as values: `ValidationError` is answered to the client, any other `Error` is internal.
use mathlib.Core.Path.{subst, fun_ext}
use floppyguard.Base.{◌≡◌, refl, sym, ap, ◌∙◌, Bool, true, false, List, [], ◌∷◌, ◌++◌, All}
use floppyguard.Base.Text.{Text}

pub data Failure : Type 0 where
  validation : Text → Failure
  internal : Text → Failure

pub data Result {ℓ} (A : Type ℓ) : Type ℓ where
  ok : A → Result A
  err : Failure → Result A

-- What follows a step is skipped once something was thrown.
module _ {ℓ κ} {A : Type ℓ} {B : Type κ} where
  infixl 5 ◌>>=◌
  abbrev pub ◌>>=◌ : Result A → (A → Result B) → Result B
  err thrown >>= next = err thrown
  ok value >>= next = next value

  -- What a successful step leaves.
  pub >>=-eq-ok :
      (step : Result A) (next : A → Result B) (b : B)
      → (step >>= next) ≡ ok b
      → (a : A) × (step ≡ ok a) × (next a ≡ ok b)
  >>=-eq-ok (err thrown) next b h = absurd (cc)
  >>=-eq-ok (ok value) next b h = (value, refl, h)

infixl 5 ◌>>◌
abbrev pub ◌>>◌ {κ} : {B : Type κ} → Result (Unit {0}) → Result B → Result B
check >> rest = check >>= λ _. rest

-- `if (test) throw failure`.
abbrev pub throw_if : Bool → Failure → Result (Unit {0})
throw_if true e = err e
throw_if false e = ok tt

pub ok-injective {ℓ} : {A : Type ℓ} {a b : A} → ok a ≡ ok b → a ≡ b
ok-injective e = cc

pub throw_if-eq-ok :
    {B : Type 0} (test : Bool) (e : Failure) (k : Result B) (b : B)
    → (throw_if test e >> k) ≡ ok b
    → (test ≡ false) × (k ≡ ok b)
throw_if-eq-ok true e k b h = absurd (cc)
throw_if-eq-ok false e k b h = (refl, h)

-- `for (const x of xs) state = body(x, state)`, where the body may throw.
unfoldable pub for_each {ℓ κ} :
    {A : Type ℓ} {S : Type κ} → (A → S → Result S) → List A → S → Result S
for_each body [] s = ok s
for_each body (x ∷ xs) s = body x s >>= λ s'. for_each body xs s'

-- An invariant of the body is kept by the loop.
pub for_each-inv {ℓ κ μ} :
    {A : Type ℓ} {S : Type κ} (P : S → Type μ) (body : A → S → Result S)
    → ((x : A) (s s' : S) → P s → body x s ≡ ok s' → P s')
    → (xs : List A) (s s' : S) → P s
    → for_each body xs s ≡ ok s'
    → P s'
unfolding for_each
for_each-inv P body keep [] s s' h e = subst P (ok-injective e) h
for_each-inv P body keep (x ∷ xs) s s' h e =
    let (m, e₁, e₂) = >>=-eq-ok (body x s) (for_each body xs) s' e in
    for_each-inv P body keep xs m s' (keep x s m h e₁) e₂

-- A loop whose rounds cannot throw on these elements does not throw.
pub for_each_total {ℓ κ μ} :
    {A : Type ℓ} {S : Type κ} (P : A → Type μ) (body : A → S → Result S)
    → ((x : A) (s : S) → P x → (s' : S) × (body x s ≡ ok s'))
    → (xs : List A) (s : S) → All P xs
    → (s' : S) × (for_each body xs s ≡ ok s')
unfolding for_each
for_each_total P body good [] s h = (s, refl)
for_each_total P body good (x ∷ xs) s h =
    let (m, e) = good x s h.0 in let (s', e') = for_each_total P body good xs m h.1 in (s', rw e e')

pub bind_assoc {ℓ κ μ} :
    {A : Type ℓ} {B : Type κ} {C : Type μ} (m : Result A) (f : A → Result B) (g : B → Result C)
    → (m >>= f >>= g) ≡ (m >>= λ a. f a >>= g)
bind_assoc (ok a) f g = refl
bind_assoc (err e) f g = refl

pub for_each-append {ℓ κ} :
    {A : Type ℓ} {S : Type κ} (body : A → S → Result S) (xs ys : List A) (s : S)
    → for_each body (xs ++ ys) s ≡ (for_each body xs s >>= for_each body ys)
unfolding for_each
for_each-append body [] ys s = refl
for_each-append body (x ∷ xs) ys s =
    ap (body x s >>=◌) (fun_ext (λ t. for_each-append body xs ys t))
    ∙ sym (bind_assoc (body x s) (for_each body xs) (for_each body ys))
