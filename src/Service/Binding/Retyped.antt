-- ===== src/Service/Binding/Retyped.antt =====
-- A link without a stored name is found under each name that was generated for it.
use floppyguard.Base.{
  ℕ, zero, suc, ◌≡◌, refl, ap, sym, Bool, true, false, not, none, some, List, [], ◌∷◌, ◌++◌, All,
  all, filter, length, length-append, ◌==◌, arith,
}
use floppyguard.Base.Text.{Text, text_eq}
use floppyguard.Base.Text.Laws.{text_eq_refl}
use floppyguard.Ingress.{take, strip, pub_key8}
use floppyguard.Service.{StatusLink}
use floppyguard.Service.Binding.{
  is_key8, is_line_end, key_behind, bound_key, starts_with, key_of, generated_name,
  is_generated_link_name, named, carries_key, by_key, resolve_bound_status_link,
}

-- Only the last eight characters are a key.
not_key8 : (p k : Text) → length k ≡ 8 → is_key8 (p ++ (b'-' ∷ k)) ≡ false
unfolding is_key8
not_key8 p k h = ground (arith, length-append p (b'-' ∷ k))

abbrev one_line : Text → Bool
one_line s = all (λ c. not (is_line_end c)) s

key_behind_lem :
    (p k : Text)
    → all (λ c. not (is_line_end c)) p ≡ true
    → is_key8 k ≡ true
    → key_behind (p ++ (b'-' ∷ k)) ≡ some k
unfolding key_behind all is_key8
key_behind_lem [] k h q = ground (arith)
key_behind_lem (c ∷ p) k h q = ground (arith, key_behind_lem p k, not_key8 p k, q)

bound_key_lem :
    (c : ℕ) (p k : Text)
    → all (λ c. not (is_line_end c)) (c ∷ p) ≡ true
    → is_key8 k ≡ true
    → bound_key (c ∷ (p ++ (b'-' ∷ k))) ≡ some k
unfolding bound_key all
bound_key_lem c p k h q = ground (arith, key_behind_lem p k, q)

starts_with-take : (n : ℕ) (s : Text) → starts_with (take n s) s ≡ true
unfolding take strip
starts_with-take zero s = refl
starts_with-take (suc n) [] = refl
starts_with-take (suc n) (c ∷ s) = ground (arith, starts_with-take n s)

key_given : (s : Text) → is_key8 (take 8 s) ≡ true → (length s == 0) ≡ false
unfolding take is_key8
key_given [] h = sym h
key_given (c ∷ s) h = ground arith

carries_own_key :
    (l : StatusLink)
    → l.name ≡ generated_name l
    → is_key8 (pub_key8 (key_of l)) ≡ true
    → carries_key (pub_key8 (key_of l)) l ≡ true
unfolding is_generated_link_name pub_key8
carries_own_key l e k =
    rw (key_given (key_of l) k, e, text_eq_refl (generated_name l), starts_with-take 8 (key_of l))
      refl

filter-none :
    {A : Type 0} (p : A → Bool) (xs : List A) → All (λ x. p x ≡ false) xs → filter p xs ≡ []
unfolding filter
filter-none p [] h = refl
filter-none p (x ∷ xs) h = rw (h.0) (filter-none p xs h.1)

filter-single :
    {A : Type 0} (p : A → Bool) (xs : List A) (x : A) (ys : List A)
    → All (λ y. p y ≡ false) xs
    → p x ≡ true
    → All (λ y. p y ≡ false) ys
    → filter p (xs ++ x ∷ ys) ≡ x ∷ []
unfolding filter
filter-single p [] x ys h e k = rw e (ap (x ∷◌) (filter-none p ys k))
filter-single p (z ∷ xs) x ys h e k = rw (h.0) (filter-single p xs x ys h.1 e k)

named-none :
    (name : Text) (ls : List StatusLink)
    → All (λ (l : StatusLink). text_eq l.name name ≡ false) ls
    → named name ls ≡ none
unfolding named
named-none name [] h = refl
named-none name (l ∷ ls) h = rw (h.0) (named-none name ls h.1)

-- A link whose name is generated from its type and its key is found under the name that it had
-- with any other type, as long as its key has eight characters of base64, no link has that name
-- and no other link with a generated name has a key that starts in the same way.
pub resolve_bound_status_link-retyped :
    (before : List StatusLink) (l : StatusLink) (after : List StatusLink) (c : ℕ) (type : Text)
    → l.name ≡ generated_name l
    → is_key8 (pub_key8 (key_of l)) ≡ true
    → all (λ c. not (is_line_end c)) (c ∷ type) ≡ true
    → All
        (λ (o : StatusLink). text_eq o.name (c ∷ (type ++ (b'-' ∷ pub_key8 (key_of l)))) ≡ false)
        (before ++ l ∷ after)
    → All (λ o. carries_key (pub_key8 (key_of l)) o ≡ false) before
    → All (λ o. carries_key (pub_key8 (key_of l)) o ≡ false) after
    → resolve_bound_status_link
        (some (c ∷ (type ++ (b'-' ∷ pub_key8 (key_of l)))))
        (before ++ l ∷ after)
      ≡ some l
unfolding resolve_bound_status_link by_key
resolve_bound_status_link-retyped before l after c type e k t unnamed b a =
    rw
      (
        resolve_bound_status_link,
        named-none (c ∷ (type ++ (b'-' ∷ pub_key8 (key_of l)))) (before ++ l ∷ after) unnamed,
        bound_key_lem c type (pub_key8 (key_of l)) t k,
        filter-single (carries_key (pub_key8 (key_of l))) before l after b (carries_own_key l e k)
            a,
      )
      refl
