-- ===== src/SiteIsolation/Script/Comment.antt =====
-- A comment of the script holds nothing that ends it early.
use mathlib.Core.List.{reverse, reverse_aux}
use floppyguard.Base.{
  ℕ, zero, suc, ◌+◌, ◌≤◌, ◌≡◌, refl, Bool, true, false, [], ◌∷◌, All, length, arith, inl, inr,
  Bool-cases,
}
use floppyguard.Base.Text.{Text, trim_start, trim, is_space, is_digit}
use floppyguard.Ingress.{take}
use floppyguard.SiteIsolation.Script.{
  is_comment_code, translit_all, blank_others, collapse, or_site, sanitize_comment_text,
}

abbrev pub Safe : Text → Type 0
Safe s = All (λ c. is_comment_code c ≡ true) s

Safe-blank_others : (s : Text) → Safe (blank_others s)
unfolding blank_others is_comment_code is_digit
Safe-blank_others [] = tt
Safe-blank_others (c ∷ s) = elim (Bool-cases (is_comment_code c)) [
  | inl e ↦ (rw e e, Safe-blank_others s)
  | inr e ↦ (rw e refl, Safe-blank_others s)
]

space_is_safe : is_comment_code b' ' ≡ true
unfolding is_comment_code is_digit
space_is_safe = refl

Safe-collapse : (gap : Bool) (s : Text) → Safe s → Safe (collapse gap s)
unfolding collapse
Safe-collapse gap [] h = tt
Safe-collapse gap (c ∷ s) h = elim (Bool-cases (is_space c)) [
  | inr e ↦ rw e (h.0, Safe-collapse false s h.1)
  | inl e ↦ elim (Bool-cases gap) [
    | inl g ↦ rw (e, g) (Safe-collapse true s h.1)
    | inr g ↦ rw (e, g) (space_is_safe, Safe-collapse true s h.1)
  ]
]

Safe-trim_start : (s : Text) → Safe s → Safe (trim_start s)
unfolding trim_start
Safe-trim_start [] h = tt
Safe-trim_start (c ∷ s) h = elim (Bool-cases (is_space c)) [
  | inl e ↦ rw e (Safe-trim_start s h.1)
  | inr e ↦ rw e h
]

Safe-reverse : (s t : Text) → Safe s → Safe t → Safe (reverse_aux s t)
Safe-reverse [] t h k = k
Safe-reverse (c ∷ s) t h k = Safe-reverse s (c ∷ t) h.1 (h.0, k)

Safe-trim : (s : Text) → Safe s → Safe (trim s)
unfolding trim
Safe-trim s h =
    let a = Safe-trim_start s h in
    let b = Safe-reverse (trim_start s) [] a tt in
    Safe-reverse (trim_start (reverse (trim_start s))) []
      (Safe-trim_start (reverse (trim_start s)) b) tt

Safe-take : (n : ℕ) (s : Text) → Safe s → Safe (take n s)
unfolding take
Safe-take zero s h = tt
Safe-take (suc n) [] h = tt
Safe-take (suc n) (c ∷ s) h = (h.0, Safe-take n s h.1)

Safe-or_site : (s : Text) → Safe s → Safe (or_site s)
unfolding is_comment_code is_digit
Safe-or_site [] h = (refl, (refl, (refl, (refl, tt))))
Safe-or_site (c ∷ s) h = h

length-trim_start : (s : Text) → length (trim_start s) ≤ length s
unfolding trim_start
length-trim_start [] = omega arith
length-trim_start (c ∷ s) = ground (arith, length-trim_start s)

length-reverse : (s t : Text) → length (reverse_aux s t) ≡ length s + length t
length-reverse [] t = omega arith
length-reverse (c ∷ s) t = omega (arith, length-reverse s (c ∷ t))

length-trim : (s : Text) → length (trim s) ≤ length s
unfolding trim
length-trim s = omega (
  arith,
  length-trim_start s,
  length-reverse (trim_start s) [],
  length-trim_start (reverse (trim_start s)),
  length-reverse (trim_start (reverse (trim_start s))) [],
)

length-take : (n : ℕ) (s : Text) → length (take n s) ≤ n
unfolding take
length-take zero s = omega arith
length-take (suc n) [] = omega arith
length-take (suc n) (c ∷ s) = omega (arith, length-take n s)

length-or_site : (n : ℕ) (s : Text) → 4 ≤ n → length s ≤ n → length (or_site s) ≤ n
length-or_site n [] h k = h
length-or_site n (c ∷ s) h k = k

-- For a limit of 4 or more, a comment text holds only characters of the allowed class, so no quote,
-- backslash or line end, is at most as long as asked, and is not empty.
pub sanitize_comment_text-Safe :
    (nfkd : Text → Text) (most : ℕ) (value : Text)
    → 4 ≤ most
    → Safe (sanitize_comment_text nfkd most value)
      × (length (sanitize_comment_text nfkd most value) ≤ most)
      × (1 ≤ length (sanitize_comment_text nfkd most value))
unfolding sanitize_comment_text
sanitize_comment_text-Safe nfkd most value h =
    let blanked = blank_others (nfkd (translit_all value)) in
    let flat = trim (collapse false blanked) in
    let safe =
      Safe-trim (collapse false blanked) (Safe-collapse false blanked (Safe-blank_others _)) in
    (
      Safe-or_site (trim (take most flat)) (Safe-trim (take most flat) (Safe-take most flat safe)),
      length-or_site most (trim (take most flat)) h
          (omega (arith, length-trim (take most flat), length-take most flat)),
      full (trim (take most flat)),
    )
  where
    full : (s : Text) → 1 ≤ length (or_site s)
    full [] = omega arith
    full (c ∷ s) = omega arith
