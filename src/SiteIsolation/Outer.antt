-- ===== src/SiteIsolation/Outer.antt =====
-- The entries that no other entry contains: no two of them meet, and nothing is lost.
use floppyguard.Base.{
  ℕ, zero, suc, ◌<◌, ◌≡◌, ◌↔◌, refl, sym, true, false, not, ◌&&◌, some, List, filter, any, any_find,
  any_of_In, All, All_at, In, In-filter, ltb, inl, inr, Bool-cases, arith,
}
use floppyguard.Base.Text.{Text, text_eq}
use floppyguard.Base.Text.Laws.{text_eq_iff}
use floppyguard.Cidr.{canonical_cidr, cidr_contains, cidr_overlaps}
use floppyguard.Cidr.Contains.{Accepted, Accepted-of_canonical, covers, cidr_contains_iff}
use floppyguard.Cidr.Order.{
  accepted_valid, contains_refl, contains_trans, contains_antisymm, prefix_le_of_contains,
}
use floppyguard.SiteIsolation.{outermost}

module _ (ts : List Text) (canonical : All (λ c. canonical_cidr c ≡ some c) ts) where
  accepted : (c : Text) → In c ts → Accepted c
  accepted c m =
      Accepted-of_canonical c c (All_at (λ c. canonical_cidr c ≡ some c) c ts canonical m)

  self : (c : Text) → In c ts → canonical_cidr c ≡ some c
  self c m = All_at (λ c. canonical_cidr c ≡ some c) c ts canonical m

  -- An entry lies in one of those that stay; `k` bounds its prefix.
  climb :
      (k : ℕ) (n : Text) (m : In n ts)
      → (accepted n m).prefix < k
      → (o : Text) × In o (filter (outermost ts) ts) × (cidr_contains o n ≡ true)
  unfolding outermost
  climb zero n m l = absurd (omega (arith, l))
  climb (suc k) n m l = elim (Bool-cases (any (λ o. not (text_eq o n) && cidr_contains o n) ts)) [
    | inr e ↦ (n, (In-filter (outermost ts) n ts).1 (m, rw e refl), contains_refl n n (self n m))
    | inl e ↦
        let (o, i, q) = any_find (λ o. not (text_eq o n) && cidr_contains o n) ts e in
        let holds : cidr_contains o n ≡ true = ground arith in
        let differ : text_eq o n ≡ false = ground arith in
        let le = prefix_le_of_contains o n (accepted o i) (accepted n m) holds in
        elim (Bool-cases (ltb (accepted o i).prefix (accepted n m).prefix)) [
          | inl lt ↦
              let less : (accepted o i).prefix < k = ground arith in
              let (r, j, c) = climb k o i less in (r, j, contains_trans r o n c holds)
          | inr ge ↦
              let same =
                contains_antisymm o n (accepted o i) (accepted n m) (self o i) (self n m) holds
                  (ground arith) in
              absurd (cc ((text_eq_iff o n).1 same))
        ]
  ]

  pub outermost-covers :
      (a : ℕ)
      → (any (λ n. covers n a) (filter (outermost ts) ts) ≡ true)
        ↔ (any (λ n. covers n a) ts ≡ true)
  outermost-covers a = (
    (λ h.
        let (n, m, c) = any_find (λ n. covers n a) (filter (outermost ts) ts) h in
        any_of_In (λ n. covers n a) n ts ((In-filter (outermost ts) n ts).0 m).0 c),
    (λ h.
        let (n, m, c) = any_find (λ n. covers n a) ts h in
        let (o, i, holds) = climb (suc (accepted n m).prefix) n m (omega arith) in
        any_of_In (λ n. covers n a) o (filter (outermost ts) ts) i
          ((cidr_contains_iff o n (accepted_valid n (accepted n m))).0 holds a c)),
  )

  -- Two entries that stay and share an address are the same one.
  stays_alone :
      (x y : Text) → In x ts → In y (filter (outermost ts) ts) → cidr_contains x y ≡ true → x ≡ y
  unfolding outermost
  stays_alone x y mx my h = elim (Bool-cases (text_eq x y)) [
    | inl e ↦ (text_eq_iff x y).0 e
    | inr e ↦
        let alone = ((In-filter (outermost ts) y ts).0 my).1 in
        let found =
          any_of_In (λ o. not (text_eq o y) && cidr_contains o y) x ts mx (rw (e, h) refl) in
        absurd (cc (rw found at alone))
  ]

  pub outermost-apart :
      (x y : Text)
      → In x (filter (outermost ts) ts)
      → In y (filter (outermost ts) ts)
      → cidr_overlaps x y ≡ true
      → x ≡ y
  unfolding cidr_overlaps
  outermost-apart x y mx my h = elim (Bool-cases (cidr_contains x y)) [
    | inl c ↦ stays_alone x y ((In-filter (outermost ts) x ts).0 mx).0 my c
    | inr c ↦ sym (stays_alone y x ((In-filter (outermost ts) y ts).0 my).0 mx (rw c at h))
  ]
