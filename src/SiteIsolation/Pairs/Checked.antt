-- ===== src/SiteIsolation/Pairs/Checked.antt =====
-- What `sanitizePairs` returns: the requested pairs, each once, between existing site links.
use floppyguard.Base.{
  ℕ, suc, ◌≡◌, ◌⊎◌, refl, ap, ◌∙◌, true, false, not, some, List, [], ◌∷◌, All, In, Distinct, arith,
  inl, inr, Bool-cases, Option-cases,
}
use floppyguard.Base.Text.{Text, codes, text_eq}
use floppyguard.Base.Text.Laws.{text_eq_iff}
use floppyguard.Json.{Json, get}
use floppyguard.Result.{ok, throw_if-eq-ok, >>=-eq-ok, ok-injective}
use floppyguard.SiteIsolation.{Link, Pair, is_site_link, by_id, text_lt, normalize_pair}
use floppyguard.SiteIsolation.Pairs.{
  is_link_id, trimmed, check_end, pair_key, set_pair, check_pair, check_pairs,
}
use floppyguard.SiteIsolation.Pairs.Ids.{Free-is_link_id, pair_key-injective}

-- An id of an existing site link.
pub record IsEnd (links : List Link) (id : Text) : Type 0 where
  pub valid : is_link_id id ≡ true
  pub link : Link
  pub found : by_id links id ≡ some link
  pub site : is_site_link link ≡ true

-- A pair of two different ends, the smaller id first.
pub record IsSitePair (links : List Link) (p : Pair) : Type 0 where
  pub end_a : IsEnd links p.a
  pub end_b : IsEnd links p.b
  pub ordered : text_lt p.a p.b ≡ true

text_lt_total : (s t : Text) → text_eq s t ≡ false → text_lt s t ≡ false → text_lt t s ≡ true
unfolding text_lt text_eq
text_lt_total [] [] n h = cc
text_lt_total [] (b ∷ t) n h = absurd (cc)
text_lt_total (a ∷ s) [] n h = refl
text_lt_total (a ∷ s) (b ∷ t) n h = ground (arith, text_lt_total s t)

check_end-IsEnd :
    (links : List Link) (i : ℕ) (field v : Text) → check_end links i field v ≡ ok tt → IsEnd links v
unfolding check_end
check_end-IsEnd links i field v e =
    let (bad, e₁) = throw_if-eq-ok (not (is_link_id v)) _ _ tt e in
    elim (Option-cases (by_id links v)) [
      | inl n ↦ absurd (cc (rw n at e₁))
      | inr (l, f) ↦ elim (Bool-cases (is_site_link l)) [
        | inl s ↦ record { valid = ground arith; link = l; found = f; site = s }
        | inr s ↦ absurd (cc (rw (f, s) at e₁))
      ]
    ]

normalize_pair-IsSitePair :
    (links : List Link) (a b : Text)
    → IsEnd links a
    → IsEnd links b
    → text_eq a b ≡ false
    → IsSitePair links (normalize_pair a b)
unfolding normalize_pair
normalize_pair-IsSitePair links a b x y n = elim (Bool-cases (text_lt a b)) [
  | inl e ↦ rw e (record { end_a = x; end_b = y; ordered = e })
  | inr e ↦ rw e (record { end_a = y; end_b = x; ordered = text_lt_total a b n e })
]

-- The pair that a request entry stands for.
abbrev pub pair_of : Json → Pair
pair_of v = normalize_pair (trimmed (get (codes "link_a") v)) (trimmed (get (codes "link_b") v))

check_pair-IsSitePair :
    (links : List Link) (i : ℕ) (v : Json) (seen out : List Pair)
    → check_pair links i v seen ≡ ok out
    → IsSitePair links (pair_of v) × (set_pair (pair_of v) seen ≡ out)
unfolding check_pair
check_pair-IsSitePair links i v seen out e =
    let a = trimmed (get (codes "link_a") v) in
    let b = trimmed (get (codes "link_b") v) in
    let (ua, ea, e₁) = >>=-eq-ok (check_end links i (codes "link_a") a) _ out e in
    let (ub, eb, e₂) = >>=-eq-ok (check_end links i (codes "link_b") b) _ out e₁ in
    let (differ, e₃) = throw_if-eq-ok (text_eq a b) _ _ out e₂ in
    (
      normalize_pair-IsSitePair links a b (check_end-IsEnd links i (codes "link_a") a ea)
          (check_end-IsEnd links i (codes "link_b") b eb) differ,
      ok-injective e₃,
    )

module _ (links : List Link) where
  key_injective :
      (p q : Pair) → IsSitePair links p → IsSitePair links q → pair_key p ≡ pair_key q → p ≡ q
  key_injective p q x y e =
      pair_key-injective p q (Free-is_link_id p.a (x.end_a).valid)
        (Free-is_link_id p.b (x.end_b).valid) (Free-is_link_id q.a (y.end_a).valid)
        (Free-is_link_id q.b (y.end_b).valid) e

  All-set_pair :
      (p : Pair) (qs : List Pair)
      → IsSitePair links p
      → All (IsSitePair links) qs
      → All (IsSitePair links) (set_pair p qs)
  unfolding set_pair
  All-set_pair p [] x h = (x, tt)
  All-set_pair p (q ∷ qs) x h = elim (Bool-cases (text_eq (pair_key q) (pair_key p))) [
    | inl e ↦ rw e (x, h.1)
    | inr e ↦ rw e (h.0, All-set_pair p qs x h.1)
  ]

  In-set_pair : (p r : Pair) (qs : List Pair) → In r (set_pair p qs) → (r ≡ p) ⊎ In r qs
  unfolding set_pair
  In-set_pair p r [] m = m
  In-set_pair p r (q ∷ qs) m = elim (Bool-cases (text_eq (pair_key q) (pair_key p))) [
    | inl e ↦ elim (rw e at m) [ inl f ↦ inl f | inr i ↦ inr (inr i) ]
    | inr e ↦ elim (rw e at m) [
      | inl f ↦ inr (inl f)
      | inr i ↦ elim (In-set_pair p r qs i) [ inl f ↦ inl f | inr j ↦ inr (inr j) ]
    ]
  ]

  set_pair-In : (p : Pair) (qs : List Pair) → In p (set_pair p qs)
  unfolding set_pair
  set_pair-In p [] = inl refl
  set_pair-In p (q ∷ qs) = elim (Bool-cases (text_eq (pair_key q) (pair_key p))) [
    | inl e ↦ rw e (inl refl)
    | inr e ↦ rw e (inr (set_pair-In p qs))
  ]

  In-kept :
      (p r : Pair) (qs : List Pair)
      → IsSitePair links p
      → All (IsSitePair links) qs
      → In r qs
      → In r (set_pair p qs)
  unfolding set_pair
  In-kept p r [] x h m = absurd m
  In-kept p r (q ∷ qs) x h m = elim (Bool-cases (text_eq (pair_key q) (pair_key p))) [
    | inl e ↦
        let same = key_injective q p h.0 x ((text_eq_iff (pair_key q) (pair_key p)).0 e) in
        rw e (elim m [ inl f ↦ inl (f ∙ same) | inr i ↦ inr i ])
    | inr e ↦ rw e (elim m [ inl f ↦ inl f | inr i ↦ inr (In-kept p r qs x h.1 i) ])
  ]

  Distinct-set_pair :
      (p : Pair) (qs : List Pair)
      → IsSitePair links p
      → All (IsSitePair links) qs
      → Distinct qs
      → Distinct (set_pair p qs)
  unfolding set_pair
  Distinct-set_pair p [] x h d = ((λ m. m), tt)
  Distinct-set_pair p (q ∷ qs) x h d = elim (Bool-cases (text_eq (pair_key q) (pair_key p))) [
    | inl e ↦
        let same = key_injective q p h.0 x ((text_eq_iff (pair_key q) (pair_key p)).0 e) in
        rw e (rw same at d)
    | inr e ↦ rw e (
      (λ m. elim (In-set_pair p q qs m) [
        | inl f ↦ absurd (cc ((text_eq_iff (pair_key q) (pair_key p)).1 (ap pair_key f)))
        | inr i ↦ d.0 i
      ]),
      Distinct-set_pair p qs x h.1 d.1,
    )
  ]

  abbrev pub Checked : List Json → List Pair → List Pair → Type 0
  Checked vs seen out =
      All (IsSitePair links) out
      × Distinct out
      × ((q : Pair) → In q seen → In q out)
      × All (λ v. In (pair_of v) out) vs
      × ((q : Pair) → In q out → In q seen ⊎ ((v : Json) × In v vs × (q ≡ pair_of v)))

  pub check_pairs-Checked :
      (i : ℕ) (vs : List Json) (seen out : List Pair)
      → All (IsSitePair links) seen
      → Distinct seen
      → check_pairs links i vs seen ≡ ok out
      → Checked vs seen out
  unfolding check_pairs
  check_pairs-Checked i [] seen out h d e =
      let same : seen ≡ out = ok-injective e in rw (← same) (h, d, (λ q m. m), tt, (λ q m. inl m))
  check_pairs-Checked i (v ∷ vs) seen out h d e =
      let (mid, e₁, e₂) =
        >>=-eq-ok (check_pair links i v seen) (check_pairs links (suc i) vs) out e in
      let (x, f) = check_pair-IsSitePair links i v seen mid e₁ in
      let p = pair_of v in
      let h' : All (IsSitePair links) mid = rw (← f) (All-set_pair p seen x h) in
      let d' : Distinct mid = rw (← f) (Distinct-set_pair p seen x h d) in
      let here : In p mid = rw (← f) (set_pair-In p seen) in
      let keep : (q : Pair) → In q seen → In q mid = λ q m. rw (← f) (In-kept p q seen x h m) in
      let (all_out, dis, later, rest, from) = check_pairs-Checked (suc i) vs mid out h' d' e₂ in
      (
        all_out,
        dis,
        (λ q m. later q (keep q m)),
        (later p here, rest),
        (λ q m. elim (from q m) [
          | inl k ↦ elim (In-set_pair p q seen (rw f k)) [
            | inl g ↦ inr (v, inl refl, g)
            | inr j ↦ inl j
          ]
          | inr (w, j, g) ↦ inr (w, inr j, g)
        ]),
      )
