-- ===== src/SiteIsolation/Pairs/Sorted.antt =====
-- `sanitizePairs` as a whole: the checked pairs, sorted.
use floppyguard.Base.{
  ◌≤◌, ◌≡◌, ◌↔◌, sym, List, [], ◌∷◌, All, All-of_In, All_at, In, Distinct, length, ltb, arith, inl,
  inr, Bool-cases,
}
use floppyguard.Json.{Json, undefined, null, bool, num, str, arr, obj, items}
use floppyguard.Result.{ok, throw_if-eq-ok, >>=-eq-ok, ok-injective}
use floppyguard.SiteIsolation.{Link, Pair, max_pairs}
use floppyguard.SiteIsolation.Pairs.{
  pair_before, insert_pair, sort_pairs, check_pairs, sanitize_pairs,
}
use floppyguard.SiteIsolation.Pairs.Checked.{IsSitePair, pair_of, check_pairs-Checked}

In-insert_pair : (r p : Pair) (qs : List Pair) → In r (insert_pair p qs) ↔ In r (p ∷ qs)
unfolding insert_pair
In-insert_pair r p [] = ((λ m. m), (λ m. m))
In-insert_pair r p (q ∷ qs) = elim (Bool-cases (pair_before p q)) [
  | inl e ↦ rw e ((λ i. i), (λ i. i))
  | inr e ↦ rw e (
    (λ i. elim i [
      | inl f ↦ inr (inl f)
      | inr j ↦ elim ((In-insert_pair r p qs).0 j) [ inl a ↦ inl a | inr b ↦ inr (inr b) ]
    ]),
    (λ i. elim i [
      | inl f ↦ inr ((In-insert_pair r p qs).1 (inl f))
      | inr j ↦ elim j [ inl a ↦ inl a | inr b ↦ inr ((In-insert_pair r p qs).1 (inr b)) ]
    ]),
  )
]

In-sort_pairs : (r : Pair) (ps : List Pair) → In r (sort_pairs ps) ↔ In r ps
unfolding sort_pairs
In-sort_pairs r [] = ((λ m. m), (λ m. m))
In-sort_pairs r (p ∷ ps) =
    let step = In-insert_pair r p (sort_pairs ps) in
    let rest = In-sort_pairs r ps in
    (
      (λ m. elim (step.0 m) [ inl e ↦ inl e | inr i ↦ inr (rest.0 i) ]),
      (λ m. step.1 (elim m [ inl e ↦ inl e | inr i ↦ inr (rest.1 i) ])),
    )

Distinct-insert_pair :
    (p : Pair) (qs : List Pair) → Distinct qs → ¬ In p qs → Distinct (insert_pair p qs)
unfolding insert_pair
Distinct-insert_pair p [] d new = ((λ m. m), tt)
Distinct-insert_pair p (q ∷ qs) d new = elim (Bool-cases (pair_before p q)) [
  | inl e ↦ rw e (new, d)
  | inr e ↦ rw e (
    (λ i. elim ((In-insert_pair q p qs).0 i) [ inl f ↦ new (inl (sym f)) | inr j ↦ d.0 j ]),
    Distinct-insert_pair p qs d.1 (λ i. new (inr i)),
  )
]

Distinct-sort_pairs : (ps : List Pair) → Distinct ps → Distinct (sort_pairs ps)
unfolding sort_pairs
Distinct-sort_pairs [] d = tt
Distinct-sort_pairs (p ∷ ps) d =
    Distinct-insert_pair p (sort_pairs ps) (Distinct-sort_pairs ps d.1)
      (λ m. d.0 ((In-sort_pairs p ps).0 m))

-- A request entry of an array.
abbrev pub entries_of : Json → List Json
entries_of (arr vs) = items vs
entries_of _ = []

-- The pairs of a request, as they are stored.
pub record IsPairList (links : List Link) (values : List Json) (out : List Pair) : Type 0 where
  pub pairs : All (IsSitePair links) out
  pub distinct : Distinct out
  pub complete : All (λ v. In (pair_of v) out) values
  pub requested : All (λ p. (v : Json) × In v values × (p ≡ pair_of v)) out
  pub few : length values ≤ max_pairs

-- A pair list that passes had at most 200 entries. It gives each requested pair once and no other
-- one; both ends of a pair are different, well-formed ids of existing site links, the smaller first.
pub sanitize_pairs-IsPairList :
    (input : Json) (links : List Link) (out : List Pair)
    → sanitize_pairs input links ≡ ok out
    → IsPairList links (entries_of input) out
unfolding sanitize_pairs
sanitize_pairs-IsPairList (arr vs) links out e =
    let (few, e₁) = throw_if-eq-ok (ltb max_pairs (length (items vs))) _ _ out e in
    let (seen, e₂, e₃) = >>=-eq-ok (check_pairs links 0 (items vs) []) _ out e₁ in
    let (good, dis, _, complete, from) = check_pairs-Checked links 0 (items vs) [] seen tt tt e₂ in
    let same : sort_pairs seen ≡ out = ok-injective e₃ in
    rw (← same) (record {
      pairs =
          All-of_In (sort_pairs seen)
            (λ p m. All_at (IsSitePair links) p seen good ((In-sort_pairs p seen).0 m));
      distinct = Distinct-sort_pairs seen dis;
      complete = All-of_In (items vs) (λ v m.
          (In-sort_pairs (pair_of v) seen).1
            (All_at (λ w. In (pair_of w) seen) v (items vs) complete m));
      requested =
          All-of_In (sort_pairs seen)
            (λ p m. elim (from p ((In-sort_pairs p seen).0 m)) [ inl z ↦ absurd z | inr w ↦ w ]);
      few = ground arith;
    })
sanitize_pairs-IsPairList undefined links out e = absurd (cc)
sanitize_pairs-IsPairList null links out e = absurd (cc)
sanitize_pairs-IsPairList (bool b) links out e = absurd (cc)
sanitize_pairs-IsPairList (num s) links out e = absurd (cc)
sanitize_pairs-IsPairList (str s) links out e = absurd (cc)
sanitize_pairs-IsPairList (obj fs) links out e = absurd (cc)
