-- ===== src/Catalog/Bulk/Ids.antt =====
-- What the id list of a bulk request may hold.
use floppyguard.Base.{
  ℕ, ◌≤◌, ◌≡◌, ◌⊎◌, refl, sym, ap, ◌∙◌, true, ◌||◌, some, List, [], ◌∷◌, ◌++◌, All, All-append, In,
  In-append, In-left, In-right, Distinct, Distinct-append_one, any_find, any_of_In, length, ltb,
  ◌==◌, ==_iff, arith, inl, inr, Bool-cases, Option-cases,
}
use floppyguard.Json.{Json, undefined, null, bool, num, str, arr, obj, Items, items}
use floppyguard.Result.{ok, for_each, throw_if-eq-ok, >>=-eq-ok, ok-injective}
use floppyguard.Catalog.{max_bulk_disable}
use floppyguard.Catalog.Bulk.{id_of, includes_id, id_round, sanitize_rule_ids}

includes_id_iff : (ids : List ℕ) (n : ℕ) → (includes_id ids n ≡ true) → In n ids
unfolding includes_id
includes_id_iff ids n h =
    let (m, i, e) = any_find (λ m. m == n) ids h in
    let same : m ≡ n = (==_iff m n).0 e in rw (← same) i

In-includes_id : (ids : List ℕ) (n : ℕ) → In n ids → includes_id ids n ≡ true
unfolding includes_id
In-includes_id ids n m = any_of_In (λ k. k == n) n ids m ((==_iff n n).1 refl)

-- The ids that a list of values stands for, each once and no other.
pub record IsIdList (values : List Json) (out : List ℕ) : Type 0 where
  pub positive : All (λ n. 1 ≤ n) out
  pub distinct : Distinct out
  pub complete : All (λ v. (n : ℕ) × (id_of v ≡ some n) × In n out) values
  pub sound : (n : ℕ) → In n out → (v : Json) × In v values × (id_of v ≡ some n)

In_one : {A : Type 0} (x y : A) → In x (y ∷ []) → x ≡ y
In_one x y (inl e) = e
In_one x y (inr m) = absurd m

abbrev Grown : List Json → List ℕ → List ℕ → Type 0
Grown values out out' =
    All (λ n. 1 ≤ n) out'
    × Distinct out'
    × ((n : ℕ) → In n out → In n out')
    × All (λ v. (n : ℕ) × (id_of v ≡ some n) × In n out') values
    × ((n : ℕ) → In n out' → In n out ⊎ ((v : Json) × In v values × (id_of v ≡ some n)))

id_of_pos : (v : Json) (n : ℕ) → id_of v ≡ some n → 1 ≤ n
id_of_pos v n e = ground arith

id_round-Grown :
    (v : Json) (out out' : List ℕ)
    → All (λ n. 1 ≤ n) out
    → Distinct out
    → id_round v out ≡ ok out'
    → Grown (v ∷ []) out out'
unfolding id_round
id_round-Grown v out out' pos dis e = elim (Option-cases (id_of v)) [
  | inl n ↦ absurd (cc (rw (id_round, n) at e))
  | inr (n, q) ↦ elim (Bool-cases (includes_id out n)) [
    | inl known ↦
        let same : out ≡ out' = ok-injective (rw (id_round, q, known) at e) in
        rw (← same)
          (pos, dis, (λ d m. m), ((n, q, includes_id_iff out n known), tt), (λ d m. inl m))
    | inr new ↦
        let same : out ++ n ∷ [] ≡ out' = ok-injective (rw (id_round, q, new) at e) in
        rw (← same) (
          All-append (λ n. 1 ≤ n) out (n ∷ []) pos (id_of_pos v n q, tt),
          Distinct-append_one out n dis (λ m. cc (In-includes_id out n m)),
          (λ d m. In-left d out (n ∷ []) m),
          ((n, q, In-right n out (n ∷ []) (inl refl)), tt),
          (λ d m. elim ((In-append d out (n ∷ [])).0 m) [
            | inl i ↦ inl i
            | inr i ↦ inr (v, inl refl, q ∙ ap some (sym (In_one d n i)))
          ]),
        )
  ]
]

ids-Grown :
    (vs : List Json) (out out' : List ℕ)
    → All (λ n. 1 ≤ n) out
    → Distinct out
    → for_each id_round vs out ≡ ok out'
    → Grown vs out out'
unfolding for_each
ids-Grown [] out out' pos dis e =
    let same : out ≡ out' = ok-injective e in rw (← same) (pos, dis, (λ n m. m), tt, (λ n m. inl m))
ids-Grown (v ∷ vs) out out' pos dis e =
    let (mid, e₁, e₂) = >>=-eq-ok (id_round v out) (for_each id_round vs) out' e in
    let (pos₁, dis₁, keep₁, seen, from₁) = id_round-Grown v out mid pos dis e₁ in
    let (pos₂, dis₂, keep₂, rest, from₂) = ids-Grown vs mid out' pos₁ dis₁ e₂ in
    let here = seen.0 in
    (
      pos₂,
      dis₂,
      (λ n m. keep₂ n (keep₁ n m)),
      ((here.0, here.1, keep₂ here.0 here.2), rest),
      (λ n m. elim (from₂ n m) [
        | inl i ↦ elim (from₁ n i) [
          | inl j ↦ inl j
          | inr (w, k, e) ↦ inr (w, inl (In_one w v k), e)
        ]
        | inr (w, k, e) ↦ inr (w, inr k, e)
      ]),
    )

-- An input that passes is an array of 1 to 500 values; the result holds the id of each value of this
-- array and no other, every id is positive and stands once.
pub sanitize_rule_ids-IsIdList :
    (input : Json) (out : List ℕ)
    → sanitize_rule_ids input ≡ ok out
    → (vs : Items) × (input ≡ arr vs)
      × IsIdList (items vs) out
      × (1 ≤ length (items vs))
      × (length (items vs) ≤ max_bulk_disable)
unfolding sanitize_rule_ids
sanitize_rule_ids-IsIdList (arr vs) out e =
    let (few, e₁) =
      throw_if-eq-ok (ltb (length (items vs)) 1 || ltb max_bulk_disable (length (items vs))) _ _ out
        e in
    let (pos, dis, _, complete, from) = ids-Grown (items vs) [] out tt tt e₁ in
    (
      vs,
      refl,
      record {
        positive = pos;
        distinct = dis;
        complete = complete;
        sound = λ n m. elim (from n m) [ inl i ↦ absurd i | inr k ↦ k ];
      },
      ground arith,
      ground arith,
    )
sanitize_rule_ids-IsIdList undefined out e = absurd (cc)
sanitize_rule_ids-IsIdList null out e = absurd (cc)
sanitize_rule_ids-IsIdList (bool b) out e = absurd (cc)
sanitize_rule_ids-IsIdList (num s) out e = absurd (cc)
sanitize_rule_ids-IsIdList (str s) out e = absurd (cc)
sanitize_rule_ids-IsIdList (obj fs) out e = absurd (cc)
