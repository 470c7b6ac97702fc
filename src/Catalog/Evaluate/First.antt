-- ===== src/Catalog/Evaluate/First.antt =====
-- The rule that the tester names.
use floppyguard.Base.{
  ℕ, ◌≤◌, ◌≡◌, refl, sym, ap, ◌∙◌, true, false, not, Option, none, some, List, [], ◌∷◌, filter, All,
  All_at, In, In-filter, leb, inl, inr, Bool-cases, arith,
}
use floppyguard.Ingress.{Rule}
use floppyguard.Ingress.Cover.{rule_covers}
use floppyguard.Ingress.Restore.{insert_rule, sort_rules}
use floppyguard.Ingress.Restore.Covers.{In-sort_rules}
use floppyguard.Catalog.{RuleRef, rule_ref}
use floppyguard.Catalog.Evaluate.{
  Query, head_rule, covering, blocked_of, is_via_agent, is_same_site, match_rules, evaluate_flow,
}

abbrev Ascending : List Rule → Type 0
Ascending [] = Unit
Ascending (r ∷ rs) = All (λ q. r.id ≤ q.id) rs × Ascending rs

below :
    (r q : Rule) (qs : List Rule)
    → r.id ≤ q.id
    → All (λ x. q.id ≤ x.id) qs
    → All (λ x. r.id ≤ x.id) qs
below r q [] h k = tt
below r q (x ∷ qs) h k = (omega (arith, k.0), below r q qs h k.1)

above-insert_rule :
    (q r : Rule) (rs : List Rule)
    → q.id ≤ r.id
    → All (λ x. q.id ≤ x.id) rs
    → All (λ x. q.id ≤ x.id) (insert_rule r rs)
unfolding insert_rule
above-insert_rule q r [] h k = (h, tt)
above-insert_rule q r (x ∷ rs) h k = elim (Bool-cases (leb r.id x.id)) [
  | inl e ↦ rw e (h, k)
  | inr e ↦ rw e (k.0, above-insert_rule q r rs h k.1)
]

Ascending-insert_rule : (r : Rule) (rs : List Rule) → Ascending rs → Ascending (insert_rule r rs)
unfolding insert_rule
Ascending-insert_rule r [] h = (tt, tt)
Ascending-insert_rule r (q ∷ rs) h = elim (Bool-cases (leb r.id q.id)) [
  | inl e ↦ let le : r.id ≤ q.id = ground arith in rw e ((le, below r q rs le h.0), h)
  | inr e ↦
      let le : q.id ≤ r.id = ground arith in
      rw e (above-insert_rule q r rs le h.0, Ascending-insert_rule r rs h.1)
]

Ascending-sort_rules : (rs : List Rule) → Ascending (sort_rules rs)
unfolding sort_rules
Ascending-sort_rules [] = tt
Ascending-sort_rules (r ∷ rs) = Ascending-insert_rule r (sort_rules rs) (Ascending-sort_rules rs)

head-filter :
    (p : Rule → floppyguard.Base.Bool) (rs : List Rule) (first : Rule) (rest : List Rule)
    → Ascending rs
    → filter p rs ≡ first ∷ rest
    → (q : Rule) → In q (filter p rs)
    → first.id ≤ q.id
unfolding filter
head-filter p [] first rest h e q m = absurd m
head-filter p (r ∷ rs) first rest h e q m = elim (Bool-cases (p r)) [
  | inr n ↦ head-filter p rs first rest h.1 (rw n at e) q (rw n at m)
  | inl y ↦
      let same : r ≡ first = heads (rw y at e) in
      elim (rw y at m) [
        | inl f ↦ rw (← same, f) (omega arith)
        | inr i ↦ rw (← same) (All_at (λ x. r.id ≤ x.id) q rs h.0 ((In-filter p q rs).0 i).0)
      ]
]
  where
    heads : {a b : Rule} {xs ys : List Rule} → a ∷ xs ≡ b ∷ ys → a ≡ b
    heads g = cc

match_rules-least :
    (q : Query) (ref : RuleRef)
    → (match_rules q).rule ≡ some ref
    → (first : Rule) × (ref ≡ rule_ref first)
      × In first q.rules
      × (rule_covers first q.flow ≡ true)
      × ((r : Rule) → In r q.rules → rule_covers r q.flow ≡ true → ref.id ≤ r.id)
unfolding match_rules
match_rules-least q ref e = go (covering q) refl e
  where
    inj : {a b : RuleRef} → some a ≡ some b → a ≡ b
    inj g = cc

    go :
        (ms : List Rule)
        → covering q ≡ ms
        → head_rule ms ≡ some ref
        → (first : Rule) × (ref ≡ rule_ref first)
          × In first q.rules
          × (rule_covers first q.flow ≡ true)
          × ((r : Rule) → In r q.rules → rule_covers r q.flow ≡ true → ref.id ≤ r.id)
    go [] f g = absurd (cc)
    go (first ∷ rest) f g =
        let p = λ (r : Rule). rule_covers r q.flow in
        let here : In first (covering q) = rw f (inl refl) in
        let (m, c) = (In-filter p first (sort_rules q.rules)).0 here in
        let same : rule_ref first ≡ ref = inj g in
        (
          first,
          sym same,
          (In-sort_rules first q.rules).0 m,
          c,
          (λ r i k. rw (← same) (
              head-filter p (sort_rules q.rules) first rest (Ascending-sort_rules q.rules) f r
                ((In-filter p r (sort_rules q.rules)).1 ((In-sort_rules r q.rules).1 i, k)))),
        )

-- The rule that the tester names covers the flow, and no covering rule has a smaller id: it is the
-- one whose line the filter meets first.
pub evaluate_flow-least :
    (q : Query) (ref : RuleRef)
    → (evaluate_flow q).rule ≡ some ref
    → (first : Rule) × (ref ≡ rule_ref first)
      × In first q.rules
      × (rule_covers first q.flow ≡ true)
      × ((r : Rule) → In r q.rules → rule_covers r q.flow ≡ true → ref.id ≤ r.id)
unfolding evaluate_flow
evaluate_flow-least q ref e = elim (Bool-cases (blocked_of q.isolation)) [
  | inl b ↦ absurd (cc (rw (evaluate_flow, b) at e))
  | inr b ↦ elim (Bool-cases (not (is_via_agent q))) [
    | inl v ↦ absurd (cc (rw (evaluate_flow, b, v) at e))
    | inr v ↦ elim (Bool-cases (is_same_site q)) [
      | inl o ↦ absurd (cc (rw (evaluate_flow, b, v, o) at e))
      | inr o ↦ match_rules-least q ref (rw (evaluate_flow, b, v, o) at e)
    ]
  ]
]
