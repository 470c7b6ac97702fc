-- ===== src/SiteIsolation/Script/Total.antt =====
-- The script is always built, and its lines are those of the plan.
use mathlib.Core.List.{append-nil, append_assoc}
use mathlib.Core.Path.{subst}
use floppyguard.Base.{
  ◌≡◌, refl, sym, ap, ◌∙◌, true, none, some, List, [], ◌∷◌, ◌++◌, All, All-of_In, flat_map, inl,
  inr, Bool-cases,
}
use floppyguard.Base.Text.{Text, codes, join}
use floppyguard.Base.Text.Laws.{text_eq_refl}
use floppyguard.Cidr.{canonical_cidr}
use floppyguard.Result.{Result, ok, for_each}
use floppyguard.SiteIsolation.{Link, Pair, by_id, text_lt}
use floppyguard.SiteIsolation.Site.{site_networks-IsIntervalSet}
use floppyguard.SiteIsolation.Plan.{Site, site_of, plan_site_isolation}
use floppyguard.SiteIsolation.Plan.Known.{FromLink}
use floppyguard.SiteIsolation.Plan.Effective.{
  Placed, plan_site_isolation-sites, plan_site_isolation-FromLink,
}
use floppyguard.SiteIsolation.Script.{
  insert_site, sort_sites, script_head, is_canonical, check_net, set_lines, emit_site, chain_head,
  drop_rule, emit_pair, script_lines, build_site_isolation_nft,
}

-- A loop whose rounds append.
for_each_appends :
    {A : Type 0} (P : A → Type 0) (body : A → List Text → Result (List Text)) (f : A → List Text)
    → ((x : A) (out : List Text) → P x → body x out ≡ ok (out ++ f x))
    → (xs : List A) (out : List Text) → All P xs
    → for_each body xs out ≡ ok (out ++ flat_map f xs)
unfolding for_each flat_map
for_each_appends P body f step [] out h = ap ok (sym (append-nil out))
for_each_appends P body f step (x ∷ xs) out h = rw (step x out h.0) (
    for_each_appends P body f step xs (out ++ f x) h.1
    ∙ ap ok (append_assoc out (f x) (flat_map f xs)))

All-insert_site :
    (P : Site → Type 0) (s : Site) (ss : List Site) → P s → All P ss → All P (insert_site s ss)
unfolding insert_site
All-insert_site P s [] h k = (h, tt)
All-insert_site P s (q ∷ ss) h k = elim (Bool-cases (text_lt q.set s.set)) [
  | inl e ↦ rw e (k.0, All-insert_site P s ss h k.1)
  | inr e ↦ rw e (h, k)
]

All-sort_sites : (P : Site → Type 0) (ss : List Site) → All P ss → All P (sort_sites ss)
unfolding sort_sites
All-sort_sites P [] h = tt
All-sort_sites P (s ∷ ss) h = All-insert_site P s (sort_sites ss) h.0 (All-sort_sites P ss h.1)

is_canonical_lem : (n : Text) → canonical_cidr n ≡ some n → is_canonical n ≡ true
unfolding is_canonical
is_canonical_lem n e = rw (is_canonical, e) (text_eq_refl n)

checks_pass :
    (ns : List Text) → All (λ n. canonical_cidr n ≡ some n) ns → for_each check_net ns tt ≡ ok tt
unfolding for_each check_net
checks_pass [] h = refl
checks_pass (n ∷ ns) h = rw (is_canonical_lem n h.0) (checks_pass ns h.1)

module _ (sha256 nfkd : Text → Text) (links : List Link) where
  site_appends :
      (s : Site) (out : List Text)
      → FromLink sha256 links s
      → emit_site nfkd s out ≡ ok (out ++ set_lines nfkd s)
  unfolding emit_site
  site_appends s out (l, _, e) =
      let canonical : All (λ n. canonical_cidr n ≡ some n) s.nets =
        subst (λ (t : Site). All (λ n. canonical_cidr n ≡ some n) t.nets) (sym e)
          (site_networks-IsIntervalSet l).canonical in
      rw (checks_pass s.nets canonical)

  -- The two rules of a pair, from the links of its ends.
  abbrev pub pair_rules : Pair → List Text
  pair_rules p = elim (by_id links p.a) [
    | none ↦ []
    | some la ↦ elim (by_id links p.b) [
      | none ↦ []
      | some lb ↦
          let x = site_of sha256 p.a la in
          let y = site_of sha256 p.b lb in drop_rule nfkd x y ∷ drop_rule nfkd y x ∷ []
    ]
  ]

  pair_appends :
      (sites : List Site) (p : Pair) (out : List Text)
      → Placed sha256 links sites p.a × Placed sha256 links sites p.b
      → emit_pair nfkd sites p out ≡ ok (out ++ pair_rules p)
  unfolding emit_pair
  pair_appends sites p out ((la, ea, xa), (lb, eb, xb)) =
      rw (emit_pair, pair_rules, xa, xb, ea, eb) refl

  -- The script is always built: no network is refused and no site is missing. It declares one set
  -- for each site of the plan, then for each enforced pair a drop in both directions.
  pub build_site_isolation_nft-eq :
      (pairs : List Pair)
      → build_site_isolation_nft sha256 nfkd links pairs
        ≡ ok (
            join (codes "\n") (
              script_head
              ++ flat_map
                  (set_lines nfkd)
                  (sort_sites (plan_site_isolation sha256 links pairs).sites)
              ++ chain_head
              ++ flat_map pair_rules (plan_site_isolation sha256 links pairs).pairs
              ++ codes "\t}" ∷ codes "}" ∷ [] ∷ []))
  unfolding build_site_isolation_nft script_lines
  build_site_isolation_nft-eq pairs =
      let plan = plan_site_isolation sha256 links pairs in
      let known =
        All-sort_sites (FromLink sha256 links) plan.sites
          (plan_site_isolation-FromLink sha256 links pairs) in
      let placed = All-of_In plan.pairs (λ p m. plan_site_isolation-sites sha256 links pairs p m) in
      let sets =
        for_each_appends (FromLink sha256 links) (emit_site nfkd) (set_lines nfkd) site_appends
          (sort_sites plan.sites) script_head known in
      let rules =
        for_each_appends
          (λ p. Placed sha256 links plan.sites p.a × Placed sha256 links plan.sites p.b)
          (emit_pair nfkd plan.sites) pair_rules (pair_appends plan.sites) plan.pairs
          (script_head ++ flat_map (set_lines nfkd) (sort_sites plan.sites) ++ chain_head) placed in
      rw (script_lines, sets, rules) refl
