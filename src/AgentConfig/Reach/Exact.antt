-- ===== src/AgentConfig/Reach/Exact.antt =====
-- `_computeOtherSiteNets` of backend/internal/agent.js gives exactly the networks that an agent may
-- reach.
use floppyguard.Base.{
  ◌≡◌, ◌↔◌, ◌⊎◌, All, refl, Bool, true, false, not, ◌&&◌, Option, none, some, List, [], ◌∷◌, filter,
  any, In, In-filter, inl, inr, Bool-cases, &&_iff, arith,
}
use floppyguard.Base.Text.{Text, includes}
use floppyguard.Base.Text.Laws.{includes_iff}
use floppyguard.Base.{any_find, any_of_In}
use floppyguard.Cidr.{cidr_contains}
use floppyguard.AgentConfig.Reach.{
  SiteMeta, ReachQuery, is_site, inside_own, grants, other_than_own, by_sites, reach_by,
  compute_other_site_nets,
}

-- What the access lists of the agent say of a network.
abbrev pub IsGranted : List SiteMeta → Option (List Text) → Text → Type 0
IsGranted links none n = Unit {0}
IsGranted links (some sites) n =
    (l : SiteMeta) × In l links × (is_site l ≡ true) × In l.name sites × In n l.imported_networks

abbrev pub IsPermitted : ReachQuery → Option (List Text) → Text → Type 0
IsPermitted q (some allowed) n = In n allowed
IsPermitted q none n = IsGranted q.links_by_name q.allowed_sites n

-- Where overlaps are dropped, no network of the agent holds this one.
abbrev pub IsOutside : ReachQuery → Text → Type 0
IsOutside q n = (q.drop_overlaps ≡ false) ⊎ All (λ o. cidr_contains o n ≡ false) q.own_nets

abbrev pub IsReached : ReachQuery → Text → Type 0
IsReached q n =
    In n q.all_site_nets × (¬ In n q.own_nets) × IsPermitted q q.allowed_networks n × IsOutside q n

not_iff : (b : Bool) → (not b ≡ true) ↔ (b ≡ false)
not_iff true = ((λ h. absurd (cc)), (λ h. absurd (cc)))
not_iff false = ((λ h. refl), (λ h. refl))

not_in : (ts : List Text) (t : Text) → (not (includes ts t) ≡ true) ↔ (¬ In t ts)
not_in ts t = elim (Bool-cases (includes ts t)) [
  | inl e ↦ rw e ((λ h. absurd (cc)), (λ h. absurd (h ((includes_iff ts t).0 e))))
  | inr e ↦ rw e ((λ h m. absurd (cc ((includes_iff ts t).1 m))), (λ h. refl))
]

grants_iff :
    (sites : List Text) (n : Text) (l : SiteMeta)
    → (grants sites n l ≡ true) ↔ ((is_site l ≡ true) × In l.name sites × In n l.imported_networks)
grants_iff sites n l = (
  (λ h.
      let (ab, c) =
        (&&_iff (is_site l && includes sites l.name) (includes l.imported_networks n)).0 h in
      let (a, b) = (&&_iff (is_site l) (includes sites l.name)).0 ab in
      (a, (includes_iff sites l.name).0 b, (includes_iff l.imported_networks n).0 c)),
  (λ (a, b, c). (&&_iff (is_site l && includes sites l.name) (includes l.imported_networks n)).1 (
    (&&_iff (is_site l) (includes sites l.name)).1 (a, (includes_iff sites l.name).1 b),
    (includes_iff l.imported_networks n).1 c,
  )),
)

none_of : (p : Text → Bool) (ts : List Text) → (any p ts ≡ false) ↔ All (λ t. p t ≡ false) ts
unfolding any
none_of p [] = ((λ h. tt), (λ h. refl))
none_of p (t ∷ ts) = ground (arith, none_of p ts)

IsOutside-iff : (q : ReachQuery) (n : Text) → (not (inside_own q n) ≡ true) ↔ IsOutside q n
IsOutside-iff q n = both q.drop_overlaps (none_of (λ o. cidr_contains o n) q.own_nets)
  where
    both :
        (b : Bool) {c : Bool} {A : Type 0}
        → (c ≡ false) ↔ A
        → (not (b && c) ≡ true) ↔ ((b ≡ false) ⊎ A)
    both true {c} h = (
      (λ e. inr (h.0 ((not_iff c).0 e))),
      (λ e. elim e [ inl f ↦ absurd (cc) | inr a ↦ (not_iff c).1 (h.1 a) ]),
    )
    both false h = ((λ _. inl refl), (λ _. refl))

by_sites_iff :
    (links : List SiteMeta) (o : Option (List Text)) (n : Text)
    → (by_sites links o n ≡ true) ↔ IsGranted links o n
by_sites_iff links none n = ((λ _. tt), (λ _. refl))
by_sites_iff links (some sites) n = (
  (λ h.
      let (l, m, e) = any_find (grants sites n) links h in
      let (a, b, c) = (grants_iff sites n l).0 e in (l, m, a, b, c)),
  (λ (l, m, a, b, c). any_of_In (grants sites n) l links m ((grants_iff sites n l).1 (a, b, c))),
)

module _ (q : ReachQuery) (n : Text) where
  kept_iff :
      (p : Text → Bool) (ns : List Text)
      → In n (filter (λ m. not (inside_own q m)) (filter (λ m. other_than_own q m && p m) ns))
        ↔ (In n ns × (¬ In n q.own_nets) × (p n ≡ true) × IsOutside q n)
  kept_iff p ns =
      let outer =
        In-filter (λ m. not (inside_own q m)) n (filter (λ m. other_than_own q m && p m) ns) in
      let inner = In-filter (λ m. other_than_own q m && p m) n ns in
      let both = &&_iff (other_than_own q n) (p n) in
      (
        (λ m.
            let (i, o) = outer.0 m in
            let (j, e) = inner.0 i in
            let (a, b) = both.0 e in (j, (not_in q.own_nets n).0 a, b, (IsOutside-iff q n).0 o)),
        (λ (j, a, b, o).
            outer.1 (inner.1 (j, both.1 ((not_in q.own_nets n).1 a, b)), (IsOutside-iff q n).1 o)),
      )

  reach_by_iff :
      (o : Option (List Text))
      → In n (reach_by q o).nets
        ↔ (In n q.all_site_nets × (¬ In n q.own_nets) × IsPermitted q o n × IsOutside q n)
  reach_by_iff (some allowed) =
      let k = kept_iff (includes q.all_site_nets) allowed in
      let i = includes_iff q.all_site_nets n in
      ((λ m. let (a, b, c, d) = k.0 m in (i.0 c, b, a, d)), (λ (a, b, c, d). k.1 (c, b, i.1 a, d)))
  reach_by_iff none =
      let k = kept_iff (by_sites q.links_by_name q.allowed_sites) q.all_site_nets in
      let s = by_sites_iff q.links_by_name q.allowed_sites n in
      ((λ m. let (a, b, c, d) = k.0 m in (a, b, s.0 c, d)), (λ (a, b, c, d). k.1 (a, b, s.1 c, d)))

-- The networks of an agent's reach are exactly those that some site exports, that are not its own,
-- that its list of networks names or, where it has none, that a site on its list of sites exports
-- (every network where it has no list), and that, where overlaps are dropped, lie in none of its own.
pub compute_other_site_nets-IsReached :
    (q : ReachQuery) (n : Text) → In n (compute_other_site_nets q).nets ↔ IsReached q n
unfolding compute_other_site_nets
compute_other_site_nets-IsReached q n = reach_by_iff q n q.allowed_networks
