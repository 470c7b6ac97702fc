-- ===== src/Catalog/Upstreams/Hosts.antt =====
-- One destination for each host with an upstream.
use Prim.Native.Nat.{Ordering}
use floppyguard.Base.{
  ◌≡◌, refl, sym, ap, ◌∙◌, Bool, true, false, none, some, List, [], ◌∷◌, ◌++◌, map, inl, inr,
  Bool-cases, Option-cases, if◌then◌else◌, any,
}
use floppyguard.Base.Text.{Text, text_eq, includes}
use floppyguard.Base.Text.Laws.{text_eq_iff}
use floppyguard.Cidr.{canonical_cidr}
use floppyguard.Ingress.{Rule}
use floppyguard.SiteIsolation.{add_unique, uniq_onto}
use floppyguard.Catalog.Upstreams.{
  Shown, Destination, Groups, add_to_group, group_upstreams, destination_of_group,
  upstream_destinations,
}

-- The networks of the upstream hosts, in order.
abbrev pub host_networks : List Shown → List Text
host_networks [] = []
host_networks (u ∷ us) =
    let rest = host_networks us in
    elim (canonical_cidr (u.up).host) [ none ↦ rest | some c ↦ c ∷ rest ]

keys : Groups → List Text
keys [] = []
keys (g ∷ gs) = g.0 ∷ keys gs

keys-add_to_group :
    (c : Text) (u : Shown) (gs : Groups) → keys (add_to_group c u gs) ≡ add_unique (keys gs) c
unfolding add_to_group keys add_unique includes any
keys-add_to_group c u [] = refl
keys-add_to_group c u (g ∷ gs) = elim (Bool-cases (text_eq g.0 c)) [
  | inl e ↦
      let same : g.0 ≡ c = (text_eq_iff g.0 c).0 e in
      let back : text_eq c g.0 ≡ true = (text_eq_iff c g.0).1 (sym same) in rw (e, back) refl
  | inr e ↦ elim (Bool-cases (text_eq c g.0)) [
    | inl f ↦ absurd (cc (e, (text_eq_iff g.0 c).1 (sym ((text_eq_iff c g.0).0 f))))
    | inr f ↦
        rw (e, f)
          (ap (λ (ks : List Text). g.0 ∷ ks) (keys-add_to_group c u gs)
            ∙ push g.0 (includes (keys gs) c) (keys gs) c)
  ]
]
  where
    push :
        (k : Text) (b : Bool) (ks : List Text) (c : Text)
        → k ∷ (if b then ks else ks ++ c ∷ []) ≡ (if b then k ∷ ks else k ∷ (ks ++ c ∷ []))
    push k true ks c = refl
    push k false ks c = refl

keys-group_upstreams :
    (us : List Shown) (gs : Groups)
    → keys (group_upstreams us gs) ≡ uniq_onto (keys gs) (host_networks us)
unfolding group_upstreams uniq_onto
keys-group_upstreams [] gs = refl
keys-group_upstreams (u ∷ us) gs = elim (Option-cases (canonical_cidr (u.up).host)) [
  | inl n ↦ rw (group_upstreams, host_networks, n) (keys-group_upstreams us gs)
  | inr (c, e) ↦
      rw (group_upstreams, host_networks, e)
        (keys-group_upstreams us (add_to_group c u gs)
          ∙ ap (λ (ks : List Text). uniq_onto ks (host_networks us)) (keys-add_to_group c u gs))
]

module _ (locale_compare : Text → Text → Ordering) (rules : List Rule) (hub_hosts : List Text) where
  cidrs-map :
      (gs : Groups)
      → map
          (λ (d : Destination). d.cidrs)
          (map (destination_of_group locale_compare rules hub_hosts) gs)
        ≡ map (λ (c : Text). c ∷ []) (keys gs)
  unfolding keys destination_of_group
  cidrs-map [] = refl
  cidrs-map (g ∷ gs) = ap (λ (ds : List (List Text)). (g.0 ∷ []) ∷ ds) (cidrs-map gs)

  -- The destinations are the networks of the upstream hosts, each once and in the order in which
  -- they first appear; upstreams whose host is no address give none.
  upstream_destinations-hosts :
      (behind : List Shown)
      → map
          (λ (d : Destination). d.cidrs)
          (upstream_destinations locale_compare behind rules hub_hosts)
        ≡ map (λ (c : Text). c ∷ []) (uniq_onto [] (host_networks behind))
  unfolding upstream_destinations keys
  upstream_destinations-hosts behind =
      cidrs-map (group_upstreams behind [])
      ∙ ap (λ (ks : List Text). map (λ (c : Text). c ∷ []) ks) (keys-group_upstreams behind [])
