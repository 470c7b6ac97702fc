-- ===== src/Catalog/Build.antt =====
-- `buildCatalog`: the known sources and destinations of an agent.
use Prim.Native.Nat.{Ordering}
use floppyguard.Base.{
  ℕ, Bool, true, false, not, ◌&&◌, ◌||◌, Option, none, some, List, [], ◌∷◌, ◌++◌, map, filter, any,
  flat_map, ltb, ◌==◌, if◌then◌else◌,
}
use floppyguard.Base.Text.{Text, codes, text_eq}
use floppyguard.SiteIsolation.{uniq_onto}
use floppyguard.Catalog.Prune.{DatedRule, Candidate, prune_candidates}
use floppyguard.Catalog.Upstreams.{
  Shown, Destination, Url, has_cidr, merge_ports, sort_ports, upstream_destinations,
  service_destinations,
}
use floppyguard.Catalog.Sources.{
  KnownSource, CatalogQuery, canonical_nets, in_hub, egress_sources, link_found, catalog_sources,
}

abbrev pub own_no_hub : CatalogQuery → List Text
own_no_hub q = elim q.site [ none ↦ [] | some s ↦ filter (λ n. not (in_hub q n)) s.own_nets ]

-- A service joins the upstream destination of the same network, or stands for itself.
abbrev pub same_cidr : Destination → Destination → Bool
same_cidr a b = elim a.cidrs [ [] ↦ false | c ∷ cs ↦ has_cidr c b ]

abbrev pub dest_group : Text → ℕ
dest_group kind =
    if text_eq kind (codes "service")
    then 1
    else (if text_eq kind (codes "network")
        then 2
        else (if text_eq kind (codes "proxy-host")
              || text_eq kind (codes "stream")
              || text_eq kind (codes "manual")
              || text_eq kind (codes "hub-egress")
            then 0
            else 3))

abbrev pub net_destination : Text → Destination
net_destination n = record {
  id = codes "net:" ++ n;
  kind = codes "network";
  label = n;
  names = [];
  cidrs = n ∷ [];
  ports = [];
  host = none;
}

module _ (locale_compare : Text → Text → Ordering) (parse_url : Text → Option Url) where
  unfoldable pub join_service : Destination → List Destination → List Destination
  unfolding merge_ports sort_ports uniq_onto any
  join_service s [] = s ∷ []
  join_service s (u ∷ us) =
      let rest = join_service s us in
      if same_cidr s u
      then (record u {
        names = uniq_onto [] (u.names ++ s.names);
        ports = sort_ports locale_compare (merge_ports u.ports s.ports);
      })
        ∷ us
      else u ∷ rest

  unfoldable pub join_services : List Destination → List Destination → List Destination
  unfolding join_service
  join_services [] ups = ups
  join_services (s ∷ ss) ups = join_services ss (join_service s ups)

  abbrev pub destination_before : Destination → Destination → Bool
  destination_before a b =
      ltb (dest_group a.kind) (dest_group b.kind)
      || (dest_group a.kind == dest_group b.kind
          && (elim (locale_compare a.label b.label) [ Ordering.lt ↦ true | _ ↦ false ]))

  unfoldable pub insert_destination : Destination → List Destination → List Destination
  insert_destination d [] = d ∷ []
  insert_destination d (e ∷ es) =
      let rest = insert_destination d es in if destination_before e d then e ∷ rest else d ∷ e ∷ es

  unfoldable pub sort_destinations : List Destination → List Destination
  unfolding insert_destination
  sort_destinations [] = []
  sort_destinations (d ∷ ds) = insert_destination d (sort_destinations ds)

  unfoldable pub catalog_destinations : CatalogQuery → List Destination
  unfolding sort_destinations join_services upstream_destinations service_destinations filter any
  catalog_destinations q =
      let rules = map (λ (d : DatedRule). d.rule) q.rules in
      let known = upstream_destinations locale_compare q.behind rules q.hub_hosts in
      let own = own_no_hub q in
      let services =
        service_destinations locale_compare parse_url q.services (some own) q.agent_id in
      sort_destinations (
        if link_found q
        then join_services services known ++ map net_destination own
        else service_destinations locale_compare parse_url q.services none q.agent_id)

-- The sources of the hub itself, of which the offer to switch off unused rules speaks.
abbrev pub hub_srcs_of : CatalogQuery → List Text
hub_srcs_of q =
    uniq_onto [] (canonical_nets q.hub_hosts)
    ++ flat_map (λ (s : KnownSource). s.cidrs) (egress_sources q.egress_flows)

pub record Catalog : Type 0 where
  pub agent_id : ℕ
  pub found : Bool
  pub sources : List KnownSource
  pub destinations : List Destination
  pub prune : List Candidate

module _ (locale_compare : Text → Text → Ordering) (parse_url : Text → Option Url)
    (date_parse : Text → Option ℕ) where
  unfoldable pub build_catalog : CatalogQuery → Catalog
  unfolding catalog_sources catalog_destinations prune_candidates canonical_nets uniq_onto
      egress_sources flat_map
  build_catalog q = record {
    agent_id = q.agent_id;
    found = link_found q;
    sources = catalog_sources q;
    destinations = catalog_destinations locale_compare parse_url q;
    prune = prune_candidates date_parse (record {
      rules = q.rules;
      behind = map (λ (u : Shown). u.up) q.behind;
      hub_srcs = hub_srcs_of q;
      mode = q.mode;
      now = q.now;
      link_found = link_found q;
      applied_state = q.applied_state;
    });
  }
