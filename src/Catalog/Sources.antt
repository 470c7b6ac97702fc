-- ===== src/Catalog/Sources.antt =====
-- backend/internal/agent-ingress-catalog.js: the source entries of `buildCatalog`, and what it reads.
use floppyguard.Base.{
  ℕ, suc, Bool, true, false, not, ◌&&◌, ◌||◌, Option, none, some, List, [], ◌∷◌, ◌++◌, map, filter,
  any, all, ◌==◌, if◌then◌else◌,
}
use floppyguard.Base.Text.{Text, codes, text_eq, decimal}
use floppyguard.Cidr.{canonical_cidr, cidr_contains}
use floppyguard.SiteIsolation.{ends_with, host_text, uniq_onto}
use floppyguard.Catalog.Prune.{DatedRule}
use floppyguard.Catalog.Upstreams.{Shown, Service, not_empty}

-- A link as the catalog shows it.
pub record CatalogLink : Type 0 where
  pub id : Text
  pub name : Text
  pub type : Text
  pub imported_networks : List Text
  pub tunnel_addresses : List Text
  pub active : Bool

-- An agent that is bound to a link.
pub record LinkAgent : Type 0 where
  pub link_id : Text
  pub preserves_source : Bool

pub record SiteRef : Type 0 where
  pub link_id : Text
  pub own_nets : List Text

pub record Client : Type 0 where
  pub id : Text
  pub label : Text
  pub hosts : List Text

pub record EgressFlow : Type 0 where
  pub id : Text
  pub label : Text
  pub source : Option Text

-- An entry of the source list; fields that the entry lacks are none or empty.
pub record KnownSource : Type 0 where
  pub id : Text
  pub kind : Text
  pub label : Text
  pub cidrs : List Text
  pub names : List Text
  pub online : Option Bool
  pub hint : Option Text
  pub parent : Option Text

pub record CatalogQuery : Type 0 where
  pub agent_id : ℕ
  pub services : List Service
  pub site : Option SiteRef
  pub links : List CatalogLink
  pub link_agents : List LinkAgent
  pub hub_nets : List Text
  pub hub_hosts : List Text
  pub tunnel_nets : List Text
  pub iface : Text
  pub egress_flows : List EgressFlow
  pub clients : List Client
  pub behind : List Shown
  pub rules : List DatedRule
  pub mode : Text
  pub now : ℕ
  pub applied_state : Option Text

abbrev pub simple_source : Text → Text → Text → List Text → KnownSource
simple_source id kind label cidrs = record {
  id = id;
  kind = kind;
  label = label;
  cidrs = cidrs;
  names = [];
  online = none;
  hint = none;
  parent = none;
}

-- `list.map(canonicalCidr).filter(Boolean)`.
unfoldable pub canonical_nets : List Text → List Text
canonical_nets [] = []
canonical_nets (n ∷ ns) =
    let rest = canonical_nets ns in elim (canonical_cidr n) [ none ↦ rest | some c ↦ c ∷ rest ]

abbrev pub in_hub : CatalogQuery → Text → Bool
in_hub q n = any (λ h. cidr_contains h n) q.hub_nets

abbrev pub is_own_site : Option SiteRef → Text → Bool
is_own_site none id = false
is_own_site (some s) id = text_eq id s.link_id

abbrev pub has_none : List Text → Bool
has_none [] = true
has_none (_ ∷ _) = false

unfoldable pub egress_sources : List EgressFlow → List KnownSource
egress_sources [] = []
egress_sources (f ∷ fs) =
    let rest = egress_sources fs in
    elim f.source [
      | none ↦ rest
      | some s ↦ elim (canonical_cidr s) [
        | none ↦ rest
        | some c ↦
            simple_source (codes "egress:" ++ f.id) (codes "hub-egress") f.label (c ∷ []) ∷ rest
      ]
    ]

-- `tunnelAddresses` as /32 networks.
unfoldable pub tunnel_hosts : List Text → List Text
unfolding canonical_nets ends_with filter uniq_onto
tunnel_hosts addresses =
    uniq_onto [] (filter (ends_with (codes "/32")) (canonical_nets (map host_text addresses)))

abbrev pub masquerades : List LinkAgent → Bool
masquerades [] = false
masquerades (a ∷ rest) = all (λ b. not b.preserves_source) (a ∷ rest)

abbrev pub site_entry : CatalogQuery → CatalogLink → List Text → List Text → KnownSource
site_entry q l nets tunnel = record {
  id = codes "site:" ++ l.id;
  kind = codes "site";
  label = l.name;
  cidrs = nets ++ tunnel;
  names = [];
  online = some l.active;
  hint =
      if masquerades (filter (λ a. text_eq a.link_id l.id) q.link_agents)
      then some (codes "masquerade")
      else none;
  parent = none;
}

abbrev pub net_entry : CatalogLink → Text → KnownSource
net_entry l n = record {
  id = codes "site-net:" ++ l.id ++ (b':' ∷ n);
  kind = codes "site-net";
  label = n;
  cidrs = n ∷ [];
  names = [];
  online = some l.active;
  hint = none;
  parent = some (codes "site:" ++ l.id);
}

-- The loop over the links: names of sites that arrive as the hub, and entries of the others.
pub record SiteLists : Type 0 where
  pub hub_names : List Text
  pub entries : List KnownSource

unfoldable pub site_round : CatalogQuery → CatalogLink → SiteLists → SiteLists
unfolding canonical_nets tunnel_hosts filter uniq_onto any all
site_round q l out =
    let nets = uniq_onto [] (canonical_nets l.imported_networks) in
    let own = filter (λ n. not (in_hub q n)) nets in
    let tunnel = tunnel_hosts l.tunnel_addresses in
    if not (not_empty l.id) || text_eq l.type (codes "client") || is_own_site q.site l.id
    then out
    else (if not (has_none nets) && has_none own
        then record out { hub_names = out.hub_names ++ l.name ∷ [] }
        else (if has_none own && has_none tunnel then out else record out {
          entries = out.entries ++ (site_entry q l own tunnel ∷ map (net_entry l) own);
        }))

unfoldable pub site_rounds : CatalogQuery → List CatalogLink → SiteLists → SiteLists
unfolding site_round
site_rounds q [] out = out
site_rounds q (l ∷ ls) out = site_rounds q ls (site_round q l out)

unfoldable pub link_at : List CatalogLink → Text → Option CatalogLink
link_at [] id = none
link_at (l ∷ ls) id =
    let later = link_at ls id in
    elim later [ some k ↦ some k | none ↦ if text_eq l.id id then some l else none ]

abbrev pub online_of : Option CatalogLink → Option Bool
online_of none = none
online_of (some l) = some l.active

unfoldable pub client_sources : CatalogQuery → List Client → List KnownSource
unfolding link_at uniq_onto
client_sources q [] = []
client_sources q (c ∷ cs) =
    let rest = client_sources q cs in
    if is_own_site q.site c.id
    then rest
    else record (simple_source (codes "client:" ++ c.id) (codes "client") c.label
        (uniq_onto [] c.hosts)) { online = online_of (link_at q.links c.id) }
      ∷ rest

unfoldable pub tunnel_sources : Text → ℕ → List Text → List KnownSource
tunnel_sources iface i [] = []
tunnel_sources iface i (n ∷ ns) =
    let id = codes "tunnel:" ++ iface ++ (if i == 0 then [] else b':' ∷ decimal i) in
    simple_source id (codes "tunnel") n (n ∷ []) ∷ tunnel_sources iface (suc i) ns

abbrev pub hub_entry : CatalogQuery → List Text → KnownSource
hub_entry q names = record {
  id = codes "hub";
  kind = codes "hub";
  label = codes "hub";
  cidrs = uniq_onto [] (canonical_nets q.hub_hosts);
  names = uniq_onto [] names;
  online = none;
  hint = some (codes "snat-hub-lan");
  parent = none;
}

abbrev pub sites_of : CatalogQuery → SiteLists
sites_of q = site_rounds q q.links (record { hub_names = []; entries = [] })

abbrev pub link_found : CatalogQuery → Bool
link_found q = elim q.site [ none ↦ false | some _ ↦ true ]

unfoldable pub catalog_sources : CatalogQuery → List KnownSource
unfolding egress_sources site_rounds client_sources tunnel_sources canonical_nets uniq_onto
catalog_sources q =
    let sites = sites_of q in
    let hub = hub_entry q sites.hub_names in
    (if has_none hub.cidrs then [] else hub ∷ [])
    ++ egress_sources q.egress_flows
    ++ (if link_found q then sites.entries else [])
    ++ client_sources q q.clients
    ++ tunnel_sources q.iface 0 q.tunnel_nets
