-- ===== src/SiteIsolation/Plan.antt =====
-- `planSiteIsolation`: which pairs can be enforced, the sites they need, and the warnings.
pub mod Known
pub mod Effective
use floppyguard.Base.{
  ℕ, Bool, true, false, not, ◌&&◌, ◌||◌, Option, none, some, List, [], ◌∷◌, ◌++◌, map, filter, any,
  flat_map, length, ◌==◌, if◌then◌else◌,
}
use floppyguard.Base.Text.{Text, codes, text_eq, includes, join}
use floppyguard.Cidr.{cidr_overlaps}
use floppyguard.Ingress.{take}
use floppyguard.SiteIsolation.{
  Link, Pair, Reason, ipv6_unsupported, invalid, default_route, Skipped, Networks, is_site_link,
  by_id, site_networks,
}

pub record Site : Type 0 where
  pub id : Text
  pub name : Text
  pub set : Text
  pub nets : List Text

-- A warning with what its text is made of.
pub data Warning : Type 0 where
  network_skipped : (link_id name : Text) → Skipped → Warning
  link_missing : (link_id : Text) → Pair → Warning
  link_not_site : (link_id name : Text) → Pair → Warning
  no_networks : (link_id name other : Text) → Pair → Warning
  overlap : (name_a name_b : Text) → Pair → List Text → Warning

unfoldable pub skipped_message : Text → Text → Reason → Text
skipped_message name value default_route =
    name ++ codes ": Standardroute " ++ value ++ codes " wird für die Trennung ignoriert"
skipped_message name value ipv6_unsupported =
    name ++ codes ": IPv6-Netz " ++ value ++ codes " wird von der Standort-Trennung nicht erfasst"
skipped_message name value invalid =
    name ++ codes ": ungültiges Netz " ++ value ++ codes " wird ignoriert"

unfoldable pub message : Warning → Text
message (network_skipped id name s) = skipped_message name s.value s.reason
message (link_missing id p) =
    codes "Standort " ++ id ++ codes " existiert nicht mehr — diese Trennung wird übersprungen"
message (link_not_site id name p) =
    name ++ codes " ist kein Standort-Link mehr — diese Trennung wird übersprungen"
message (no_networks id name other p) =
    name ++ codes " hat keine Netze — die Trennung zu " ++ other ++ codes " greift nicht"
message (overlap a b p nets) =
    a
    ++ codes " und "
    ++ b
    ++ codes " haben überlappende Netze ("
    ++ join (codes ", ") nets
    ++ codes ") — Verkehr darin wird ebenfalls verworfen"

pub record Plan : Type 0 where
  pub sites : List Site
  pub pairs : List Pair
  pub warnings : List Warning

-- `sites.get(id)`: an id is put into the map only once.
unfoldable pub site_at : List Site → Text → Option Site
site_at [] id = none
site_at (s ∷ ss) id = let rest = site_at ss id in if text_eq s.id id then some s else rest

abbrev pub or_id : Text → Text → Text
or_id [] id = id
or_id (c ∷ name) id = c ∷ name

-- `sha256` is the hexadecimal digest of `node:crypto`.
module _ (sha256 : Text → Text) where
  unfoldable pub site_set_name : Text → Text
  site_set_name link_id = codes "site_" ++ take 10 (sha256 link_id)

  abbrev pub site_of : Text → Link → Site
  site_of id l = record {
    id = id;
    name = or_id l.name id;
    set = site_set_name id;
    nets = (site_networks l).nets;
  }

  abbrev pub add_site : Text → Link → Plan → Plan
  add_site id l st = record st {
    sites = st.sites ++ site_of id l ∷ [];
    warnings =
        st.warnings ++ map (λ s. network_skipped id (or_id l.name id) s) (site_networks l).skipped;
  }

  -- `siteFor`, the map and the warnings passed along.
  unfoldable pub site_for : Text → Link → Plan → Site × Plan
  site_for id l st = elim (site_at st.sites id) [
    | some s ↦ (s, st)
    | none ↦ (site_of id l, add_site id l st)
  ]

abbrev pub warn : List Warning → Plan → Plan
warn ws st = record st { warnings = st.warnings ++ ws }

abbrev pub is_empty : List Text → Bool
is_empty [] = true
is_empty (_ ∷ _) = false

abbrev pub missing_of : List Link → Pair → List Text
missing_of links p =
    filter (λ id. elim (by_id links id) [ none ↦ true | some _ ↦ false ]) (p.a ∷ p.b ∷ [])

-- The end of a round, for two sites.
unfoldable pub join_sites : Pair → Site → Site → Plan → Plan
join_sites p x y st =
    if is_empty x.nets || is_empty y.nets
    then warn
        (map (λ (e : Site × Text). no_networks (e.0).id (e.0).name e.1 p)
          (filter (λ (e : Site × Text). is_empty (e.0).nets) ((x, y.name) ∷ (y, x.name) ∷ [])))
        st
    else (let shared = filter (λ n. any (cidr_overlaps n) y.nets) x.nets in
        let warned =
          if is_empty shared then st else warn (overlap x.name y.name p shared ∷ []) st in
        record warned { pairs = warned.pairs ++ p ∷ [] })

module _ (sha256 : Text → Text) where
  unfoldable pub plan_links : Pair → Link → Link → Plan → Plan
  unfolding site_for join_sites filter
  plan_links p la lb st =
      if is_site_link la && is_site_link lb
      then (let first = site_for sha256 p.a la st in
          let second = site_for sha256 p.b lb first.1 in join_sites p first.0 second.0 second.1)
      else warn
          (map (λ (e : Text × Link). link_not_site e.0 (or_id (e.1).name e.0) p)
            (filter (λ (e : Text × Link). not (is_site_link e.1)) ((p.a, la) ∷ (p.b, lb) ∷ [])))
          st

  unfoldable pub plan_round : List Link → Pair → Plan → Plan
  unfolding plan_links filter
  plan_round links p st = elim (by_id links p.a) [
    | none ↦ warn (map (λ id. link_missing id p) (missing_of links p)) st
    | some la ↦ elim (by_id links p.b) [
      | none ↦ warn (map (λ id. link_missing id p) (missing_of links p)) st
      | some lb ↦ plan_links p la lb st
    ]
  ]

  unfoldable pub plan_rounds : List Link → List Pair → Plan → Plan
  unfolding plan_round
  plan_rounds links [] st = st
  plan_rounds links (p ∷ ps) st = plan_rounds links ps (plan_round links p st)

  -- Only the sites of an enforced pair stay.
  abbrev pub drop_unused : Plan → Plan
  drop_unused st = record st {
    sites = filter (λ s. includes (flat_map (λ p. p.a ∷ p.b ∷ []) st.pairs) s.id) st.sites;
  }

  unfoldable pub plan_site_isolation : List Link → List Pair → Plan
  unfolding plan_rounds includes filter flat_map
  plan_site_isolation links pairs =
      drop_unused (plan_rounds links pairs (record { sites = []; pairs = []; warnings = [] }))
