-- ===== src/AgentConfig/Reach.antt =====
-- backend/internal/agent.js: the networks that an agent may reach (`_computeOtherSiteNets`), what
-- they are computed from (`_parseAllowedSites`, `_collectSiteNetworks`, `_meshIndex`), and the
-- AllowedIPs of its hub peer (`_computeHubPeerAllowedIPs`).
pub mod Exact
use floppyguard.Base.{
  ℕ, zero, suc, ◌+◌, Bool, true, false, not, ◌&&◌, ◌||◌, Option, none, some, List, [], ◌∷◌, ◌++◌,
  any, filter, flat_map, length, map, ltb, ◌==◌, if◌then◌else◌,
}
use floppyguard.Base.Text.{Text, codes, text_eq, includes, trim}
use floppyguard.Json.{Json, undefined, null, arr, items, string_of}
use floppyguard.Cidr.{cidr_contains}
use floppyguard.SiteIsolation.{uniq_onto}
use floppyguard.DirectLink.Peers.{sort_texts}
use floppyguard.WireGuard.Networks.{is_acceptable_network_prefix}
use floppyguard.AgentConfig.Sections.{not_blank}

-- A link of the metadata; an empty name or type stands for none.
pub record SiteMeta : Type 0 where
  pub name : Text
  pub type : Text
  pub imported_networks : List Text

-- `String(v)`
abbrev pub plain_text : Json → Text
plain_text undefined = codes "undefined"
plain_text null = codes "null"
plain_text v = string_of v

abbrev pub site_set : List Json → Option (List Text)
site_set [] = none
site_set (v ∷ vs) = some (uniq_onto [] (filter not_blank (map (λ w. trim (plain_text w)) (v ∷ vs))))

abbrev pub listed_sites : Option Json → Option (List Text)
listed_sites (some (arr vs)) = site_set (items vs)
listed_sites _ = none

-- `parse` is `JSON.parse`, `none` where it throws.
unfoldable pub parse_allowed_sites : (Text → Option Json) → Option Text → Option (List Text)
unfolding uniq_onto filter trim string_of
parse_allowed_sites parse none = none
parse_allowed_sites parse (some raw) = if length raw == 0 then none else listed_sites (parse raw)

abbrev pub is_site : SiteMeta → Bool
is_site l = not (text_eq l.type (codes "client"))

unfoldable pub collect_site_networks : List SiteMeta → List Text
unfolding uniq_onto filter flat_map is_acceptable_network_prefix text_eq
collect_site_networks links = uniq_onto [] (
    filter is_acceptable_network_prefix
      (flat_map (λ (l : SiteMeta). l.imported_networks) (filter is_site links)))

unfoldable pub name_count : Text → List SiteMeta → ℕ
unfolding text_eq
name_count name [] = 0
name_count name (l ∷ ls) =
    (if not_blank l.name && text_eq l.name name then 1 else 0) + name_count name ls

abbrev pub is_ambiguous : List SiteMeta → Text → Bool
is_ambiguous links name = ltb 1 (name_count name links)

-- The links by name, and the networks of the sites.
pub record MeshIndex : Type 0 where
  pub links_by_name : List SiteMeta
  pub all_site_nets : List Text
  pub ambiguous : Text → Bool

unfoldable pub mesh_index : List SiteMeta → MeshIndex
unfolding filter collect_site_networks name_count
mesh_index links = record {
  links_by_name =
      filter (λ (l : SiteMeta). not_blank l.name && not (is_ambiguous links l.name)) links;
  all_site_nets = collect_site_networks links;
  ambiguous = is_ambiguous links;
}

-- `allowed_networks` and `allowed_sites` are `none` where the agent has no such list.
pub record ReachQuery : Type 0 where
  pub allowed_networks : Option (List Text)
  pub allowed_sites : Option (List Text)
  pub all_site_nets : List Text
  pub own_nets : List Text
  pub links_by_name : List SiteMeta
  pub drop_overlaps : Bool

pub record OtherNets : Type 0 where
  pub nets : List Text
  pub orphans : List Text
  pub overlaps : List Text
  pub supernets : List Text

abbrev pub inside_own : ReachQuery → Text → Bool
inside_own q n = q.drop_overlaps && any (λ o. cidr_contains o n) q.own_nets

abbrev pub covers_own : ReachQuery → Text → Bool
covers_own q n = q.drop_overlaps && not (inside_own q n) && any (λ o. cidr_contains n o) q.own_nets

abbrev pub split_nets : ReachQuery → List Text → List Text → OtherNets
split_nets q orphans nets = record {
  nets = filter (λ n. not (inside_own q n)) nets;
  orphans = orphans;
  overlaps = filter (inside_own q) nets;
  supernets = filter (covers_own q) nets;
}

-- A site whose name is on the list exports the network.
abbrev pub grants : List Text → Text → SiteMeta → Bool
grants sites n l = is_site l && includes sites l.name && includes l.imported_networks n

-- Without a list of sites every site is allowed.
abbrev pub by_sites : List SiteMeta → Option (List Text) → Text → Bool
by_sites links none n = true
by_sites links (some sites) n = any (grants sites n) links

abbrev pub other_than_own : ReachQuery → Text → Bool
other_than_own q n = not (includes q.own_nets n)

abbrev pub reach_by : ReachQuery → Option (List Text) → OtherNets
reach_by q (some allowed) =
    split_nets q (filter (λ n. other_than_own q n && not (includes q.all_site_nets n)) allowed)
      (filter (λ n. other_than_own q n && includes q.all_site_nets n) allowed)
reach_by q none =
    split_nets q [] (
      filter (λ n. other_than_own q n && by_sites q.links_by_name q.allowed_sites n)
        q.all_site_nets)

-- The lists of networks, of sites, and neither, in this order of priority.
unfoldable pub compute_other_site_nets : ReachQuery → OtherNets
unfolding filter any includes text_eq
compute_other_site_nets q = reach_by q q.allowed_networks

unfoldable pub compute_hub_peer_allowed_ips : Text → List Text → List Text
unfolding sort_texts uniq_onto
compute_hub_peer_allowed_ips tunnel_subnet nets = sort_texts (uniq_onto [] (tunnel_subnet ∷ nets))
