-- ===== src/AgentConfig/Sync.antt =====
-- backend/internal/agent.js: `_syncOneAgent`, which brings the stored config of an agent in line with
-- the metadata, and `stripToTunnelOnly` for an agent without a link.
pub mod Blank
pub mod Joined
pub mod Written
pub mod Exact
pub mod Stripped
use floppyguard.Base.{
  ℕ, Bool, true, false, not, ◌&&◌, ◌||◌, Option, none, some, List, [], ◌∷◌, ◌++◌, filter, length,
  ◌==◌, if◌then◌else◌,
}
use floppyguard.Base.Text.{Text, codes, text_eq, join}
use floppyguard.Json.{Json, undefined, null, bool, num, str}
use floppyguard.Result.{Result, ok, err, ◌>>=◌}
use floppyguard.SiteIsolation.{ends_with, uniq_onto}
use floppyguard.DirectLink.Peers.{sort_texts}
use floppyguard.AgentConfig.Sections.{parse_hub_peer_allowed_ips, rewrite_hub_peer_allowed_ips}
use floppyguard.AgentConfig.Endpoint.{sanitize_hub_host, rewrite_hub_peer_endpoint}
use floppyguard.AgentConfig.Hooks.{HookOptions, sanitize_wg_interface}
use floppyguard.AgentConfig.Tunnel.{derive_tunnel_subnet}
use floppyguard.AgentConfig.Normalize.{normalize_agent_config}
use floppyguard.AgentConfig.Reach.{
  SiteMeta, is_site, MeshIndex, ReachQuery, OtherNets, parse_allowed_sites, compute_other_site_nets,
  compute_hub_peer_allowed_ips,
}

-- An agent's row; a text that is null is empty here.
pub record AgentRow : Type 0 where
  pub wg_link_name : Text
  pub wg_interface : Text
  pub allowed_networks : Option Text
  pub allowed_sites : Option Text
  pub preserve_lan_source_ip : Json
  pub config_text : Text
  pub config_hash : Option Text

unfoldable pub sanitize_bool : Json → Bool → Bool
unfolding text_eq
sanitize_bool undefined dflt = dflt
sanitize_bool null dflt = dflt
sanitize_bool (bool b) dflt = b
sanitize_bool (num s) dflt = text_eq s (codes "1")
sanitize_bool (str s) dflt = text_eq s (codes "true") || text_eq s (codes "1")
sanitize_bool v dflt = false

pub record Synced : Type 0 where
  pub config_text : Text
  pub config_hash : Option Text
  pub allowed_ips : List Text
  pub masquerade_nets : List Text
  pub endpoint_changed : Bool
  pub allowed_changed : Bool

pub data SyncResult : Type 0 where
  ambiguous_link_name : SyncResult
  no_link_or_config : SyncResult
  in_sync : SyncResult
  synced : Synced → SyncResult

unfoldable pub link_named : Text → List SiteMeta → Option SiteMeta
unfolding text_eq
link_named name [] = none
link_named name (l ∷ ls) =
    let rest = link_named name ls in if text_eq l.name name then some l else rest

abbrev pub joined_nets : List Text → Text
joined_nets nets = join (b',' ∷ []) nets

abbrev pub same_hash : Option Text → Option Text → Bool
same_hash none none = true
same_hash (some a) (some b) = text_eq a b
same_hash _ _ = false

-- What the texts of a sync are computed from.
pub record Env : Type 0 where
  pub parse : Text → Option Json
  pub sha256 : Text → Text
  pub to_lower : Text → Text
  pub wg_hub_host : Text

abbrev pub hash_config : (Text → Text) → Text → Option Text
hash_config sha256 [] = none
hash_config sha256 (c ∷ s) = some (sha256 (c ∷ s))

unfoldable pub query_of : Env → AgentRow → SiteMeta → MeshIndex → ReachQuery
unfolding parse_allowed_sites uniq_onto text_eq
query_of env agent l mesh = record {
  allowed_networks = parse_allowed_sites env.parse agent.allowed_networks;
  allowed_sites = parse_allowed_sites env.parse agent.allowed_sites;
  all_site_nets = mesh.all_site_nets;
  own_nets = uniq_onto [] l.imported_networks;
  links_by_name = mesh.links_by_name;
  drop_overlaps = is_site l;
}

unfoldable pub agent_other_site_nets : Env → AgentRow → SiteMeta → MeshIndex → OtherNets
unfolding compute_other_site_nets query_of
agent_other_site_nets env agent l mesh = compute_other_site_nets (query_of env agent l mesh)

-- The hooks keep the source address of clients only at a site with the flag on.
abbrev pub local_nets_of : AgentRow → SiteMeta → List Text
local_nets_of agent l =
    if is_site l && sanitize_bool agent.preserve_lan_source_ip false
    then uniq_onto [] l.imported_networks
    else []

abbrev pub allowed_differs : Text → List Text → Bool
allowed_differs config new =
    not (text_eq (joined_nets new) (joined_nets (sort_texts (parse_hub_peer_allowed_ips config))))

-- The config with the new AllowedIPs and the new endpoint.
unfoldable pub with_allowed : Text → List Text → Text
unfolding rewrite_hub_peer_allowed_ips parse_hub_peer_allowed_ips sort_texts join text_eq
with_allowed config new =
    if allowed_differs config new then rewrite_hub_peer_allowed_ips config new else config

unfoldable pub new_allowed_ips : Env → AgentRow → SiteMeta → MeshIndex → List Text
unfolding agent_other_site_nets compute_hub_peer_allowed_ips derive_tunnel_subnet
new_allowed_ips env agent l mesh =
    compute_hub_peer_allowed_ips (derive_tunnel_subnet agent.config_text)
      (agent_other_site_nets env agent l mesh).nets

unfoldable pub new_config : Env → AgentRow → SiteMeta → MeshIndex → Result Text
unfolding with_allowed rewrite_hub_peer_endpoint sanitize_hub_host normalize_agent_config
    sanitize_wg_interface new_allowed_ips agent_other_site_nets sort_texts sanitize_bool uniq_onto
    text_eq
new_config env agent l mesh =
    let rewritten =
      rewrite_hub_peer_endpoint env.to_lower
        (with_allowed agent.config_text (new_allowed_ips env agent l mesh))
        (sanitize_hub_host env.wg_hub_host) in
    sanitize_wg_interface agent.wg_interface >>= λ iface.
    normalize_agent_config rewritten (sort_texts (agent_other_site_nets env agent l mesh).nets)
      (record { iface = iface; local_nets = local_nets_of agent l })

abbrev pub outcome : Env → AgentRow → SiteMeta → MeshIndex → Text → SyncResult
outcome env agent l mesh config =
    let allowed = with_allowed agent.config_text (new_allowed_ips env agent l mesh) in
    if same_hash (hash_config env.sha256 config) agent.config_hash
    then in_sync
    else synced (record {
      config_text = config;
      config_hash = hash_config env.sha256 config;
      allowed_ips = new_allowed_ips env agent l mesh;
      masquerade_nets = sort_texts (agent_other_site_nets env agent l mesh).nets;
      endpoint_changed = not (
          text_eq
            (rewrite_hub_peer_endpoint env.to_lower allowed (sanitize_hub_host env.wg_hub_host))
            allowed);
      allowed_changed = allowed_differs agent.config_text (new_allowed_ips env agent l mesh);
    })

-- `synced` stands for the row that is written.
unfoldable pub sync_one_agent : Env → AgentRow → MeshIndex → Result SyncResult
unfolding link_named new_config with_allowed new_allowed_ips agent_other_site_nets
    rewrite_hub_peer_endpoint sanitize_hub_host sort_texts text_eq parse_hub_peer_allowed_ips join
sync_one_agent env agent mesh =
    if mesh.ambiguous agent.wg_link_name
    then ok ambiguous_link_name
    else elim (link_named agent.wg_link_name mesh.links_by_name) [
      | none ↦ ok no_link_or_config
      | some l ↦
          if length agent.config_text == 0
          then ok no_link_or_config
          else (new_config env agent l mesh >>= λ config. ok (outcome env agent l mesh config))
    ]

abbrev pub is_host_route_text : Text → Bool
is_host_route_text c = ends_with (codes "/32") c || ends_with (codes "/128") c

unfoldable pub strip_to_tunnel_only : Text → Text → Result Text
unfolding sort_texts uniq_onto derive_tunnel_subnet filter ends_with parse_hub_peer_allowed_ips
    rewrite_hub_peer_allowed_ips normalize_agent_config
strip_to_tunnel_only config iface =
    normalize_agent_config
      (rewrite_hub_peer_allowed_ips config (
        sort_texts (
          uniq_onto [] (
            derive_tunnel_subnet config
            ∷ filter is_host_route_text (parse_hub_peer_allowed_ips config)))))
      [] (record { iface = iface; local_nets = [] })
