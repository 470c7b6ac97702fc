-- ===== src/Tests/AgentConfig.antt =====
-- Runs of the code that keeps the configs of the agents.
use floppyguard.Base.{
  ◌≡◌, ◌↔◌, ◌⊎◌, refl, true, none, some, List, [], ◌∷◌, all, any, filter, flat_map, In, All,
  if◌then◌else◌,
}
use floppyguard.Base.Text.{
  Text, codes, text_eq, includes, split, join, trim, trim_start, is_space, is_digit, is_number,
  number_from, decimal, decimal_from,
}
use floppyguard.Json.{null}
use floppyguard.Result.{ok, for_each}
use floppyguard.Ingress.{strip, is_wg_iface}
use floppyguard.Cidr.{ip_to_int, int_to_ip, masked, render, canonical_cidr, block_of, cidr_contains}
use floppyguard.SiteIsolation.{uniq_onto, add_unique, text_lt, ends_with, has_code}
use floppyguard.DirectLink.Peers.{sort_texts, insert_text}
use floppyguard.DirectLink.Config.{assert_cidr, assert_cidrs}
use floppyguard.WireGuard.Dump.{without_returns, lines_of}
use floppyguard.WireGuard.Networks.{
  canonicalize_ipv4_network, behind_slash, is_acceptable_network_prefix,
}
use floppyguard.AgentConfig.Sections.{
  newline, starts, line_kind, behind_equals, listed_nets, nets_of_lines, parse_hub_peer_allowed_ips,
  rewrite_lines, rewrite_hub_peer_allowed_ips,
}
use floppyguard.AgentConfig.Sections.Entries.{IsEntry}
use floppyguard.AgentConfig.Sections.Rewritten.{
  has_list_line, has_hub_list, parse-rewrite_hub_peer_allowed_ips,
}
use floppyguard.AgentConfig.Tunnel.{
  strip_letters, dotted_of, address_here, find_address, derive_tunnel_subnet,
}
use floppyguard.AgentConfig.Endpoint.{
  sanitize_hub_host, digits_of, port_suffix, host_and_port, endpoint_parts, is_ip_host,
  endpoint_line, endpoint_lines, rewrite_hub_peer_endpoint,
}
use floppyguard.AgentConfig.Hooks.{
  sanitize_wg_interface, checked_hook, build_hub_post_up, build_hub_post_down,
}
use floppyguard.AgentConfig.Hooks.Clean.{assert_cidr-IsEntry}
use floppyguard.AgentConfig.Normalize.{
  contains_text, kept_lines, has_table, insert_before_peer, insert_lines, normalize_agent_config,
}
use floppyguard.AgentConfig.Reach.{
  SiteMeta, ReachQuery, parse_allowed_sites, collect_site_networks, name_count, mesh_index,
  compute_other_site_nets, compute_hub_peer_allowed_ips,
}
use floppyguard.AgentConfig.Reach.Exact.{IsReached, compute_other_site_nets-IsReached}
use floppyguard.AgentConfig.Sync.{
  AgentRow, Env, Synced, in_sync, synced, sanitize_bool, link_named, query_of,
  agent_other_site_nets, with_allowed, new_allowed_ips, new_config, sync_one_agent,
  strip_to_tunnel_only,
}
use floppyguard.AgentConfig.Sync.{is_host_route_text}
use floppyguard.AgentConfig.Sync.Stripped.{strip_to_tunnel_only-In}
use floppyguard.AgentConfig.Sync.Exact.{
  IsKept, row_after, sync_one_agent-IsReached, sync_one_agent-settled,
}

run : Unit {0}
unfolding text_eq includes split join trim trim_start is_space is_digit is_number number_from
    decimal decimal_from all any filter flat_map for_each strip is_wg_iface ip_to_int int_to_ip
    masked render canonical_cidr block_of cidr_contains uniq_onto add_unique text_lt ends_with
    has_code sort_texts insert_text assert_cidr assert_cidrs without_returns lines_of
    canonicalize_ipv4_network behind_slash is_acceptable_network_prefix starts line_kind
    behind_equals listed_nets nets_of_lines parse_hub_peer_allowed_ips rewrite_lines
    rewrite_hub_peer_allowed_ips has_list_line strip_letters dotted_of address_here find_address
    derive_tunnel_subnet sanitize_hub_host digits_of port_suffix host_and_port endpoint_parts
    is_ip_host endpoint_line endpoint_lines rewrite_hub_peer_endpoint sanitize_wg_interface
    checked_hook build_hub_post_up build_hub_post_down contains_text kept_lines has_table
    insert_before_peer insert_lines normalize_agent_config parse_allowed_sites collect_site_networks
    name_count mesh_index compute_other_site_nets compute_hub_peer_allowed_ips sanitize_bool
    link_named query_of agent_other_site_nets with_allowed new_allowed_ips new_config sync_one_agent
    strip_to_tunnel_only
run = tt

abbrev lines : List Text → Text
lines ls = join newline ls

abbrev config : Text
config = lines (
    codes "[Interface]"
    ∷ codes "Address = 10.10.0.5/24"
    ∷ codes "PrivateKey = (hidden)"
    ∷ codes "PostUp = echo"
    ∷ codes ""
    ∷ codes "[Peer]"
    ∷ codes "AllowedIPs = 10.10.0.0/24,192.168.9.0/24"
    ∷ codes "Endpoint = old.example.org:51820 # hub"
    ∷ codes "AllowedIPs = 172.16.0.0/16"
    ∷ [])

derived : derive_tunnel_subnet config ≡ codes "10.10.0.0/24"
unfolding run
derived = refl

parsed :
    parse_hub_peer_allowed_ips config
    ≡ codes "10.10.0.0/24" ∷ codes "192.168.9.0/24" ∷ codes "172.16.0.0/16" ∷ []
unfolding run
parsed = refl

endpoint_moved :
    rewrite_hub_peer_endpoint (λ t. t) config (sanitize_hub_host (codes " new.example.org "))
    ≡ lines (
        codes "[Interface]"
        ∷ codes "Address = 10.10.0.5/24"
        ∷ codes "PrivateKey = (hidden)"
        ∷ codes "PostUp = echo"
        ∷ codes ""
        ∷ codes "[Peer]"
        ∷ codes "AllowedIPs = 10.10.0.0/24,192.168.9.0/24"
        ∷ codes "Endpoint = new.example.org:51820 # hub"
        ∷ codes "AllowedIPs = 172.16.0.0/16"
        ∷ [])
unfolding run
endpoint_moved = refl

abbrev site : Text → Text → List Text → SiteMeta
site name type nets = record { name = name; type = type; imported_networks = nets }

abbrev links : List SiteMeta
links =
    site (codes "berlin") (codes "site") (codes "192.168.1.0/24" ∷ [])
    ∷ site (codes "bonn") []
        (codes "192.168.2.0/24" ∷ codes "192.168.1.128/25" ∷ codes "0.0.0.0/0" ∷ [])
    ∷ site (codes "phone") (codes "client") (codes "192.168.7.0/24" ∷ [])
    ∷ []

abbrev env : Env
env = record {
  parse = λ t. none;
  sha256 = λ t. codes "h";
  to_lower = λ t. t;
  wg_hub_host = codes "new.example.org";
}

abbrev berlin : AgentRow
berlin = record {
  wg_link_name = codes "berlin";
  wg_interface = [];
  allowed_networks = none;
  allowed_sites = none;
  preserve_lan_source_ip = null;
  config_text = config;
  config_hash = none;
}

abbrev berlin_link : SiteMeta
berlin_link = site (codes "berlin") (codes "site") (codes "192.168.1.0/24" ∷ [])

-- The networks of the sites but the own ones and what lies in them; the client exports none.
nets_of_berlin :
    new_allowed_ips env berlin berlin_link (mesh_index links)
    ≡ codes "10.10.0.0/24" ∷ codes "192.168.2.0/24" ∷ []
unfolding run
nets_of_berlin = refl

abbrev berlin_query : ReachQuery
berlin_query = query_of env berlin berlin_link (mesh_index links)

berlin_found : link_named berlin.wg_link_name (mesh_index links).links_by_name ≡ some berlin_link
unfolding run
berlin_found = refl

berlin_list : has_hub_list berlin.config_text ≡ true
unfolding run
berlin_list = refl

abbrev hooks_up : Text
hooks_up =
    codes
      "PostUp = sysctl -w net.ipv4.ip_forward=1; iptables -A FORWARD -i wg0 -j ACCEPT; iptables -A FORWARD -o wg0 -j ACCEPT; iptables -t nat -A POSTROUTING ! -o wg0 -s 10.10.0.0/24 -j MASQUERADE; iptables -t nat -A POSTROUTING ! -o wg0 -s 192.168.2.0/24 -j MASQUERADE; ip route add 10.10.0.0/24 dev wg0 2>/dev/null || true; ip route add 192.168.2.0/24 dev wg0 2>/dev/null || true"

abbrev hooks_down : Text
hooks_down =
    codes
      "PostDown = iptables -D FORWARD -i wg0 -j ACCEPT; iptables -D FORWARD -o wg0 -j ACCEPT; iptables -t nat -D POSTROUTING ! -o wg0 -s 10.10.0.0/24 -j MASQUERADE; iptables -t nat -D POSTROUTING ! -o wg0 -s 192.168.2.0/24 -j MASQUERADE; ip route del 10.10.0.0/24 dev wg0 2>/dev/null || true; ip route del 192.168.2.0/24 dev wg0 2>/dev/null || true"

abbrev new_text : Text
new_text = lines (
    codes "[Interface]"
    ∷ codes "Address = 10.10.0.5/24"
    ∷ codes "PrivateKey = (hidden)"
    ∷ codes ""
    ∷ codes "Table = off"
    ∷ hooks_up
    ∷ hooks_down
    ∷ codes "[Peer]"
    ∷ codes "AllowedIPs = 10.10.0.0/24, 192.168.2.0/24"
    ∷ codes "Endpoint = new.example.org:51820 # hub"
    ∷ [])

abbrev written : Synced
written = record {
  config_text = new_text;
  config_hash = some (codes "h");
  allowed_ips = codes "10.10.0.0/24" ∷ codes "192.168.2.0/24" ∷ [];
  masquerade_nets = codes "192.168.2.0/24" ∷ [];
  endpoint_changed = true;
  allowed_changed = true;
}

berlin_synced : sync_one_agent env berlin (mesh_index links) ≡ ok (synced written)
unfolding run
berlin_synced = refl

new_entries : All IsEntry (codes "10.10.0.0/24" ∷ codes "192.168.2.0/24" ∷ [])
unfolding run
new_entries = (
  assert_cidr-IsEntry (codes "10.10.0.0/24") tt refl,
  (assert_cidr-IsEntry (codes "192.168.2.0/24") tt refl, tt),
)

parse-rewrite_hub_peer_allowed_ips_example :
    parse_hub_peer_allowed_ips
      (rewrite_hub_peer_allowed_ips config (codes "10.10.0.0/24" ∷ codes "192.168.2.0/24" ∷ []))
    ≡ (if has_hub_list config then codes "10.10.0.0/24" ∷ codes "192.168.2.0/24" ∷ [] else [])
parse-rewrite_hub_peer_allowed_ips_example =
    parse-rewrite_hub_peer_allowed_ips config (codes "10.10.0.0/24") (codes "192.168.2.0/24" ∷ [])
      new_entries

compute_other_site_nets-IsReached_example :
    In (codes "192.168.2.0/24") (compute_other_site_nets berlin_query).nets
    ↔ IsReached berlin_query (codes "192.168.2.0/24")
compute_other_site_nets-IsReached_example =
    compute_other_site_nets-IsReached berlin_query (codes "192.168.2.0/24")

sync_one_agent-IsReached_example :
    In (codes "192.168.2.0/24") (parse_hub_peer_allowed_ips written.config_text) ↔ (
      (codes "192.168.2.0/24" ≡ derive_tunnel_subnet config)
      ⊎ IsReached (query_of env berlin berlin_link (mesh_index links)) (codes "192.168.2.0/24"))
sync_one_agent-IsReached_example =
    sync_one_agent-IsReached env berlin berlin_link (mesh_index links) written
      (codes "192.168.2.0/24") berlin_found berlin_list berlin_synced

tunnel_kept : derive_tunnel_subnet written.config_text ≡ derive_tunnel_subnet config
unfolding run
tunnel_kept = refl

second_sync : sync_one_agent env (row_after berlin written) (mesh_index links) ≡ ok in_sync
unfolding run
second_sync = refl

sync_one_agent-settled_example :
    (sort_texts (parse_hub_peer_allowed_ips written.config_text) ≡ written.allowed_ips)
    × IsKept written.allowed_ips in_sync
sync_one_agent-settled_example =
    sync_one_agent-settled env berlin berlin_link (mesh_index links) written in_sync berlin_found
      berlin_list berlin_synced tunnel_kept second_sync

abbrev with_host : Text
with_host = lines (
    codes "[Interface]"
    ∷ codes "Address = 10.10.0.5/24"
    ∷ codes "[Peer]"
    ∷ codes "AllowedIPs = 192.168.9.0/24, 10.20.0.7/32"
    ∷ [])

abbrev stripped : Text
stripped = lines (
    codes "[Interface]"
    ∷ codes "Address = 10.10.0.5/24"
    ∷ codes "Table = off"
    ∷ codes
        "PostUp = sysctl -w net.ipv4.ip_forward=1; iptables -A FORWARD -i wg0 -j ACCEPT; iptables -A FORWARD -o wg0 -j ACCEPT; iptables -t nat -A POSTROUTING ! -o wg0 -s 10.10.0.0/24 -j MASQUERADE; ip route add 10.10.0.0/24 dev wg0 2>/dev/null || true"
    ∷ codes
        "PostDown = iptables -D FORWARD -i wg0 -j ACCEPT; iptables -D FORWARD -o wg0 -j ACCEPT; iptables -t nat -D POSTROUTING ! -o wg0 -s 10.10.0.0/24 -j MASQUERADE; ip route del 10.10.0.0/24 dev wg0 2>/dev/null || true"
    ∷ codes "[Peer]"
    ∷ codes "AllowedIPs = 10.10.0.0/24, 10.20.0.7/32"
    ∷ [])

host_list : has_hub_list with_host ≡ true
unfolding run
host_list = refl

host_entries : All IsEntry (filter is_host_route_text (parse_hub_peer_allowed_ips with_host))
unfolding run
host_entries = (assert_cidr-IsEntry (codes "10.20.0.7/32") tt refl, tt)

host_stripped : strip_to_tunnel_only with_host [] ≡ ok stripped
unfolding run
host_stripped = refl

strip_to_tunnel_only-In_example :
    In (codes "10.20.0.7/32") (parse_hub_peer_allowed_ips stripped) ↔ (
      (codes "10.20.0.7/32" ≡ derive_tunnel_subnet with_host)
      ⊎ (In (codes "10.20.0.7/32") (parse_hub_peer_allowed_ips with_host)
          × (is_host_route_text (codes "10.20.0.7/32") ≡ true)))
strip_to_tunnel_only-In_example =
    strip_to_tunnel_only-In with_host [] stripped (codes "10.20.0.7/32") host_list host_entries
      host_stripped
