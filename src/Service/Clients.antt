-- ===== src/Service/Clients.antt =====
-- backend/internal/agent-ingress.js: `vpnClientsFromStatus` and `clientIngressGaps`: the VPN
-- clients that reach the networks of an agent without a rule for it.
pub mod Gaps
use floppyguard.Base.{
  ℕ, Bool, true, false, not, ◌&&◌, ◌||◌, Option, none, some, List, [], ◌∷◌, ◌++◌, all, any, filter,
  length, ◌==◌, if◌then◌else◌, flat_map, map,
}
use floppyguard.Base.Text.{Text, codes, text_eq, includes}
use floppyguard.Cidr.{canonical_cidr, cidr_contains}
use floppyguard.Ingress.{Rule, Port, take, pub_key8, split_link_id}
use floppyguard.SiteIsolation.{ends_with, host_text, has_code, uniq_onto}
use floppyguard.Catalog.Sources.{canonical_nets}
use floppyguard.Catalog.Upstreams.{host_ip}
use floppyguard.Service.{StatusLink}

-- An interface of the status: its name and addresses.
pub record Iface : Type 0 where
  pub name : Text
  pub addresses : List Text

-- A client with its tunnel hosts and the networks that it reaches.
pub record VpnClient : Type 0 where
  pub id : Text
  pub label : Text
  pub hosts : List Text
  pub nets : List Text

-- `new Map(entries).get(name) || []`: the last entry of a name counts.
unfoldable pub addresses_of : List Iface → Text → Option (List Text)
addresses_of [] name = none
addresses_of (i ∷ is) name =
    let rest = addresses_of is name in
    elim rest [ some a ↦ some a | none ↦ if text_eq i.name name then some i.addresses else none ]

abbrev pub addresses_or_none : Option (List Text) → List Text
addresses_or_none none = []
addresses_or_none (some a) = a

abbrev pub is_client : StatusLink → Bool
is_client l = text_eq l.type (codes "client")

abbrev pub is_host : Text → Bool
is_host c = ends_with (codes "/32") c

-- The tunnel hosts: every /32 of the live AllowedIPs and the tunnel addresses, each once.
unfoldable pub client_hosts : StatusLink → List Text
unfolding canonical_nets uniq_onto filter has_code ends_with
client_hosts l =
    uniq_onto []
      (filter is_host (canonical_nets (map host_text (l.allowed_ips ++ l.tunnel_addresses))))

abbrev pub served_by : StatusLink → List Text
served_by o = o.exported_networks ++ (if is_client o then [] else o.imported_networks)

abbrev pub is_neighbour : StatusLink → StatusLink → Bool
is_neighbour l o = not (text_eq o.id l.id) && text_eq o.interface_name l.interface_name

unfoldable pub reached_nets : List StatusLink → List Iface → StatusLink → List Text
unfolding addresses_of flat_map filter text_eq
reached_nets links ifaces l =
    if l.full_tunnel
    then codes "0.0.0.0/0" ∷ []
    else (if length l.imported_networks == 0
        then addresses_or_none (addresses_of ifaces l.interface_name)
          ++ flat_map served_by (filter (is_neighbour l) links)
        else l.imported_networks)

unfoldable pub client_nets : List StatusLink → List Iface → StatusLink → List Text
unfolding canonical_nets uniq_onto filter reached_nets ends_with
client_nets links ifaces l =
    filter (λ n. not (is_host n)) (uniq_onto [] (canonical_nets (reached_nets links ifaces l)))

unfoldable pub client_label : StatusLink → Text
unfolding split_link_id pub_key8
client_label l =
    if length l.name == 0
    then elim (split_link_id l.id) [ none ↦ pub_key8 l.id | some p ↦ pub_key8 p.1 ]
    else l.name

abbrev pub client_of : List StatusLink → List Iface → StatusLink → VpnClient
client_of links ifaces l = record {
  id = l.id;
  label = client_label l;
  hosts = client_hosts l;
  nets = client_nets links ifaces l;
}

abbrev pub has_reach : VpnClient → Bool
has_reach c = not (length c.hosts == 0) && not (length c.nets == 0)

abbrev pub is_known_client : StatusLink → Bool
is_known_client l = is_client l && not (length l.id == 0)

unfoldable pub vpn_clients_from_status : List StatusLink → List Iface → List VpnClient
unfolding filter client_hosts client_nets text_eq
vpn_clients_from_status links ifaces =
    filter has_reach (map (client_of links ifaces) (filter is_known_client links))

-- A rule that the check proposes. An upstream that is a name has no canonical destination.
pub record Suggestion : Type 0 where
  pub name : Text
  pub sources : List Text
  pub destinations : List (Option Text)
  pub ports : List Port

pub record Gap : Type 0 where
  pub id : Text
  pub label : Text
  pub host : Text
  pub suggestion : Suggestion

-- The part of a client's network that is the agent's own.
unfoldable pub gap_dst : Text → Text → Option Text
unfolding cidr_contains
gap_dst own net =
    if cidr_contains own net
    then canonical_cidr net
    else (if cidr_contains net own then canonical_cidr own else none)

abbrev pub meets_dst : List Text → Text → Bool
meets_dst dests dst =
    length dests == 0 || any (λ d. cidr_contains d dst || cidr_contains dst d) dests

unfoldable pub lets_client_in : Text → Text → Rule → Bool
unfolding any
lets_client_in host dst r =
    r.enabled && any (λ s. cidr_contains s host) r.sources && meets_dst r.destinations dst

unfoldable pub gap_of : VpnClient → Text → Text → Gap
unfolding host_ip take
gap_of c dst host = record {
  id = c.id ++ (b'|' ∷ dst);
  label = c.label ++ (codes " (" ++ (host_ip host ++ codes ")"));
  host = dst;
  suggestion = record {
    name = take 100 (codes "VPN-Client " ++ c.label);
    sources = (host_ip host ++ codes "/32") ∷ [];
    destinations = some dst ∷ [];
    ports = [];
  };
}

abbrev pub gaps_of_hosts : List Rule → VpnClient → Option Text → List Gap
gaps_of_hosts rules c none = []
gaps_of_hosts rules c (some dst) =
    map (gap_of c dst) (filter (λ h. not (any (lets_client_in h dst) rules)) c.hosts)

unfoldable pub client_ingress_gaps : List VpnClient → List Text → List Rule → List Gap
unfolding flat_map filter gap_dst gap_of any lets_client_in
client_ingress_gaps clients own_nets rules =
    flat_map
      (λ c.
        flat_map (λ net. flat_map (λ own. gaps_of_hosts rules c (gap_dst own net)) own_nets) c.nets)
      clients
