-- ===== src/Service/Reports.antt =====
-- backend/internal/agent-ingress.js: `upstreamSuggestion` and `broadHubRules`, which the check
-- shows, and `hubConnectedNets`, the networks that the hub reaches itself.
use floppyguard.Base.{
  ℕ, Bool, false, not, ◌&&◌, ◌||◌, Option, none, some, List, [], ◌∷◌, ◌++◌, any, filter, length,
  ◌==◌, if◌then◌else◌, flat_map, map,
}
use floppyguard.Base.Text.{Text, codes, text_eq, decimal, is_digit}
use floppyguard.Cidr.{canonical_cidr}
use floppyguard.Ingress.{Rule, Port, take, strip}
use floppyguard.Ingress.Cover.{Upstream, in_range, dst_covers, is_hub_sourced}
use floppyguard.SiteIsolation.{add_unique}
use floppyguard.Catalog.Upstreams.{Shown}
use floppyguard.Service.Clients.{Suggestion}

-- `u.proto || "tcp"`
abbrev pub proto_or_tcp : Text → Text
proto_or_tcp proto = if length proto == 0 then codes "tcp" else proto

abbrev pub suggestion_of : Shown → ℕ → Text → Suggestion
suggestion_of u port src = record {
  name = take 100 (
      (if text_eq u.kind (codes "hub-egress") then codes "Hub" else codes "Proxy")
      ++ (b' ' ∷ u.label));
  sources = src ∷ [];
  destinations = canonical_cidr (u.up).host ∷ [];
  ports = (record { proto = proto_or_tcp (u.up).proto; port = decimal port }) ∷ [];
}

-- No suggestion without a known port (0 counts as none) or without a source.
unfoldable pub upstream_suggestion : Shown → List Text → Option Suggestion
unfolding text_eq take decimal
upstream_suggestion u [] = none
upstream_suggestion u (src ∷ srcs) = elim ((u.up).port) [
  | none ↦ none
  | some p ↦ if p == 0 then none else some (suggestion_of u p src)
]

pub data BroadReason : Type 0 where
  all_ports : BroadReason
  unused_ports : List Text → BroadReason

pub record BroadRule : Type 0 where
  pub id : ℕ
  pub name : Text
  pub reason : BroadReason

abbrev pub in_dest : List Text → Upstream → Bool
in_dest dests u = elim (canonical_cidr u.host) [ none ↦ false | some _ ↦ dst_covers dests u.host ]

-- `u.port && u.port >= a && u.port <= (b ?? a)`
abbrev pub port_meets : Text → Option ℕ → Bool
port_meets range none = false
port_meets range (some n) = not (n == 0) && in_range range n

abbrev pub uses_port : List Text → Port → Upstream → Bool
uses_port dests p u =
    in_dest dests u && text_eq (proto_or_tcp u.proto) p.proto && port_meets p.port u.port

unfoldable pub unused_ports_of : Rule → List Upstream → List Port
unfolding filter any text_eq dst_covers in_range
unused_ports_of r behind = filter (λ p. not (any (uses_port r.destinations p) behind)) r.ports

abbrev pub shown_port : Port → Text
shown_port p = p.port ++ (b'/' ∷ p.proto)

abbrev pub broad_reason : List Port → List Port → Option BroadReason
broad_reason [] unused = some all_ports
broad_reason (_ ∷ _) [] = none
broad_reason (_ ∷ _) (p ∷ ps) = some (unused_ports (map shown_port (p ∷ ps)))

abbrev pub broad_rule : Rule → Option BroadReason → List BroadRule
broad_rule r none = []
broad_rule r (some reason) = (record { id = r.id; name = r.name; reason = reason }) ∷ []

abbrev pub broad_round : List Text → List Upstream → Rule → List BroadRule
broad_round hub_srcs behind r =
    if not r.enabled || not (is_hub_sourced r hub_srcs)
    then []
    else broad_rule r (broad_reason r.ports (unused_ports_of r behind))

unfoldable pub broad_hub_rules : List Rule → List Text → List Upstream → List BroadRule
unfolding flat_map is_hub_sourced unused_ports_of
broad_hub_rules rules hub_srcs behind = flat_map (broad_round hub_srcs behind) rules

-- An entry of `os.networkInterfaces()`; a family is "IPv4" or the number 4.
pub record NetAddress : Type 0 where
  pub is_ipv4 : Bool
  pub is_internal : Bool
  pub cidr : Text

-- `/^wg\d/` or "lo"
abbrev pub is_tunnel_iface : Text → Bool
is_tunnel_iface name = elim (strip (codes "wg") name) [
  | none ↦ text_eq name (codes "lo")
  | some [] ↦ false
  | some (c ∷ _) ↦ is_digit c
]

unfoldable pub net_round : List NetAddress → List Text → List Text
unfolding add_unique
net_round [] out = out
net_round (a ∷ addrs) out =
    let next : List Text = elim (canonical_cidr a.cidr) [
      | none ↦ out
      | some net ↦ add_unique out net
    ] in
    net_round addrs (if not a.is_ipv4 || a.is_internal then out else next)

unfoldable pub hub_connected_nets : List (Text × List NetAddress) → List Text → List Text
unfolding net_round strip text_eq is_digit
hub_connected_nets [] out = out
hub_connected_nets (i ∷ ifaces) out =
    hub_connected_nets ifaces (if is_tunnel_iface (i.0) then out else net_round (i.1) out)
