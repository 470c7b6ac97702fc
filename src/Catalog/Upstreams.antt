-- ===== src/Catalog/Upstreams.antt =====
-- `upstreamDestinations` and `serviceDestinations`: the known destinations behind an agent.
pub mod Hosts
use Prim.Native.Nat.{Ordering}
use floppyguard.Base.{
  ℕ, suc, Bool, true, false, not, ◌&&◌, ◌||◌, Option, none, some, List, [], ◌∷◌, ◌++◌, map, filter,
  any, all, flat_map, length, ltb, ◌==◌, if◌then◌else◌,
}
use floppyguard.Base.Text.{Text, codes, text_eq, includes, split, trim, decimal, number, is_number}
use floppyguard.Cidr.{canonical_cidr, cidr_contains}
use floppyguard.Ingress.{Port, Rule}
use floppyguard.Ingress.Cover.{Upstream, upstream_covered}
use floppyguard.SiteIsolation.{ends_with, uniq_onto}
use floppyguard.Catalog.Bulk.{port_key}

-- An upstream of the hub with what the catalog shows of it.
pub record Shown : Type 0 where
  pub up : Upstream
  pub kind : Text
  pub label : Text
  pub enabled : Bool

-- What only the entry of an upstream host has.
pub record HostPart : Type 0 where
  pub upstream_ports : List Port
  pub enabled : Bool
  pub covered : Bool
  pub no_port : Bool

pub record Destination : Type 0 where
  pub id : Text
  pub kind : Text
  pub label : Text
  pub names : List Text
  pub cidrs : List Text
  pub ports : List Port
  pub host : Option HostPart

-- `into` with the ports of `add` that it lacks.
abbrev pub merge_port : List Port → Port → List Port
merge_port into p =
    if any (λ q. text_eq (port_key q) (port_key p)) into then into else into ++ p ∷ []

unfoldable pub merge_ports : List Port → List Port → List Port
unfolding any
merge_ports into [] = into
merge_ports into (p ∷ ps) = merge_ports (merge_port into p) ps

-- "10.0.0.1/32" becomes "10.0.0.1"; any other text stays.
unfoldable pub host_ip : Text → Text
unfolding ends_with
host_ip [] = []
host_ip (c ∷ s) = let rest = host_ip s in if text_eq (c ∷ s) (codes "/32") then [] else c ∷ rest

abbrev pub kind_order : List Text
kind_order = codes "proxy-host" ∷ codes "stream" ∷ codes "manual" ∷ codes "hub-egress" ∷ []

-- `indexOf`, or the length where the kind is unknown.
unfoldable pub rank_in : List Text → Text → ℕ
rank_in [] k = 0
rank_in (o ∷ os) k = let rest = suc (rank_in os k) in if text_eq o k then 0 else rest

unfoldable pub insert_shown : Shown → List Shown → List Shown
unfolding rank_in
insert_shown u [] = u ∷ []
insert_shown u (v ∷ vs) =
    let rest = insert_shown u vs in
    if ltb (rank_in kind_order v.kind) (rank_in kind_order u.kind) then v ∷ rest else u ∷ v ∷ vs

unfoldable pub sort_shown : List Shown → List Shown
unfolding insert_shown
sort_shown [] = []
sort_shown (u ∷ us) = insert_shown u (sort_shown us)

abbrev pub names_of_label : Shown → List Text
names_of_label u =
    if text_eq u.kind (codes "proxy-host") then map trim (split b',' u.label) else trim u.label ∷ []

abbrev pub not_empty : Text → Bool
not_empty [] = false
not_empty (_ ∷ _) = true

unfoldable pub host_names : List Shown → List Text
unfolding flat_map uniq_onto filter
host_names ordered = filter not_empty (uniq_onto [] (flat_map names_of_label ordered))

unfoldable pub upstream_ports_of : List Shown → List Port → List Port
unfolding merge_ports
upstream_ports_of [] ports = ports
upstream_ports_of (u ∷ us) ports = upstream_ports_of us (elim (u.up).port [
  | none ↦ ports
  | some n ↦ merge_ports ports ((record { proto = (u.up).proto; port = decimal n }) ∷ [])
])

-- The groups of upstreams by network, in the order in which the networks first appear.
abbrev pub Groups : Type 0
Groups = List (Text × List Shown)

unfoldable pub add_to_group : Text → Shown → Groups → Groups
add_to_group c u [] = (c, u ∷ []) ∷ []
add_to_group c u (g ∷ gs) =
    let rest = add_to_group c u gs in if text_eq g.0 c then (g.0, g.1 ++ u ∷ []) ∷ gs else g ∷ rest

unfoldable pub group_upstreams : List Shown → Groups → Groups
unfolding add_to_group
group_upstreams [] gs = gs
group_upstreams (u ∷ us) gs =
    group_upstreams us
      (elim (canonical_cidr (u.up).host) [ none ↦ gs | some c ↦ add_to_group c u gs ])

abbrev pub first_kind : List Shown → Text
first_kind [] = []
first_kind (u ∷ us) = u.kind

abbrev pub first_name : List Text → Text → Text
first_name [] other = other
first_name (n ∷ ns) other = n

-- `localeCompare` of the runtime orders the protocols.
module _ (locale_compare : Text → Text → Ordering) where
  abbrev pub port_before : Port → Port → Bool
  port_before q p = elim (locale_compare q.proto p.proto) [
    | Ordering.lt ↦ true
    | Ordering.eq ↦ ltb (number q.port) (number p.port)
    | Ordering.gt ↦ false
  ]

  unfoldable pub insert_port : Port → List Port → List Port
  insert_port p [] = p ∷ []
  insert_port p (q ∷ qs) =
      let rest = insert_port p qs in if port_before q p then q ∷ rest else p ∷ q ∷ qs

  unfoldable pub sort_ports : List Port → List Port
  unfolding insert_port
  sort_ports [] = []
  sort_ports (p ∷ ps) = insert_port p (sort_ports ps)

  unfoldable pub destination_of_group : List Rule → List Text → Text × List Shown → Destination
  unfolding sort_shown host_names upstream_ports_of sort_ports host_ip all any
  destination_of_group rules hub_hosts g =
      let ordered = sort_shown g.1 in
      let names = host_names ordered in
      let ports = sort_ports (upstream_ports_of ordered []) in
      record {
        id = codes "host:" ++ host_ip g.0;
        kind = first_kind ordered;
        label = first_name names (host_ip g.0);
        names = names;
        cidrs = g.0 ∷ [];
        ports = ports;
        host = some (record {
          upstream_ports = ports;
          enabled = any (λ u. u.enabled) ordered;
          covered = all (λ u. upstream_covered u.up rules hub_hosts) ordered;
          no_port = any (λ u. elim (u.up).port [ none ↦ true | some _ ↦ false ]) ordered;
        });
      }

  unfoldable pub upstream_destinations : List Shown → List Rule → List Text → List Destination
  unfolding group_upstreams destination_of_group
  upstream_destinations behind rules hub_hosts =
      map (destination_of_group rules hub_hosts) (group_upstreams behind [])

-- A service that the agent discovered; `url` is null where it is no text.
pub record Service : Type 0 where
  pub name : Text
  pub url : Option Text

-- What `new URL` gives.
pub record Url : Type 0 where
  pub hostname : Text
  pub port : Text
  pub protocol : Text

abbrev pub url_port : Url → Text
url_port u =
    if not_empty u.port
    then u.port
    else (if text_eq u.protocol (codes "https:")
        then codes "443"
        else (if text_eq u.protocol (codes "http:") then codes "80" else []))

abbrev quad_parts : List Text → Bool
quad_parts (a ∷ b ∷ c ∷ d ∷ []) = is_number 3 a && is_number 3 b && is_number 3 c && is_number 3 d
quad_parts _ = false

-- `/^\d{1,3}(\.\d{1,3}){3}$/`.
unfoldable pub is_quad : Text → Bool
is_quad t = quad_parts (split b'.' t)

abbrev pub in_own : Option (List Text) → Text → Bool
in_own none c = true
in_own (some nets) c = any (λ n. cidr_contains n c) nets

abbrev pub has_cidr : Text → Destination → Bool
has_cidr c d = any (λ x. text_eq x c) d.cidrs

-- The entry of this network takes one more name and port.
unfoldable pub grow_service : Text → Text → Port → List Destination → List Destination
unfolding any merge_ports
grow_service c name p [] = []
grow_service c name p (d ∷ ds) =
    let rest = grow_service c name p ds in
    if has_cidr c d
    then (record d {
      names = if includes d.names name then d.names else d.names ++ name ∷ [];
      ports = merge_ports d.ports (p ∷ []);
    })
      ∷ ds
    else d ∷ rest

abbrev pub name_or : Text → Text → Text
name_or name host =
    let t = trim (if not_empty name then name else host) in if not_empty t then t else host

abbrev pub put_service : ℕ → ℕ → Text → Text → Text → Text → List Destination → List Destination
put_service agent_id i name host c port out =
    let p : Port = record { proto = codes "tcp"; port = decimal (number port) } in
    let shown = name_or name host in
    if any (has_cidr c) out
    then grow_service c shown p out
    else out
      ++ (record {
        id = codes "service:" ++ decimal agent_id ++ (b':' ∷ decimal i);
        kind = codes "service";
        label = shown;
        names = shown ∷ [];
        cidrs = c ∷ [];
        ports = p ∷ [];
        host = none;
      })
        ∷ []

-- `parse_url` is the URL parser of the runtime.
module _ (locale_compare : Text → Text → Ordering) (parse_url : Text → Option Url) where
  unfoldable pub service_round :
      Option (List Text) → ℕ → ℕ → Service → List Destination → List Destination
  unfolding grow_service is_quad any
  service_round own agent_id i svc out = elim svc.url [
    | none ↦ out
    | some text ↦ elim (parse_url text) [
      | none ↦ out
      | some u ↦ if not (is_quad u.hostname) then out else elim (canonical_cidr u.hostname) [
        | none ↦ out
        | some c ↦
            if not (in_own own c) || not (not_empty (url_port u))
            then out
            else put_service agent_id i svc.name u.hostname c (url_port u) out
      ]
    ]
  ]

  unfoldable pub services_from :
      Option (List Text) → ℕ → ℕ → List Service → List Destination → List Destination
  unfolding service_round
  services_from own agent_id i [] out = out
  services_from own agent_id i (s ∷ ss) out =
      services_from own agent_id (suc i) ss (service_round own agent_id i s out)

  unfoldable pub service_destinations : List Service → Option (List Text) → ℕ → List Destination
  unfolding services_from sort_ports
  service_destinations services own agent_id =
      map (λ (d : Destination). record d { ports = sort_ports locale_compare d.ports })
        (services_from own agent_id 0 services [])
