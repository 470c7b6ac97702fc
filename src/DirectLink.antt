-- ===== src/DirectLink.antt =====
-- backend/internal/agent-direct-link-rules.js: direct links between two agents
-- ("Direktverbindungen"). This file has the tunnel subnet and the checks before a link is saved.
pub mod Fits
pub mod Peers
pub mod Config
pub mod Input
use floppyguard.Base.{
  ℕ, ◌+◌, ◌%◌, Bool, true, false, not, ◌&&◌, ◌||◌, Option, none, some, List, [], ◌∷◌, ◌++◌, any,
  ltb, ◌==◌, if◌then◌else◌,
}
use floppyguard.Base.Text.{Text, codes, text_eq, split, trim, is_number, number, decimal}
use floppyguard.Cidr.{int_to_ip, cidr_contains}
use floppyguard.Result.{Result, ok, err, validation, ◌>>=◌, ◌>>◌, throw_if, for_each}
use floppyguard.SiteIsolation.{octet_value, first_text}

abbrev octet_ok : Text → Bool
octet_ok o = is_number 3 o && not (ltb 255 (number o))

abbrev literal_parts : List Text → Bool
literal_parts (a ∷ b ∷ c ∷ d ∷ []) = octet_ok a && octet_ok b && octet_ok c && octet_ok d
literal_parts _ = false

unfoldable pub is_ipv4_literal : Text → Bool
is_ipv4_literal v = literal_parts (split b'.' v)

unfoldable pub address_number : Text → ℕ
unfolding octet_value
address_number ip = octet_value 0 (split b'.' ip)

unfoldable pub is_private_net : Text → Bool
unfolding any
is_private_net cidr =
    any (λ p. cidr_contains p cidr)
      (codes "10.0.0.0/8" ∷ codes "172.16.0.0/12" ∷ codes "192.168.0.0/16" ∷ [])

abbrev subnet_parts : List Text → Option Text
subnet_parts (ip ∷ prefix ∷ []) =
    if text_eq prefix (codes "30")
      && is_ipv4_literal ip
      && address_number ip % 4 == 0
      && is_private_net (ip ++ codes "/30")
    then some (ip ++ codes "/30")
    else none
subnet_parts _ = none

unfoldable pub canonical_tunnel_subnet : Text → Option Text
unfolding is_ipv4_literal address_number is_private_net
canonical_tunnel_subnet value = subnet_parts (split b'/' (trim value))

-- The addresses of the sides a and b.
unfoldable pub tunnel_addresses : Text → Text × Text
unfolding address_number
tunnel_addresses subnet =
    let n = address_number (first_text (split b'/' subnet)) in
    (int_to_ip (n + 1), int_to_ip (n + 2))

pub record DirectLink : Type 0 where
  pub id : ℕ
  pub name : Text
  pub agent_a_id : ℕ
  pub agent_b_id : ℕ
  pub listen_port : ℕ
  pub endpoint_host : Text
  pub tunnel_subnet : Text
  pub nat_a : Bool
  pub nat_b : Bool
  pub enabled : Bool

pub record SideAgent : Type 0 where
  pub agent_id : ℕ
  pub ingress_mode : Text

-- What the checks ask of the rest of the mesh; null and an empty id of a site link are `none`.
pub record Context : Type 0 where
  pub agents : ℕ → Option SideAgent
  pub site_link_id_of : SideAgent → Option Text
  pub isolated : Text → Text → Bool
  pub site_nets : List Text
  pub agent_tunnel_subnets : List Text
  pub others : List DirectLink

unfoldable pub nat_restricted_conflict : DirectLink → SideAgent → SideAgent → Bool
nat_restricted_conflict link a b =
    (text_eq a.ingress_mode (codes "restricted") && link.nat_b)
    || (text_eq b.ingress_mode (codes "restricted") && link.nat_a)

-- `nets.find(test)`.
unfoldable pub find_net : (Text → Bool) → List Text → Option Text
find_net test [] = none
find_net test (n ∷ ns) = let rest = find_net test ns in if test n then some n else rest

abbrev pub meets_subnet : Text → Text → Bool
meets_subnet t n = cidr_contains n t || cidr_contains t n

abbrev pub holds_endpoint : DirectLink → Text → Bool
holds_endpoint link n =
    is_ipv4_literal link.endpoint_host && cidr_contains n (link.endpoint_host ++ codes "/32")

unfoldable pub direct_net_conflict : DirectLink → List Text → Option Text
unfolding find_net is_ipv4_literal
direct_net_conflict link nets = elim (find_net (meets_subnet link.tunnel_subnet) nets) [
  | some n ↦ some (codes "tunnel_subnet " ++ link.tunnel_subnet ++ codes " overlaps " ++ n)
  | none ↦ elim (find_net (holds_endpoint link) nets) [
    | some n ↦ some (codes "endpoint_host " ++ link.endpoint_host ++ codes " lies inside " ++ n)
    | none ↦ none
  ]
]

abbrev pub same_pair : DirectLink → DirectLink → Bool
same_pair o link =
    (o.agent_a_id == link.agent_a_id && o.agent_b_id == link.agent_b_id)
    || (o.agent_a_id == link.agent_b_id && o.agent_b_id == link.agent_a_id)

abbrev pub same_port : DirectLink → DirectLink → Bool
same_port o link = o.agent_a_id == link.agent_a_id && o.listen_port == link.listen_port

-- One round of `assertNoLinkClash`.
unfoldable pub clash_round : DirectLink → DirectLink → Unit {0} → Result (Unit {0})
clash_round link o _ =
    let t = link.tunnel_subnet in
    let used = throw_if (meets_subnet t o.tunnel_subnet) (
      validation (
        codes "tunnel_subnet "
        ++ t
        ++ codes " is already used by direct link \""
        ++ o.name
        ++ codes "\"")) in
    let known =
      throw_if (same_pair o link)
        (validation (codes "these agents already have direct link \"" ++ o.name ++ codes "\"")) in
    let taken = throw_if (same_port o link) (
      validation (
        codes "listen_port "
        ++ decimal link.listen_port
        ++ codes " is already used on this agent by \""
        ++ o.name
        ++ codes "\"")) in
    if o.id == link.id then ok tt else (used >> (known >> taken))

unfoldable pub assert_no_link_clash : DirectLink → List DirectLink → Result (Unit {0})
unfolding clash_round for_each
assert_no_link_clash link others = for_each (clash_round link) others tt

abbrev refuse : Text → Result (Unit {0})
refuse t = err (validation t)

abbrev not_bound : Text
not_bound =
    codes
      "both agents must be bound to a site link (Standort-Verbindung) — road-warrior clients cannot have direct links"

unfoldable pub check_sites :
    DirectLink → Context → SideAgent → SideAgent → Text → Text → Result (Unit {0})
unfolding nat_restricted_conflict direct_net_conflict
check_sites link ctx a b la lb =
    throw_if (text_eq la lb) (validation (codes "both agents belong to the same site"))
    >> (throw_if (ctx.isolated la lb) (
          validation (
            codes
              "these sites are separated („Standorte untereinander“) — the separation only applies on the hub, a direct link would bypass it"))
        >> (throw_if (nat_restricted_conflict link a b) (
              validation (
                codes
                  "a side with „nur Freigaben“ cannot take a partner that masquerades into the direct tunnel: its Freigaben match the partner's hub address, on the direct path the traffic would arrive from the transfer net and be dropped"))
            >> elim (direct_net_conflict link (ctx.site_nets ++ ctx.agent_tunnel_subnets)) [
              | none ↦ ok tt
              | some conflict ↦ refuse conflict
            ]))

unfoldable pub check_agents : DirectLink → Context → Result (Unit {0})
unfolding check_sites
check_agents link ctx = elim (ctx.agents link.agent_a_id) [
  | none ↦ refuse (codes "both agents must exist")
  | some a ↦ elim (ctx.agents link.agent_b_id) [
    | none ↦ refuse (codes "both agents must exist")
    | some b ↦ elim (ctx.site_link_id_of a) [
      | none ↦ refuse not_bound
      | some la ↦ elim (ctx.site_link_id_of b) [
        | none ↦ refuse not_bound
        | some lb ↦ check_sites link ctx a b la lb
      ]
    ]
  ]
]

-- The checks against the agents and the networks apply to an enabled link only.
unfoldable pub assert_direct_link_fits : DirectLink → Context → Result (Unit {0})
unfolding assert_no_link_clash check_agents
assert_direct_link_fits link ctx =
    assert_no_link_clash link ctx.others >> (if link.enabled then check_agents link ctx else ok tt)
