-- ===== src/Tests/Service.antt =====
-- Runs of the service around the ingress rules.
use floppyguard.Base.{
  ◌≡◌, ◌≢◌, ◌↔◌, ◌⊎◌, refl, true, false, none, some, [], ◌∷◌, ◌++◌, In, any, all, filter, flat_map,
}
use floppyguard.Base.Text.{
  Text, codes, text_eq, split, trim, is_number, number_from, decimal, is_digit,
}
use floppyguard.Cidr.{ip_to_int, int_to_ip, masked, render, canonical_cidr, cidr_contains, block_of}
use floppyguard.Ingress.{Rule, take, strip, pub_key8}
use floppyguard.Service.{StatusLink}
use floppyguard.Service.Binding.{
  is_base64, is_key8, key_behind, bound_key, is_generated_link_name, named, by_key,
  resolve_bound_status_link,
}
use floppyguard.Service.Binding.Retyped.{resolve_bound_status_link-retyped}
use floppyguard.Service.Clients.{VpnClient, gap_dst, lets_client_in, client_ingress_gaps}
use floppyguard.Service.Clients.Gaps.{IsPart, LetsIn, client_ingress_gaps-nil}
use floppyguard.Service.Applied.{
  Report, failed, never, or_absent, reported_state, ingress_applied_state,
}
use floppyguard.Service.Applied.States.{ingress_applied_state-failed}

run : Unit {0}
unfolding text_eq split trim is_number number_from decimal is_digit ip_to_int int_to_ip masked
    render canonical_cidr cidr_contains block_of take strip pub_key8 all filter any flat_map
    is_base64 is_key8 key_behind bound_key is_generated_link_name named by_key
    resolve_bound_status_link gap_dst lets_client_in client_ingress_gaps reported_state
    ingress_applied_state
run = tt

-- A link that was shown as "client-abcdEF12" before a second network made it a hub link.
abbrev grown : StatusLink
grown = record {
  id = codes "wg0:abcdEF12";
  name = codes "hub-link-abcdEF12";
  type = codes "hub-link";
  type_explicit = none;
  peer_public_key = some (codes "abcdEF123456");
  interface_name = codes "wg0";
  imported_networks = codes "192.168.1.0/24" ∷ codes "192.168.2.0/24" ∷ [];
  exported_networks = [];
  allowed_ips = [];
  tunnel_addresses = [];
  full_tunnel = false;
}

grown_carries : is_key8 (pub_key8 (codes "abcdEF123456")) ≡ true
unfolding run
grown_carries = refl

grown_generated : grown.name ≡ codes "hub-link-" ++ pub_key8 (codes "abcdEF123456")
unfolding run
grown_generated = refl

resolve_bound_status_link-retyped_example :
    resolve_bound_status_link (some (codes "client-abcdEF12")) (grown ∷ []) ≡ some grown
unfolding run
resolve_bound_status_link-retyped_example =
    resolve_bound_status_link-retyped [] grown [] b'c' (codes "lient") refl refl refl (refl, tt) tt
      tt

abbrev report : Report
report = record {
  desired_hash = some (codes "new");
  applied_hash = some (codes "old");
  error = some (codes "iptables-restore failed");
  build_error = none;
  last_seen = never;
  now = 1000;
}

ingress_applied_state-failed_example : ((ingress_applied_state report).state ≡ failed) ↔ (
    (or_absent report.build_error ≢ none)
    ⊎ ((or_absent report.applied_hash ≢ none) × (or_absent report.error ≢ none)))
ingress_applied_state-failed_example = ingress_applied_state-failed report

silent_agent : (ingress_applied_state report).state ≡ failed
unfolding run
silent_agent = refl

abbrev laptop : VpnClient
laptop = record {
  id = codes "wg0:K=";
  label = codes "laptop";
  hosts = codes "10.10.0.4/32" ∷ [];
  nets = codes "192.168.0.0/16" ∷ [];
}

abbrev to_server : Rule
to_server = record {
  id = 3;
  agent_id = 1;
  name = codes "laptops";
  sources = codes "10.10.0.0/24" ∷ [];
  destinations = codes "192.168.60.10/32" ∷ [];
  ports = [];
  enabled = true;
  note = none;
  hit_packets = 0;
  last_hit_at = none;
  armed_on = none;
}

-- One server of the network is enough.
no_gap : client_ingress_gaps (laptop ∷ []) (codes "192.168.60.0/24" ∷ []) (to_server ∷ []) ≡ []
unfolding run
no_gap = refl

client_ingress_gaps-nil_example :
    (client_ingress_gaps (laptop ∷ []) (codes "192.168.60.0/24" ∷ []) (to_server ∷ []) ≡ []) ↔ (
      (c : VpnClient)
      → In c (laptop ∷ [])
      → (net : Text) → In net c.nets
      → (own : Text) → In own (codes "192.168.60.0/24" ∷ [])
      → (dst : Text) → IsPart own net dst
      → (host : Text) → In host c.hosts
      → (r : Rule) × In r (to_server ∷ []) × LetsIn host dst r)
client_ingress_gaps-nil_example =
    client_ingress_gaps-nil (laptop ∷ []) (codes "192.168.60.0/24" ∷ []) (to_server ∷ [])
