-- ===== src/Tests/Links.antt =====
-- Runs of the checks on direct links.
use floppyguard.Base.{◌≡◌, ◌↔◌, refl, true, false, none, some, [], ◌∷◌, All, any, ℕ, Option}
use floppyguard.Base.Text.{Text, codes, text_eq, split, trim, is_number, number_from, decimal}
use floppyguard.Result.{ok, for_each}
use floppyguard.Cidr.{ip_to_int, int_to_ip, masked, render, canonical_cidr, block_of, cidr_contains}
use floppyguard.SiteIsolation.{octet_value}
use floppyguard.DirectLink.{
  DirectLink, SideAgent, Context, is_ipv4_literal, address_number, is_private_net,
  canonical_tunnel_subnet, tunnel_addresses, nat_restricted_conflict, find_net, direct_net_conflict,
  clash_round, assert_no_link_clash, check_sites, check_agents, assert_direct_link_fits,
}
use floppyguard.DirectLink.Peers.{sort_texts, insert_text, direct_peer_nets, direct_peer_nets-In}
use floppyguard.Base.{List, filter, In, Distinct}
use floppyguard.Base.Text.{includes}
use floppyguard.SiteIsolation.{text_lt, uniq_onto}
use floppyguard.DirectLink.{meets_subnet}
use floppyguard.DirectLink.Fits.{OtherApart, Fits, assert_direct_link_fits-Fits}

run : Unit {0}
unfolding canonical_cidr split trim ip_to_int is_number number_from int_to_ip decimal masked render
    block_of cidr_contains text_eq for_each octet_value is_ipv4_literal address_number
    is_private_net canonical_tunnel_subnet tunnel_addresses nat_restricted_conflict find_net
    direct_net_conflict clash_round assert_no_link_clash check_sites check_agents
    assert_direct_link_fits any
run = tt

subnet_accepted : canonical_tunnel_subnet (codes " 10.10.9.0/30") ≡ some (codes "10.10.9.0/30")
unfolding run
subnet_accepted = refl

-- Leading zeros stay.
subnet_zeros : canonical_tunnel_subnet (codes "010.10.9.0/30") ≡ some (codes "010.10.9.0/30")
unfolding run
subnet_zeros = refl

host_bits_refused : canonical_tunnel_subnet (codes "10.10.9.1/30") ≡ none
unfolding run
host_bits_refused = refl

side_addresses : tunnel_addresses (codes "10.10.9.0/30") ≡ (codes "10.10.9.1", codes "10.10.9.2")
unfolding run
side_addresses = refl

abbrev direct : ℕ → ℕ → ℕ → Text → DirectLink
direct id a b subnet = record {
  id = id;
  name = codes "direct";
  agent_a_id = a;
  agent_b_id = b;
  listen_port = 51900;
  endpoint_host = codes "203.0.113.7";
  tunnel_subnet = subnet;
  nat_a = false;
  nat_b = false;
  enabled = true;
}

abbrev agent : ℕ → Option SideAgent
agent id = some (record { agent_id = id; ingress_mode = codes "open" })

abbrev mesh : Context
mesh = record {
  agents = agent;
  site_link_id_of = λ x. some (decimal x.agent_id);
  isolated = λ x y. false;
  site_nets = codes "192.168.7.0/24" ∷ [];
  agent_tunnel_subnets = codes "10.8.0.0/24" ∷ [];
  others = direct 2 3 4 (codes "10.10.9.4/30") ∷ [];
}

link_fits : assert_direct_link_fits (direct 1 1 2 (codes "10.10.9.0/30")) mesh ≡ ok tt
unfolding run
link_fits = refl

assert_direct_link_fits-Fits_example :
    (assert_direct_link_fits (direct 1 1 2 (codes "10.10.9.0/30")) mesh ≡ ok tt) ↔ (
      All (OtherApart (direct 1 1 2 (codes "10.10.9.0/30"))) mesh.others
      × (true ≡ true → Fits (direct 1 1 2 (codes "10.10.9.0/30")) mesh))
assert_direct_link_fits-Fits_example =
    assert_direct_link_fits-Fits (direct 1 1 2 (codes "10.10.9.0/30")) mesh

abbrev reach : List Text
reach = codes "192.168.9.0/24" ∷ codes "10.0.0.0/8" ∷ codes "192.168.9.0/24" ∷ []

-- The wide network holds an own one, so it stays on the hub.
peer_nets : direct_peer_nets reach reach (codes "10.3.10.0/24" ∷ []) ≡ codes "192.168.9.0/24" ∷ []
unfolding run direct_peer_nets sort_texts insert_text uniq_onto filter includes text_lt
peer_nets = refl

direct_peer_nets-In_example :
    Distinct (direct_peer_nets reach reach (codes "10.3.10.0/24" ∷ []))
    × ((n : Text)
        → In n (direct_peer_nets reach reach (codes "10.3.10.0/24" ∷ []))
          ↔ (In n reach × In n reach × (any (meets_subnet n) (codes "10.3.10.0/24" ∷ []) ≡ false)))
direct_peer_nets-In_example = direct_peer_nets-In reach reach (codes "10.3.10.0/24" ∷ [])
