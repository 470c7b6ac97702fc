-- ===== src/Tests/Files.antt =====
-- Runs of the readers of the hub's files and of the config of a direct link.
use floppyguard.Base.{ℕ, ◌≡◌, refl, false, none, some, List, [], ◌∷◌, ◌++◌, all, any, filter}
use floppyguard.Base.Text.{
  Text, codes, text_eq, includes, split, join, trim, trim_start, is_space, is_digit, is_number,
  number_from, decimal,
}
use floppyguard.Cidr.{ip_to_int, int_to_ip, masked, render, canonical_cidr}
use floppyguard.Ingress.{strip, is_wg_iface, is_direct_iface}
use floppyguard.Ingress.Hits.{next_hit_state}
use floppyguard.SiteIsolation.{ends_with, has_code, octet_value, add_unique, uniq_onto}
use floppyguard.Service.Binding.{is_base64}
use floppyguard.Service.Files.{
  word_of, assignment, flush, host_parts, peer_line, peer_lines, peer_tunnel_hosts, drop_to_end,
  drop_comment, words, add_names, host_lines, parse_hosts_file,
}
use floppyguard.WireGuard.Metadata.Merge.{lookup, put}
use floppyguard.WireGuard.Dump.{
  without_returns, lines_of, leading_number, parse_count, entries_of_list, dump_peer, dump_line,
  dump_round, dump_rounds, parse_dump, DumpIface,
}
use floppyguard.Result.{ok, for_each}
use floppyguard.DirectLink.{address_number, tunnel_addresses}
use floppyguard.DirectLink.Config.{
  ConfigLink, b, direct_guard_chain, ends_key, is_key_text, is_wg_public_key, assert_cidr,
  assert_cidrs, build_direct_hooks, build_direct_config,
}

run : Unit {0}
unfolding text_eq includes split join trim trim_start is_space is_digit is_number number_from
    decimal all any filter ip_to_int int_to_ip masked render canonical_cidr strip is_wg_iface
    is_direct_iface next_hit_state ends_with has_code octet_value add_unique uniq_onto is_base64
    word_of assignment flush host_parts peer_line peer_lines peer_tunnel_hosts drop_to_end
    drop_comment words add_names host_lines parse_hosts_file lookup put without_returns lines_of
    leading_number parse_count entries_of_list dump_peer dump_line dump_round dump_rounds parse_dump
    address_number tunnel_addresses direct_guard_chain ends_key is_key_text is_wg_public_key
    for_each assert_cidr assert_cidrs build_direct_hooks build_direct_config
run = tt

abbrev conf : Text
conf = join (10 ∷ []) (
    codes "[Interface]"
    ∷ codes "Address = 10.10.0.1/24"
    ∷ codes "[Peer]"
    ∷ codes "PublicKey = other="
    ∷ codes "AllowedIPs = 10.10.0.9/32"
    ∷ codes "[Peer]"
    ∷ codes "PublicKey = key="
    ∷ codes "AllowedIPs = 10.10.0.4/32, 192.168.1.0/24,10.10.0.4"
    ∷ [])

hosts_of_peer : peer_tunnel_hosts conf (codes "key=") ≡ codes "10.10.0.4/32" ∷ []
unfolding run
hosts_of_peer = refl

abbrev hosts : Text
hosts =
    codes "127.0.0.1  localhost # loop"
    ++ (10 ∷ codes "10.0.0.5 nas files")
    ++ (10 ∷ codes "fe80::1 nas")

names_of_hosts :
    parse_hosts_file (λ t. t) hosts
    ≡ (codes "localhost", codes "127.0.0.1")
      ∷ (codes "nas", codes "10.0.0.5")
      ∷ (codes "files", codes "10.0.0.5")
      ∷ []
unfolding run
names_of_hosts = refl

abbrev tab : Text → Text → Text
tab s t = s ++ (9 ∷ t)

abbrev dump : Text
dump =
    tab (codes "wg0") (tab (codes "priv") (tab (codes "pub") (tab (codes "51820") (codes "off"))))
    ++ (10
        ∷ tab (codes "wg0") (
            tab (codes "key=") (
              tab (codes "(none)") (
                tab (codes "1.2.3.4:5") (
                  tab (codes "10.10.0.4/32")
                    (tab (codes "900") (tab (codes "17") (tab (codes "4") (codes "25")))))))))

abbrev counters : List (Text × DumpIface) → List (ℕ × (ℕ × (ℕ × ℕ)))
counters [] = []
counters (e ∷ es) =
    ((e.1).peer_count, ((e.1).active_peer_count, ((e.1).rx_bytes, (e.1).tx_bytes))) ∷ counters es

active_peer : counters (parse_dump 1000 dump) ≡ (1, (1, (17, 4))) ∷ []
unfolding run
active_peer = refl

chain_rebuilt :
    next_hit_state (record { hit_packets = 10; last_hit_at = some 5 }) 0 99
    ≡ (record { hit_packets = 0; last_hit_at = some 5 })
unfolding run
chain_rebuilt = refl

abbrev link : ConfigLink
link = record {
  id = 12;
  tunnel_subnet = codes "10.10.9.0/30";
  listen_port = 51900;
  endpoint_host = codes "203.0.113.5";
  nat_a = false;
  nat_b = false;
  mtu = some 1420;
}

config_without_key : build_direct_config link b (codes "wg0") none [] [] ≡ ok none
unfolding run
config_without_key = refl

guard_name : direct_guard_chain (codes "fgd12") ≡ codes "FGD12"
unfolding run
guard_name = refl
