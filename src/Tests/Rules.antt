-- ===== src/Tests/Rules.antt =====
-- Runs of the ingress rules.
use floppyguard.Base.{
  ℕ, suc, ◌≤◌, ◌≡◌, ◌≢◌, ◌↔◌, refl, Bool, true, false, ◌&&◌, Option, none, some, List, [], ◌∷◌, All,
  In, any, all, filter, flat_map, length, arith, if◌then◌else◌, ◌==◌,
}
use floppyguard.Base.Text.{
  Text, codes, text_eq, includes, split, trim, join, is_number, number_from, decimal,
}
use floppyguard.Json.{
  Json, num, str, arr, obj, Items, nil, cons, end, field, items, string_of, truthy, is_undefined,
  is_nullish, get,
}
use floppyguard.Result.{ok, ◌>>=◌, for_each}
use floppyguard.Cidr.{ip_to_int, int_to_ip, masked, render, canonical_cidr, block_of, cidr_contains}
use floppyguard.Ingress.{
  Port, Rule, max_list, is_wg_iface, is_direct_iface, echo_value, max_rules_per_agent,
}
use floppyguard.Ingress.Sanitize.{
  Patch, sanitize_cidr_list, sanitize_ports, sanitize_ingress_rule, clean_text, rule_line_count,
  assert_rule_line_count, assert_total_line_count,
}
use floppyguard.Ingress.Sanitize.Lists.{IsClean, entries_of, sanitize_cidr_list-IsClean}
use floppyguard.Ingress.Sanitize.Ports.{IsPort, sanitize_ports-IsPort}
use floppyguard.Ingress.Sanitize.Rules.{IsPatch, IsComplete, sanitize_ingress_rule-IsPatch}
use floppyguard.Ingress.Cover.{Flow, rule_covers, in_range}
use floppyguard.Ingress.Restore.{
  Agent, Payload, active_rules, build_ingress_restore, mode_of, line_text, emit, port_ok,
  needs_alias, canonical_all, emit_rule, emit_triples, emit_port, emit_iface, emit_alias,
}
use floppyguard.Ingress.Restore.Success.{
  IsReady, IsAgent, payload_lines, capped, build_ingress_restore-eq,
}
use floppyguard.Ingress.Restore.Counts.{build_saved}
use floppyguard.Ingress.Restore.Covers.{IsFilter, covered_iff}

run : Unit {0}
unfolding canonical_cidr split trim ip_to_int is_number number_from int_to_ip decimal masked render
    block_of cidr_contains text_eq includes join string_of is_undefined is_nullish truthy get
    for_each is_wg_iface is_direct_iface echo_value sanitize_cidr_list sanitize_ports
    sanitize_ingress_rule clean_text rule_line_count assert_rule_line_count assert_total_line_count
    rule_covers in_range active_rules build_ingress_restore line_text emit port_ok needs_alias
    canonical_all emit_rule emit_triples emit_port emit_iface emit_alias
run = tt

abbrev list_of : Text → Items
list_of s = cons (str s) nil

abbrev payload : Json
payload = obj (
    field (codes "name") (str (codes " web ")) (
      field (codes "sources") (arr (list_of (codes "10.0.0.9/24"))) (
        field (codes "ports")
          (arr (cons (obj (field (codes "port") (str (codes "80-90")) end)) nil)) end)))

abbrev web_port : Port
web_port = record { proto = codes "tcp"; port = codes "80:90" }

abbrev patch : Patch
patch = record {
  name = some (codes "web");
  sources = some (codes "10.0.0.0/24" ∷ []);
  destinations = some [];
  ports = some (web_port ∷ []);
  enabled = some true;
  note = some none;
}

sanitize_payload : sanitize_ingress_rule payload false ≡ ok patch
unfolding run
sanitize_payload = refl

sanitize_ingress_rule-IsPatch_example : IsPatch patch × (false ≡ false → IsComplete patch)
sanitize_ingress_rule-IsPatch_example =
    sanitize_ingress_rule-IsPatch payload false patch sanitize_payload

abbrev two_nets : Items
two_nets = cons (str (codes "10.0.0.9/24")) (cons (str (codes "10.0.0.0/24")) nil)

sanitize_two_nets :
    sanitize_cidr_list (arr two_nets) (codes "sources") false ≡ ok (codes "10.0.0.0/24" ∷ [])
unfolding run
sanitize_two_nets = refl

sanitize_cidr_list-IsClean_example :
    IsClean (items two_nets) (codes "10.0.0.0/24" ∷ [])
    × (length (items two_nets) ≤ max_list)
    × (false ≡ false → (codes "10.0.0.0/24" ∷ []) ≢ [])
sanitize_cidr_list-IsClean_example =
    sanitize_cidr_list-IsClean (arr two_nets) (codes "sources") false (codes "10.0.0.0/24" ∷ [])
      sanitize_two_nets

abbrev port_values : Json
port_values = arr (cons (obj (field (codes "port") (num (codes "443")) end)) nil)

abbrev https : Port
https = record { proto = codes "tcp"; port = codes "443" }

sanitize_https : sanitize_ports port_values ≡ ok (https ∷ [])
unfolding run
sanitize_https = refl

sanitize_ports-IsPort_example :
    All IsPort (https ∷ [])
    × floppyguard.Base.Distinct (https ∷ [])
    × (length (entries_of port_values) ≤ max_list)
sanitize_ports-IsPort_example = sanitize_ports-IsPort port_values (https ∷ []) sanitize_https

abbrev web : Rule
web = record {
  id = 7;
  agent_id = 1;
  name = codes "web";
  sources = codes "10.0.0.0/24" ∷ [];
  destinations = codes "192.168.5.10/32" ∷ [];
  ports = web_port ∷ [];
  enabled = true;
  note = none;
  hit_packets = 0;
  last_hit_at = none;
  armed_on = none;
}

abbrev gateway : Agent
gateway = record {
  ingress_mode = codes "restricted";
  iface = codes "wg0";
  direct_ifaces = codes "fgd3" ∷ [];
  direct_aliases = [];
}

gateway-IsAgent : IsAgent gateway
unfolding run
gateway-IsAgent = record { iface = refl; direct = (refl, tt) }

web-IsReady : IsReady web
unfolding run
web-IsReady = record {
  id_pos = omega arith;
  sources = (refl, tt);
  sources_full = λ e. cc;
  destinations = (refl, tt);
  ports = (
    record {
      proto_known = refl;
      from = 80;
      to = 90;
      from_pos = omega arith;
      from_le = omega arith;
      to_le = omega arith;
      text = refl;
    },
    tt,
  );
}

abbrev visit : Flow
visit = record {
  src = codes "10.0.0.7";
  dst = codes "192.168.5.10";
  port = some 85;
  proto = codes "tcp";
}

visit_covered : rule_covers web visit ≡ true
unfolding run
visit_covered = refl

abbrev no_hash : Text → Text
no_hash t = []

few_active : length (active_rules (web ∷ [])) ≤ max_rules_per_agent
unfolding run
few_active = omega arith

abbrev web_text : Text
web_text =
    codes
      "*filter\n:FG_IN - [0:0]\n-A FG_IN -m conntrack --ctstate RELATED,ESTABLISHED -j ACCEPT\n-A FG_IN -s 10.0.0.0/24 -d 192.168.5.10/32 -i wg0 -p tcp -m tcp --dport 80:90 -m comment --comment \"fg:7\" -j ACCEPT\n-A FG_IN -s 10.0.0.0/24 -d 192.168.5.10/32 -i fgd3 -p tcp -m tcp --dport 80:90 -m comment --comment \"fg:7\" -j ACCEPT\n-A FG_IN -i wg0 -j DROP\n-A FG_IN -i fgd3 -j DROP\nCOMMIT\n"

abbrev web_payload : Payload
web_payload = record { text = web_text; hash = []; rule_count = 2 }

web_built : build_ingress_restore no_hash gateway (web ∷ []) ≡ ok (some web_payload)
unfolding run
web_built = refl

covered_iff_example :
    IsFilter no_hash gateway web_payload visit (any (λ r. rule_covers r visit) (web ∷ []) ≡ true)
covered_iff_example =
    covered_iff no_hash gateway (web ∷ []) web_payload visit gateway-IsAgent (web-IsReady, tt)
      few_active web_built

build_ingress_restore-eq_example : build_ingress_restore no_hash gateway (web ∷ []) ≡ (
    if text_eq (mode_of gateway.ingress_mode) (codes "open")
      && length (active_rules (web ∷ [])) == 0
    then ok none
    else (capped no_hash gateway (payload_lines gateway (web ∷ [])) >>= λ p. ok (some p)))
build_ingress_restore-eq_example =
    build_ingress_restore-eq no_hash gateway (web ∷ []) gateway-IsAgent (web-IsReady, tt) few_active

saved : assert_total_line_count (web ∷ []) 2 ≡ ok tt
unfolding run
saved = refl

build_saved_example :
    (p : Option Payload) × (build_ingress_restore no_hash gateway (web ∷ []) ≡ ok p)
build_saved_example =
    build_saved no_hash gateway (web ∷ []) gateway-IsAgent (web-IsReady, tt) few_active refl saved
