-- ===== src/Tests/Catalog.antt =====
-- Runs of the catalog, the flow tester and the bulk operations.
use Prim.Native.Nat.{Ordering}
use floppyguard.Base.{
  ℕ, ◌≤◌, ◌<◌, ◌≡◌, ◌↔◌, refl, Bool, true, false, Option, none, some, List, [], ◌∷◌, map, filter,
  All, In, any, all, flat_map, length, inl, arith,
}
use floppyguard.Base.Text.{
  Text, codes, text_eq, includes, split, trim, join, is_number, number_from, decimal, is_digit,
}
use floppyguard.Json.{Json, num, str, arr, Items, nil, cons, items, string_of}
use floppyguard.Result.{ok, for_each}
use floppyguard.Cidr.{ip_to_int, int_to_ip, masked, render, canonical_cidr, block_of, cidr_contains}
use floppyguard.Ingress.{Rule, is_wg_iface, is_direct_iface, max_rules_per_agent}
use floppyguard.Ingress.Cover.{
  rule_covers, in_range, dst_covers, ports_cover, port_covers, is_hub_sourced,
}
use floppyguard.Ingress.Restore.{
  Agent, Payload, insert_rule, sort_rules, active_rules, build_ingress_restore, line_text, emit,
  port_ok, needs_alias, mode_of, canonical_all, emit_rule, emit_triples, emit_port, emit_iface,
  emit_alias,
}
use floppyguard.Ingress.Restore.Success.{IsAgent, IsReady, is_restricted}
use floppyguard.Ingress.Restore.Covers.{IsFilter}
use floppyguard.Catalog.{rule_ref, max_bulk_disable, to_unix_seconds, count}
use floppyguard.Catalog.Evaluate.{Query, evaluate_flow, match_rules, find_rule}
use floppyguard.Catalog.Evaluate.Payload.{Reaches, evaluate_flow-payload}
use floppyguard.Catalog.Evaluate.First.{evaluate_flow-least}
use floppyguard.Catalog.Prune.{
  DatedRule, PruneQuery, Candidate, rule_reference_time, armed_time, is_needed, unused_of,
  newest_from, remove_at, keep_one, prune_candidates,
}
use floppyguard.Catalog.Prune.Safe.{IsPrunable, prune_candidates-IsPrunable, prune_candidates-lt}
use floppyguard.Catalog.Bulk.{includes_id, id_round, sanitize_rule_ids, Target, bulk_dedupe}
use floppyguard.Catalog.Bulk.Ids.{IsIdList, sanitize_rule_ids-IsIdList}
use floppyguard.Catalog.Bulk.Partition.{IsPartition, bulk_dedupe-IsPartition}
use floppyguard.Catalog.Upstreams.{Shown}

run : Unit {0}
unfolding canonical_cidr split trim ip_to_int is_number number_from int_to_ip decimal masked render
    block_of cidr_contains text_eq includes rule_covers in_range dst_covers ports_cover port_covers
    is_hub_sourced insert_rule sort_rules evaluate_flow match_rules find_rule filter any all
    is_wg_iface is_direct_iface rule_reference_time armed_time is_needed unused_of newest_from
    remove_at keep_one prune_candidates to_unix_seconds includes_id id_round sanitize_rule_ids
    for_each string_of is_digit active_rules build_ingress_restore line_text emit port_ok
    needs_alias canonical_all emit_rule emit_triples emit_port emit_iface emit_alias join
run = tt

abbrev rule : ℕ → Bool → Rule
rule id enabled = record {
  id = id;
  agent_id = 1;
  name = codes "web";
  sources = codes "10.10.0.1/32" ∷ [];
  destinations = codes "192.168.5.10/32" ∷ [];
  ports = [];
  enabled = enabled;
  note = none;
  hit_packets = 0;
  last_hit_at = none;
  armed_on = some 1000;
}

abbrev two_rules : List Rule
two_rules = rule 9 true ∷ rule 4 true ∷ []

abbrev question : Query
question = record {
  mode = codes "restricted";
  rules = two_rules;
  own_nets = codes "192.168.5.0/24" ∷ [];
  hub_nets = [];
  flow = record {
    src = codes "10.10.0.1";
    dst = codes "192.168.5.10";
    port = some 443;
    proto = codes "tcp";
  };
  applied_state = some (codes "applied");
  isolation = none;
}

abbrev gate : Agent
gate = record {
  ingress_mode = codes "restricted";
  iface = codes "wg0";
  direct_ifaces = [];
  direct_aliases = [];
}

gate-IsAgent : IsAgent gate
unfolding run
gate-IsAgent = record { iface = refl; direct = tt }

question-Reaches : Reaches question
unfolding run
question-Reaches = record { restricted = refl; open_way = refl; via = refl; other_site = refl }

rule-IsReady : (id : ℕ) → 0 < id → IsReady (rule id true)
unfolding run
rule-IsReady id pos = record {
  id_pos = pos;
  sources = (refl, tt);
  sources_full = λ e. cc;
  destinations = (refl, tt);
  ports = tt;
}

two-IsReady : All IsReady two_rules
two-IsReady = (rule-IsReady 9 (omega arith), (rule-IsReady 4 (omega arith), tt))

few_active : length (active_rules two_rules) ≤ max_rules_per_agent
unfolding run
few_active = omega arith

abbrev no_hash : Text → Text
no_hash t = []

abbrev gate_payload : Payload
gate_payload = record {
  text =
      codes
        "*filter\n:FG_IN - [0:0]\n-A FG_IN -m conntrack --ctstate RELATED,ESTABLISHED -j ACCEPT\n-A FG_IN -s 10.10.0.1/32 -d 192.168.5.10/32 -i wg0 -m comment --comment \"fg:4\" -j ACCEPT\n-A FG_IN -s 10.10.0.1/32 -d 192.168.5.10/32 -i wg0 -m comment --comment \"fg:9\" -j ACCEPT\n-A FG_IN -i wg0 -j DROP\nCOMMIT\n";
  hash = [];
  rule_count = 2;
}

gate_built : build_ingress_restore no_hash gate two_rules ≡ ok (some gate_payload)
unfolding run
gate_built = refl

same_mode : mode_of gate.ingress_mode ≡ question.mode
unfolding run
same_mode = refl

evaluate_flow-payload_example :
    (is_restricted gate ≡ true)
    × IsFilter no_hash gate gate_payload question.flow
        ((evaluate_flow question).allowed ≡ some true)
evaluate_flow-payload_example =
    evaluate_flow-payload no_hash question gate gate_payload gate-IsAgent two-IsReady few_active
      same_mode question-Reaches gate_built

least_named : (evaluate_flow question).rule ≡ some (rule_ref (rule 4 true))
unfolding run
least_named = refl

evaluate_flow-least_example :
    (first : Rule) × (rule_ref (rule 4 true) ≡ rule_ref first)
    × In first two_rules
    × (rule_covers first question.flow ≡ true)
    × ((r : Rule) → In r two_rules → rule_covers r question.flow ≡ true → 4 ≤ r.id)
evaluate_flow-least_example = evaluate_flow-least question (rule_ref (rule 4 true)) least_named

abbrev no_dates : Text → Option ℕ
no_dates t = none

abbrev quiet : PruneQuery
quiet = record {
  rules =
      (record { rule = rule 9 true; created_on = count 500 })
      ∷ (record { rule = rule 4 true; created_on = count 600 })
      ∷ [];
  behind = [];
  hub_srcs = codes "10.10.0.1/32" ∷ [];
  mode = codes "restricted";
  now = 9000000;
  link_found = true;
  applied_state = some (codes "applied");
}

abbrev offered : Candidate
offered = record { id = 4; name = codes "web"; last_hit_at = none }

-- Both rules are unused, and one of them stays.
one_offered : prune_candidates no_dates quiet ≡ offered ∷ []
unfolding run
one_offered = refl

offered_listed : In offered (prune_candidates no_dates quiet)
offered_listed = rw one_offered (inl refl)

prune_candidates-IsPrunable_example :
    (d : DatedRule) × IsPrunable no_dates quiet d × ((d.rule).id ≡ 4)
prune_candidates-IsPrunable_example =
    prune_candidates-IsPrunable no_dates quiet offered offered_listed

both_enabled : length (filter (λ d. (d.rule).enabled) quiet.rules) ≡ 2
unfolding run
both_enabled = refl

prune_candidates-lt_example :
    length (prune_candidates no_dates quiet) < length (filter (λ d. (d.rule).enabled) quiet.rules)
prune_candidates-lt_example =
    prune_candidates-lt no_dates quiet restricted (rw both_enabled (omega arith))
  where
    restricted : text_eq (codes "restricted") (codes "restricted") ≡ true
    restricted = floppyguard.Base.Text.Laws.text_eq_refl (codes "restricted")

abbrev ids : Json
ids = arr (cons (num (codes "7")) (cons (str (codes "7")) (cons (num (codes "3")) nil)))

ids_pass : sanitize_rule_ids ids ≡ ok (7 ∷ 3 ∷ [])
unfolding run
ids_pass = refl

sanitize_rule_ids-IsIdList_example :
    (vs : Items) × (ids ≡ arr vs)
    × IsIdList (items vs) (7 ∷ 3 ∷ [])
    × (1 ≤ length (items vs))
    × (length (items vs) ≤ max_bulk_disable)
sanitize_rule_ids-IsIdList_example = sanitize_rule_ids-IsIdList ids (7 ∷ 3 ∷ []) ids_pass

abbrev wanted : List Target
wanted =
    (record { sources = codes "10.0.0.1/32" ∷ []; destinations = []; ports = [] })
    ∷ (record { sources = codes "10.0.0.1" ∷ []; destinations = []; ports = [] })
    ∷ []

bulk_dedupe-IsPartition_example : IsPartition two_rules wanted (bulk_dedupe two_rules wanted)
bulk_dedupe-IsPartition_example = bulk_dedupe-IsPartition two_rules wanted

abbrev same_order : Text → Text → Ordering
same_order s t = Ordering.eq

abbrev shown : List Shown
shown =
    (record {
      up = record {
        host = codes "192.168.5.10";
        port = some 443;
        proto = codes "tcp";
        source = none;
      };
      kind = codes "stream";
      label = codes "web";
      enabled = true;
    })
    ∷ []
