-- ===== src/Ingress/Restore/Success.antt =====
-- When the payload is built: for rules as `sanitizeIngressRule` makes them, every branch of
-- `buildIngressRestore` is given by the list of lines, and rules that passed
-- `assertTotalLineCount` are never refused.
use native.Mathlib.Nat.{zero-add}
use mathlib.Core.List.{append-nil, append_assoc}
use floppyguard.Base.{
  ℕ, zero, suc, ◌+◌, ◌*◌, ◌≤◌, ◌<◌, ◌^◌, ◌≡◌, ◌≢◌, refl, sym, ap, ◌∙◌, Bool, true, false, not, ◌&&◌,
  Option, none, some, List, [], ◌∷◌, ◌++◌, map, All, All-every, All-map, length, length-append,
  length-map, length-flat_map_const, all, all_iff, filter, flat_map, ltb, leb, ◌==◌, arith, inl,
  inr, Bool-cases, if◌then◌else◌,
}
use floppyguard.Base.Text.{Text, codes, text_eq, includes, split, join, decimal, is_digit}
use floppyguard.Base.Text.Laws.{split-Free, split-append}
use floppyguard.Base.Text.Decimal.{Digits-decimal, Free-of_Digits, is_number-decimal}
use floppyguard.Result.{Result, ok, err, internal, ◌>>=◌, for_each}
use floppyguard.Cidr.{canonical_cidr}
use floppyguard.Ingress.{
  Port, Rule, is_wg_iface, is_direct_iface, max_lines_total, max_rules_per_agent,
}
use floppyguard.Ingress.Sanitize.{port_text}
use floppyguard.Ingress.Sanitize.Ports.{IsPort}
use floppyguard.Ingress.Restore.{
  Agent, Line, Built, line_text, emit, port_ok, is_port_text, or_null, canonical_all, emit_rule,
  emit_triples, rule_body, check_direct, Payload, insert_rule, sort_rules, active_rules, mode_of,
  target_of, head_lines, drop_line, tail_lines, finish, build_active, build_ingress_restore,
}
use floppyguard.Ingress.Restore.Lines.{
  Emits, Emits-for_each, triple_lines, emit_triples-Emits, emit_all, emit_too_many,
}

-- A rule as it stands in the database after `sanitizeIngressRule`.
pub record IsReady (r : Rule) : Type 0 where
  pub id_pos : 1 ≤ r.id
  pub sources : All (λ c. canonical_cidr c ≡ some c) r.sources
  pub sources_full : r.sources ≢ []
  pub destinations : All (λ c. canonical_cidr c ≡ some c) r.destinations
  pub ports : All IsPort r.ports

pub record IsAgent (a : Agent) : Type 0 where
  pub iface : is_wg_iface a.iface ≡ true
  pub direct : All (λ d. is_direct_iface d ≡ true) a.direct_ifaces

colon_is_no_digit : is_digit b':' ≡ false
unfolding is_digit
colon_is_no_digit = refl

is_port_text-port_text :
    (from to : ℕ) → from ≤ 65535 → to ≤ 65535 → is_port_text (port_text from to) ≡ true
unfolding is_port_text
is_port_text-port_text from to h k = elim (Bool-cases (from == to)) [
  | inl e ↦ rw (e, split-Free b':' (decimal from) (free from)) (number from h)
  | inr e ↦
      rw
        (
          e,
          split-append b':' (decimal from) (decimal to) (free from),
          split-Free b':' (decimal to) (free to),
          number from h,
        )
        (number to k)
]
  where
    free : (n : ℕ) → All (λ x. x ≢ b':') (decimal n)
    free n = Free-of_Digits b':' (decimal n) colon_is_no_digit (Digits-decimal n)

    number : (n : ℕ) → n ≤ 65535 → floppyguard.Base.Text.is_number 5 (decimal n) ≡ true
    number n l = is_number-decimal 4 n (omega arith)

-- Ports as `sanitizePorts` returns them pass the check of the builder.
port_ok_of_IsPort : (p : Port) → IsPort p → port_ok (some p) ≡ true
unfolding port_ok
port_ok_of_IsPort p v =
    let le = v.from_le in
    let le' = v.to_le in
    rw (v.proto_known, v.text) (is_port_text-port_text v.from v.to (omega arith) (omega arith))

ports_ok : (ps : List Port) → All IsPort ps → All (λ p. port_ok p ≡ true) (or_null ps)
unfolding port_ok
ports_ok [] h = (refl, tt)
ports_ok (p ∷ ps) h = (port_ok_of_IsPort p h.0, somes ps h.1)
  where
    somes : (qs : List Port) → All IsPort qs → All (λ q. port_ok q ≡ true) (map some qs)
    somes [] k = tt
    somes (q ∷ qs) k = (port_ok_of_IsPort q k.0, somes qs k.1)

canonical_all_lem :
    (nets : List Text) → All (λ c. canonical_cidr c ≡ some c) nets → canonical_all nets ≡ some nets
unfolding canonical_all
canonical_all_lem [] h = refl
canonical_all_lem (c ∷ cs) h = rw (canonical_all, h.0, canonical_all_lem cs h.1)

-- The lines of one rule.
abbrev pub rule_lines : Agent → Text → Rule → List Line
rule_lines agent target r =
    triple_lines agent target r r.sources (or_null r.destinations) (or_null r.ports)

rule_body_lem :
    (agent : Agent) (target : Text) (r : Rule) (ss ds : List Text) (b : Built)
    → ss ≢ []
    → rule_body agent target r (some ss) (some ds) b
      ≡ emit_triples agent target r ss (or_null ds) (or_null r.ports) b
rule_body_lem agent target r [] ds b h = absurd (h refl)
rule_body_lem agent target r (s ∷ ss) ds b h = refl

emit_rule-Emits :
    (agent : Agent) (target : Text) (r : Rule)
    → IsReady r
    → Emits (emit_rule agent target r) (rule_lines agent target r)
unfolding emit_rule
emit_rule-Emits agent target r v b =
    let named : (r.id == 0) ≡ false = ground (arith, v.id_pos) in
    rw
      (
        named,
        canonical_all_lem r.sources v.sources,
        canonical_all_lem r.destinations v.destinations,
      )
      (rule_body_lem agent target r r.sources r.destinations b v.sources_full
        ∙ emit_triples-Emits agent target r r.sources (or_null r.destinations) (or_null r.ports)
            (ports_ok r.ports v.ports) b)

-- Sorting and filtering keep a property of every rule.
All-insert_rule :
    (P : Rule → Type 0) (r : Rule) (rs : List Rule) → P r → All P rs → All P (insert_rule r rs)
unfolding insert_rule
All-insert_rule P r [] h k = (h, tt)
All-insert_rule P r (q ∷ qs) h k = elim (Bool-cases (leb r.id q.id)) [
  | inl e ↦ rw e (h, k)
  | inr e ↦ rw e (k.0, All-insert_rule P r qs h k.1)
]

All-sort_rules : (P : Rule → Type 0) (rs : List Rule) → All P rs → All P (sort_rules rs)
unfolding sort_rules
All-sort_rules P [] h = tt
All-sort_rules P (r ∷ rs) h = All-insert_rule P r (sort_rules rs) h.0 (All-sort_rules P rs h.1)

All-filter : (P : Rule → Type 0) (p : Rule → Bool) (rs : List Rule) → All P rs → All P (filter p rs)
unfolding filter
All-filter P p [] h = tt
All-filter P p (r ∷ rs) h = elim (Bool-cases (p r)) [
  | inl e ↦ rw e (h.0, All-filter P p rs h.1)
  | inr e ↦ rw e (All-filter P p rs h.1)
]

pub All-active_rules : (P : Rule → Type 0) (rs : List Rule) → All P rs → All P (active_rules rs)
unfolding active_rules
All-active_rules P rs h = All-sort_rules P _ (All-filter P (λ r. r.enabled) rs h)

-- All lines of the active rules, in the order of the rule ids.
abbrev pub is_restricted : Agent → Bool
is_restricted agent = text_eq (mode_of agent.ingress_mode) (codes "restricted")

abbrev pub payload_lines : Agent → List Rule → List Line
payload_lines agent rules =
    flat_map (rule_lines agent (target_of (is_restricted agent))) (active_rules rules)

abbrev start : Agent → Built
start agent = record { lines = head_lines (target_of (is_restricted agent)); count = 0 }

-- The text of a payload that holds these lines: the header, the lines, a drop for each interface of
-- a restricted agent, and COMMIT, each ended by a line feed.
abbrev closing : Agent → List Text
closing agent =
    if is_restricted agent
    then map (λ i. codes "-A FG_IN -i " ++ i ++ codes " -j DROP")
        (agent.iface ∷ agent.direct_ifaces)
    else []

abbrev table_text : Agent → List Line → Text
table_text agent ls =
    join (codes "\n") (
      head_lines (target_of (is_restricted agent))
      ++ map line_text ls
      ++ closing agent
      ++ codes "COMMIT" ∷ [])
    ++ codes "\n"

abbrev pub payload_of : (Text → Text) → Agent → List Line → Payload
payload_of sha256 agent ls =
    let text = table_text agent ls in
    record { text = text; hash = sha256 text; rule_count = length ls }

tail_lines-eq :
    (restricted : Bool) (before ifaces : List Text)
    → before ++ tail_lines restricted ifaces
      ≡ before ++ (if restricted then map drop_line ifaces else []) ++ codes "COMMIT" ∷ []
tail_lines-eq true before ifaces =
    sym (append_assoc before (map drop_line ifaces) (codes "COMMIT" ∷ []))
tail_lines-eq false before ifaces =
    ap (λ (xs : List Text). xs ++ codes "COMMIT" ∷ []) (sym (append-nil before))

finish-closing :
    (sha256 : Text → Text) (agent : Agent) (ls : List Line)
    → finish sha256 (is_restricted agent) (agent.iface ∷ agent.direct_ifaces) (record {
      lines = head_lines (target_of (is_restricted agent)) ++ map line_text ls;
      count = length ls;
    })
      ≡ payload_of sha256 agent ls
finish-closing sha256 agent ls =
    ap
      (λ (all_lines : List Text).
        let text = join (codes "\n") all_lines ++ codes "\n" in
        record { text = text; hash = sha256 text; rule_count = length ls })
      (tail_lines-eq (is_restricted agent)
        (head_lines (target_of (is_restricted agent)) ++ map line_text ls)
        (agent.iface ∷ agent.direct_ifaces))

-- The outcome once the checks on interfaces and on the number of rules have passed.
abbrev pub capped : (Text → Text) → Agent → List Line → Result Payload
capped sha256 agent ls =
    if ltb max_lines_total (length ls)
    then err (internal (codes "more than 4000 ingress lines"))
    else ok (payload_of sha256 agent ls)

check_directs :
    (ds : List Text) → All (λ d. is_direct_iface d ≡ true) ds → for_each check_direct ds tt ≡ ok tt
unfolding for_each check_direct
check_directs [] h = refl
check_directs (d ∷ ds) h = rw h.0 (check_directs ds h.1)

loop_capped :
    (sha256 : Text → Text) (agent : Agent) (ls : List Line)
    → (for_each emit ls (start agent) >>= λ b.
        ok (finish sha256 (is_restricted agent) (agent.iface ∷ agent.direct_ifaces) b))
      ≡ capped sha256 agent ls
loop_capped sha256 agent ls = elim (Bool-cases (ltb max_lines_total (length ls))) [
  | inl e ↦ rw (e, emit_too_many ls (start agent) (omega arith) (ground arith))
  | inr e ↦
      rw (e, emit_all ls (start agent) (ground arith))
        (rw zero-add (ap ok (finish-closing sha256 agent ls)))
]

build_active-eq :
    (sha256 : Text → Text) (agent : Agent) (rules : List Rule)
    → IsAgent agent
    → All IsReady rules
    → length (active_rules rules) ≤ max_rules_per_agent
    → build_active sha256 agent (is_restricted agent) (active_rules rules)
      ≡ capped sha256 agent (payload_lines agent rules)
unfolding build_active
build_active-eq sha256 agent rules a v few =
    let target = target_of (is_restricted agent) in
    let fits : ltb max_rules_per_agent (length (active_rules rules)) ≡ false = ground arith in
    let loop =
      Emits-for_each (emit_rule agent target) (rule_lines agent target) (active_rules rules) (
        All-map (λ r. emit_rule-Emits agent target r) (active_rules rules)
          (All-active_rules IsReady rules v)) in
    rw (a.iface, check_directs agent.direct_ifaces a.direct, fits, loop (start agent))
      (loop_capped sha256 agent (payload_lines agent rules))

-- For valid interfaces and rules, 500 active ones at most, the outcome on every branch: no payload
-- in open mode without active rules, an error where the lines exceed the cap of 4000, and else the
-- header, the lines of the active rules by id, the drops of a restricted agent, and COMMIT.
pub build_ingress_restore-eq :
    (sha256 : Text → Text) (agent : Agent) (rules : List Rule)
    → IsAgent agent
    → All IsReady rules
    → length (active_rules rules) ≤ max_rules_per_agent
    → build_ingress_restore sha256 agent rules ≡ (
        if text_eq (mode_of agent.ingress_mode) (codes "open") && length (active_rules rules) == 0
        then ok none
        else (capped sha256 agent (payload_lines agent rules) >>= λ p. ok (some p)))
unfolding build_ingress_restore
build_ingress_restore-eq sha256 agent rules a v few =
    ap
      (λ (r : Result Payload).
        if text_eq (mode_of agent.ingress_mode) (codes "open") && length (active_rules rules) == 0
        then ok none
        else (r >>= λ p. ok (some p)))
      (build_active-eq sha256 agent rules a v few)
