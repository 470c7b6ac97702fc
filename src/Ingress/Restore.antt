-- ===== src/Ingress/Restore.antt =====
-- `buildIngressRestore`: the iptables-restore payload of one agent, as the loops of the source
-- write it.
pub mod Lines
pub mod Success
pub mod Counts
pub mod Covers
use floppyguard.Base.{
  ℕ, suc, ◌+◌, Bool, true, false, not, ◌&&◌, ◌||◌, Option, none, some, List, [], ◌∷◌, ◌++◌, map,
  length, ltb, leb, ◌==◌, all, any, filter, if◌then◌else◌,
}
use floppyguard.Base.Text.{Text, codes, text_eq, includes, join, split, decimal, is_number}
use floppyguard.Result.{Result, ok, err, internal, ◌>>=◌, ◌>>◌, throw_if, for_each}
use floppyguard.Cidr.{canonical_cidr, cidr_contains}
use floppyguard.Ingress.{
  Port, Rule, ingress_chain, ingress_modes, ingress_protos, is_wg_iface, is_direct_iface,
  max_lines_total, max_rules_per_agent,
}

-- The partner gateway of a direct link: its hub tunnel address and its address on the link.
pub record Alias : Type 0 where
  pub iface : Text
  pub hub : Text
  pub direct : Text

pub record Agent : Type 0 where
  pub ingress_mode : Text
  pub iface : Text
  pub direct_ifaces : List Text
  pub direct_aliases : List Alias

-- What one filter line says. `dst` and `port` are null where they are `none`.
pub record Line : Type 0 where
  pub src : Text
  pub dst : Option Text
  pub iface : Text
  pub port : Option Port
  pub rule : ℕ
  pub target : Text

abbrev dst_part : Option Text → Text
dst_part none = []
dst_part (some d) = codes " -d " ++ d

abbrev port_part : Option Port → Text
port_part none = []
port_part (some p) =
    codes " -p " ++ (p.proto ++ (codes " -m " ++ (p.proto ++ (codes " --dport " ++ p.port))))

-- The text that the source puts together in `l`.
unfoldable pub line_text : Line → Text
line_text l =
    codes "-A FG_IN -s "
    ++ (l.src
        ++ (dst_part l.dst
            ++ (codes " -i "
                ++ (l.iface
                    ++ (port_part l.port
                        ++ (codes " -m comment --comment \"fg:"
                            ++ (decimal l.rule ++ (codes "\" -j " ++ l.target))))))))

-- `lines` and `ruleCount`.
pub record Built : Type 0 where
  pub lines : List Text
  pub count : ℕ

-- `lines.push(l); ruleCount++; if (ruleCount > MAX_LINES_TOTAL) throw …`
unfoldable pub emit : Line → Built → Result Built
unfolding line_text
emit l b =
    if ltb max_lines_total (b.count + 1)
    then err (internal (codes "more than 4000 ingress lines"))
    else ok (record { lines = b.lines ++ line_text l ∷ []; count = b.count + 1 })

-- `/^\d{1,5}(:\d{1,5})?$/`
abbrev port_parts_ok : List Text → Bool
port_parts_ok (a ∷ []) = is_number 5 a
port_parts_ok (a ∷ b ∷ []) = is_number 5 a && is_number 5 b
port_parts_ok _ = false

unfoldable pub is_port_text : Text → Bool
is_port_text s = port_parts_ok (split b':' s)

unfoldable pub port_ok : Option Port → Bool
unfolding is_port_text includes
port_ok none = true
port_ok (some p) = includes ingress_protos p.proto && is_port_text p.port

-- Whether the partner's own address needs a line beside the one for this source.
unfoldable pub needs_alias : Agent → Text → Alias → Bool
unfolding includes
needs_alias agent src al =
    includes agent.direct_ifaces al.iface
    && cidr_contains src (al.hub ++ codes "/32")
    && not (cidr_contains src (al.direct ++ codes "/32"))

abbrev pub rule_line : Rule → Text → Text → Option Text → Option Port → Text → Line
rule_line rule target src dst p iface = record {
  src = src;
  dst = dst;
  iface = iface;
  port = p;
  rule = rule.id;
  target = target;
}

abbrev pub alias_line : Rule → Text → Option Text → Option Port → Alias → Line
alias_line rule target dst p al = record {
  src = al.direct ++ codes "/32";
  dst = dst;
  iface = al.iface;
  port = p;
  rule = rule.id;
  target = target;
}

-- The two inner loops, over the interfaces and over the partner addresses. The port is checked
-- inside the first.
module _ (agent : Agent) (target : Text) (rule : Rule) where
  unfoldable pub emit_iface : Text → Option Text → Option Port → Text → Built → Result Built
  unfolding emit port_ok
  emit_iface src dst p iface b =
      throw_if (not (port_ok p))
        (internal (codes "rule " ++ (decimal rule.id ++ codes ": bad port")))
      >> emit (rule_line rule target src dst p iface) b

  unfoldable pub emit_alias : Text → Option Text → Option Port → Alias → Built → Result Built
  unfolding emit needs_alias
  emit_alias src dst p al b =
      if needs_alias agent src al then emit (alias_line rule target dst p al) b else ok b

  unfoldable pub emit_port : Text → Option Text → Option Port → Built → Result Built
  unfolding emit_iface emit_alias for_each
  emit_port src dst p b =
      for_each (emit_iface src dst p) (agent.iface ∷ agent.direct_ifaces) b
      >>= for_each (emit_alias src dst p) agent.direct_aliases

  unfoldable pub emit_triples :
      List Text → List (Option Text) → List (Option Port) → Built → Result Built
  unfolding emit_port for_each
  emit_triples sources dests ports =
      for_each (λ src. for_each (λ dst. for_each (emit_port src dst) ports) dests) sources

-- `list.map(canonicalCidr)`, or none when an entry is not accepted.
unfoldable pub canonical_all : List Text → Option (List Text)
canonical_all [] = some []
canonical_all (v ∷ vs) = elim (canonical_cidr v) [
  | none ↦ none
  | some c ↦ elim (canonical_all vs) [ none ↦ none | some cs ↦ some (c ∷ cs) ]
]

-- `list.length ? list : [null]`
abbrev pub or_null {ℓ} : {A : Type ℓ} → List A → List (Option A)
or_null [] = none ∷ []
or_null (x ∷ xs) = map some (x ∷ xs)

abbrev rule_body :
    Agent → Text → Rule → Option (List Text) → Option (List Text) → Built → Result Built
rule_body agent target rule (some (s ∷ ss)) (some ds) b =
    emit_triples agent target rule (s ∷ ss) (or_null ds) (or_null rule.ports) b
rule_body agent target rule _ _ b =
    err (internal (codes "rule " ++ (decimal rule.id ++ codes ": bad CIDR")))

unfoldable pub emit_rule : Agent → Text → Rule → Built → Result Built
unfolding canonical_all emit_triples
emit_rule agent target rule b =
    throw_if (rule.id == 0) (internal (codes "rule without id"))
    >> rule_body agent target rule (canonical_all rule.sources) (canonical_all rule.destinations) b

-- `sort((a, b) => a.id - b.id)`, which is stable.
unfoldable pub insert_rule : Rule → List Rule → List Rule
insert_rule r [] = r ∷ []
insert_rule r (q ∷ qs) =
    let rest = insert_rule r qs in if leb r.id q.id then r ∷ q ∷ qs else q ∷ rest

unfoldable pub sort_rules : List Rule → List Rule
unfolding insert_rule
sort_rules [] = []
sort_rules (r ∷ rs) = insert_rule r (sort_rules rs)

unfoldable pub active_rules : List Rule → List Rule
unfolding sort_rules filter
active_rules rules = sort_rules (filter (λ r. r.enabled) rules)

abbrev pub mode_of : Text → Text
mode_of m = if includes ingress_modes m then m else codes "open"

abbrev pub target_of : Bool → Text
target_of restricted = if restricted then codes "ACCEPT" else codes "RETURN"

abbrev pub head_lines : Text → List Text
head_lines target =
    codes "*filter"
    ∷ codes ":FG_IN - [0:0]"
    ∷ (codes "-A FG_IN -m conntrack --ctstate RELATED,ESTABLISHED -j " ++ target)
    ∷ []

abbrev pub drop_line : Text → Text
drop_line iface = codes "-A FG_IN -i " ++ (iface ++ codes " -j DROP")

abbrev pub tail_lines : Bool → List Text → List Text
tail_lines restricted ifaces =
    if restricted then map drop_line ifaces ++ codes "COMMIT" ∷ [] else codes "COMMIT" ∷ []

pub record Payload : Type 0 where
  pub text : Text
  pub hash : Text
  pub rule_count : ℕ

abbrev pub finish : (Text → Text) → Bool → List Text → Built → Payload
finish sha256 restricted ifaces b =
    let text = join (codes "\n") (b.lines ++ tail_lines restricted ifaces) ++ codes "\n" in
    record { text = text; hash = sha256 text; rule_count = b.count }

abbrev empty_built : Bool → Built
empty_built restricted = record { lines = head_lines (target_of restricted); count = 0 }

check_direct : Text → Unit {0} → Result (Unit {0})
unfolding is_direct_iface
check_direct d _ =
    throw_if (not (is_direct_iface d)) (internal (codes "invalid direct interface: " ++ d))

build_active : (Text → Text) → Agent → Bool → List Rule → Result Payload
unfolding emit_rule for_each is_wg_iface check_direct
build_active sha256 agent restricted active = do
  throw_if (not (is_wg_iface agent.iface))
      (internal (codes "invalid wg interface: " ++ agent.iface))
  for_each check_direct agent.direct_ifaces tt
  throw_if (ltb max_rules_per_agent (length active)) (internal (codes "too many ingress rules"))
  b ← for_each (emit_rule agent (target_of restricted)) active (empty_built restricted)
  ok (finish sha256 restricted (agent.iface ∷ agent.direct_ifaces) b)

-- `null` where the agent needs no filter: mode "open" without active rules. `sha256` is the hash
-- of the runtime's crypto module, in hexadecimal.
unfoldable pub build_ingress_restore : (Text → Text) → Agent → List Rule → Result (Option Payload)
unfolding build_active active_rules
build_ingress_restore sha256 agent rules =
    let mode = mode_of agent.ingress_mode in
    let active = active_rules rules in
    let payload = build_active sha256 agent (text_eq mode (codes "restricted")) active in
    if text_eq mode (codes "open") && length active == 0
    then ok none
    else payload >>= λ p. ok (some p)
