-- ===== src/Catalog/Evaluate.antt =====
-- `evaluateFlow`: what the filter of an agent does with one flow.
pub mod Payload
pub mod First
use floppyguard.Base.{
  ℕ, Bool, true, false, not, ◌&&◌, ◌||◌, Option, none, some, List, [], ◌∷◌, ◌++◌, map, filter, any,
  length, ◌==◌, if◌then◌else◌,
}
use floppyguard.Base.Text.{Text, codes, text_eq}
use floppyguard.Cidr.{cidr_contains}
use floppyguard.Ingress.{Rule}
use floppyguard.Ingress.Cover.{Flow, rule_covers}
use floppyguard.Ingress.Restore.{sort_rules}
use floppyguard.SiteIsolation.Verdict.{Ref}
use floppyguard.SiteIsolation.Foreign.{DropRef}
use floppyguard.Catalog.{RuleRef, rule_ref}

pub data FlowReason : Type 0 where
  by_isolation not_via_agent same_site open_mode by_rule no_rule : FlowReason

-- The verdict of the site isolation for the flow; `applied` is false where the hub's table is not.
pub record Isolation : Type 0 where
  pub blocked : Bool
  pub partial : Bool
  pub applied : Bool
  pub pair : Option Ref
  pub manual : Option DropRef

-- `allowed` is null where the agent does not see the flow.
pub record Evaluation : Type 0 where
  pub mode : Text
  pub matched_rules : List RuleRef
  pub disabled_match : Option RuleRef
  pub port_unknown : Bool
  pub notes : List Text
  pub allowed : Option Bool
  pub filtered : Bool
  pub reason : FlowReason
  pub rule : Option RuleRef
  pub site_isolation : Option Ref
  pub site_isolation_manual : Option DropRef

pub record Query : Type 0 where
  pub mode : Text
  pub rules : List Rule
  pub own_nets : List Text
  pub hub_nets : List Text
  pub flow : Flow
  pub applied_state : Option Text
  pub isolation : Option Isolation

abbrev pub blocked_of : Option Isolation → Bool
blocked_of none = false
blocked_of (some i) = i.blocked

abbrev isolation_notes : Option Isolation → List Text
isolation_notes none = []
isolation_notes (some i) =
    if i.blocked
    then (if i.applied then [] else codes "site-isolation-not-applied" ∷ [])
    else (if i.partial then codes "site-isolation-partial" ∷ [] else [])

abbrev applied_notes : Option Text → List Text
applied_notes none = []
applied_notes (some s) = if text_eq s (codes "applied") then [] else codes "not-applied" ∷ []

-- The notes, in the order in which they are pushed.
abbrev pub notes_of : Query → List Text
notes_of q =
    codes "established-return"
    ∷ codes "forward-only"
    ∷ (applied_notes q.applied_state ++ isolation_notes q.isolation)

abbrev pub pair_of_isolation : Option Isolation → Option Ref
pair_of_isolation none = none
pair_of_isolation (some i) = i.pair

abbrev pub manual_of_isolation : Option Isolation → Option DropRef
manual_of_isolation none = none
manual_of_isolation (some i) = i.manual

-- `base` with the fields of one answer that looked at no rule.
abbrev pub unmatched : Query → Option Bool → Bool → FlowReason → Evaluation
unmatched q allowed filtered reason = record {
  mode = q.mode;
  matched_rules = [];
  disabled_match = none;
  port_unknown = false;
  notes = notes_of q;
  allowed = allowed;
  filtered = filtered;
  reason = reason;
  rule = none;
  site_isolation = none;
  site_isolation_manual = none;
}

-- `list.find(test)`.
unfoldable pub find_rule : (Rule → Bool) → List Rule → Option Rule
find_rule test [] = none
find_rule test (r ∷ rs) = let rest = find_rule test rs in if test r then some r else rest

abbrev pub head_rule : List Rule → Option RuleRef
head_rule [] = none
head_rule (r ∷ rs) = some (rule_ref r)

abbrev found_ref : Option Rule → Option RuleRef
found_ref none = none
found_ref (some r) = some (rule_ref r)

-- `(port === null || port === undefined) && !matches.length && sorted.some(…)`.
abbrev pub is_port_unknown : Flow → List Rule → List Rule → Bool
is_port_unknown f matches sorted =
    (elim f.port [ none ↦ true | some _ ↦ false ])
    && length matches == 0
    && any (λ r. r.enabled && not (length r.ports == 0) && rule_covers (record r { ports = [] }) f)
        sorted

abbrev pub is_via_agent : Query → Bool
is_via_agent q =
    any (λ n. cidr_contains n (q.flow).dst) q.own_nets
    && not (any (λ n. cidr_contains n (q.flow).dst) q.hub_nets)

abbrev pub is_same_site : Query → Bool
is_same_site q = any (λ n. cidr_contains n (q.flow).src) q.own_nets

-- What the mode and the first matching rule decide.
pub record Decision : Type 0 where
  pub allowed : Bool
  pub filtered : Bool
  pub reason : FlowReason

abbrev pub decide : Bool → List Rule → Decision
decide false matches = record { allowed = true; filtered = false; reason = open_mode }
decide true [] = record { allowed = false; filtered = true; reason = no_rule }
decide true (r ∷ rs) = record { allowed = true; filtered = true; reason = by_rule }

abbrev pub covering : Query → List Rule
covering q = filter (λ r. rule_covers r q.flow) (sort_rules q.rules)

-- The answer of the rules.
unfoldable pub match_rules : Query → Evaluation
unfolding sort_rules filter any rule_covers find_rule
match_rules q =
    let sorted = sort_rules q.rules in
    let matches = covering q in
    let disabled =
      find_rule (λ r. not r.enabled && rule_covers (record r { enabled = true }) q.flow) sorted in
    let d = decide (text_eq q.mode (codes "restricted")) matches in
    record (unmatched q (some d.allowed) d.filtered d.reason) {
      matched_rules = map rule_ref matches;
      disabled_match = found_ref disabled;
      port_unknown = is_port_unknown q.flow matches sorted;
      rule = head_rule matches;
    }

unfoldable pub evaluate_flow : Query → Evaluation
unfolding match_rules
evaluate_flow q =
    let answer = match_rules q in
    if blocked_of q.isolation
    then record (unmatched q (some false) true by_isolation) {
      site_isolation = pair_of_isolation q.isolation;
      site_isolation_manual = manual_of_isolation q.isolation;
    }
    else (if not (is_via_agent q)
        then unmatched q none false not_via_agent
        else (if is_same_site q then unmatched q none false same_site else answer))
