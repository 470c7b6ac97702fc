-- ===== src/Ingress/Restore/Counts.antt =====
-- The number of lines of a payload against the count that is checked when a rule is saved.
use floppyguard.Base.{
  ℕ, suc, ◌+◌, ◌*◌, ◌≤◌, ◌≡◌, refl, ap, ◌∙◌, Bool, true, false, ◌&&◌, Option, none, some, List, [],
  ◌∷◌, ◌++◌, map, All, length, length-append, length-map, length-flat_map_const, filter, flat_map,
  ltb, leb, ◌==◌, arith, inl, inr, Bool-cases, if◌then◌else◌,
}
use floppyguard.Base.Text.{Text, codes, text_eq}
use floppyguard.Result.{ok}
use floppyguard.Ingress.{Port, Rule, at_least_one, max_lines_total, max_rules_per_agent}
use floppyguard.Ingress.Sanitize.{rule_line_count, enabled_line_count, assert_total_line_count}
use floppyguard.Ingress.Restore.{
  Alias, Agent, Line, rule_line, or_null, insert_rule, sort_rules, active_rules, target_of, mode_of,
  needs_alias, Payload, build_ingress_restore,
}
use floppyguard.Ingress.Restore.Lines.{port_lines, triple_lines}
use floppyguard.Ingress.Restore.Success.{
  IsReady, IsAgent, rule_lines, payload_lines, payload_of, is_restricted, build_ingress_restore-eq,
}

length-or_null : {A : Type 0} (xs : List A) → length (or_null xs) ≡ at_least_one (length xs)
length-or_null [] = refl
length-or_null (x ∷ xs) = ap suc (length-map some xs)

filter_nothing :
    (agent : Agent) (src : Text) (als : List Alias)
    → als ≡ []
    → filter (needs_alias agent src) als ≡ []
unfolding filter
filter_nothing agent src [] e = refl
filter_nothing agent src (a ∷ als) e = absurd (cc)

module _ (agent : Agent) (target : Text) (r : Rule) (alone : agent.direct_aliases ≡ []) where
  length-port_lines :
      (src : Text) (dst : Option Text) (p : Option Port)
      → length (port_lines agent target r src dst p) ≡ suc (length agent.direct_ifaces)
  unfolding port_lines
  length-port_lines src dst p = rw (filter_nothing agent src agent.direct_aliases alone) (
      length-append {A = Line}
        (map (rule_line r target src dst p) (agent.iface ∷ agent.direct_ifaces)) []
      ∙ omega (arith, length-map (rule_line r target src dst p) agent.direct_ifaces))

  -- The lines of one rule, without partner addresses, are its line count for each interface.
  length-rule_lines :
      length (rule_lines agent target r)
      ≡ rule_line_count r.sources r.destinations r.ports * suc (length agent.direct_ifaces)
  unfolding rule_line_count triple_lines
  length-rule_lines =
      let n = suc (length agent.direct_ifaces) in
      let ports = or_null r.ports in
      let dests = or_null r.destinations in
      length-flat_map_const
        (λ src. flat_map (λ dst. flat_map (port_lines agent target r src dst) ports) dests)
        (length dests * (length ports * n)) r.sources
        (λ src.
          length-flat_map_const (λ dst. flat_map (port_lines agent target r src dst) ports)
            (length ports * n) dests
            (λ dst.
              length-flat_map_const (port_lines agent target r src dst) n ports
                (λ p. length-port_lines src dst p)))
      ∙ rw (length-or_null r.destinations, length-or_null r.ports) (grind arith)

-- Sorting keeps the total.
length-insert_rule :
    (f : Rule → List Line) (r : Rule) (rs : List Rule)
    → length (flat_map f (insert_rule r rs)) ≡ length (f r) + length (flat_map f rs)
unfolding insert_rule flat_map
length-insert_rule f r [] = length-append (f r) []
length-insert_rule f r (q ∷ qs) = elim (Bool-cases (leb r.id q.id)) [
  | inl e ↦ rw e (length-append (f r) (f q ++ flat_map f qs))
  | inr e ↦ rw e (
      omega (
        arith,
        length-append (f q) (flat_map f (insert_rule r qs)),
        length-append (f q) (flat_map f qs),
        length-insert_rule f r qs,
      ))
]

length-sort_rules :
    (f : Rule → List Line) (rs : List Rule)
    → length (flat_map f (sort_rules rs)) ≡ length (flat_map f rs)
unfolding sort_rules flat_map
length-sort_rules f [] = refl
length-sort_rules f (r ∷ rs) = omega (
  arith,
  length-insert_rule f r (sort_rules rs),
  length-append (f r) (flat_map f rs),
  length-sort_rules f rs,
)

module _ (agent : Agent) (target : Text) (alone : agent.direct_aliases ≡ []) where
  length-step :
      (r : Rule) (b : Bool) (rest : List Rule) (k : ℕ)
      → length (flat_map (rule_lines agent target) rest) ≡ k * suc (length agent.direct_ifaces)
      → length (flat_map (rule_lines agent target) (if b then r ∷ rest else rest))
        ≡ ((if b then rule_line_count r.sources r.destinations r.ports else 0) + k)
          * suc (length agent.direct_ifaces)
  unfolding flat_map
  length-step r true rest k e =
      length-append (rule_lines agent target r) (flat_map (rule_lines agent target) rest)
      ∙ omega (arith, length-rule_lines agent target r alone, e)
  length-step r false rest k e =
      e ∙ ap (λ (m : ℕ). m * suc (length agent.direct_ifaces)) (omega arith)

  length-enabled :
      (rs : List Rule)
      → length (flat_map (rule_lines agent target) (filter (λ r. r.enabled) rs))
        ≡ enabled_line_count rs * suc (length agent.direct_ifaces)
  unfolding filter flat_map enabled_line_count
  length-enabled [] = omega arith
  length-enabled (r ∷ rs) = length-step r r.enabled _ (enabled_line_count rs) (length-enabled rs)

pub length-payload_lines :
    (agent : Agent) (rules : List Rule)
    → agent.direct_aliases ≡ []
    → length (payload_lines agent rules)
      ≡ enabled_line_count rules * suc (length agent.direct_ifaces)
unfolding active_rules
length-payload_lines agent rules alone =
    length-sort_rules (rule_lines agent (target_of (is_restricted agent)))
      (filter (λ r. r.enabled) rules)
    ∙ length-enabled agent (target_of (is_restricted agent)) alone rules

-- For an agent with valid interfaces and no partner addresses, valid rules, 500 active ones at most,
-- that pass the line count on saving give a result, a payload or none, and never an error.
pub build_saved :
    (sha256 : Text → Text) (agent : Agent) (rules : List Rule)
    → IsAgent agent
    → All IsReady rules
    → length (active_rules rules) ≤ max_rules_per_agent
    → agent.direct_aliases ≡ []
    → assert_total_line_count rules (suc (length agent.direct_ifaces)) ≡ ok tt
    → (p : Option Payload) × (build_ingress_restore sha256 agent rules ≡ ok p)
unfolding assert_total_line_count
build_saved sha256 agent rules a v few alone saved =
    let n = length-payload_lines agent rules alone in
    let fits : ltb max_lines_total (length (payload_lines agent rules)) ≡ false = ground arith in
    let e = build_ingress_restore-eq sha256 agent rules a v few in
    elim (Bool-cases
      (text_eq (mode_of agent.ingress_mode) (codes "open") && length (active_rules rules) == 0)) [
        | inl idle ↦ (none, e ∙ rw idle)
        | inr busy ↦
            (some (payload_of sha256 agent (payload_lines agent rules)), e ∙ rw (busy, fits))
      ]
