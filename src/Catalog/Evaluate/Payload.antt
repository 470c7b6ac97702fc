-- ===== src/Catalog/Evaluate/Payload.antt =====
-- The flow tester against the filter that the gateway loads.
use floppyguard.Base.{
  ◌≡◌, ◌↔◌, refl, sym, ap, ◌∙◌, Bool, true, false, some, List, [], ◌∷◌, filter, any, any_find,
  any_of_In, In, In-filter, inl, All, length, ◌≤◌,
}
use floppyguard.Base.Text.{Text, codes, text_eq}
use floppyguard.Result.{ok}
use floppyguard.Ingress.{Rule, max_rules_per_agent}
use floppyguard.Ingress.Cover.{Flow, rule_covers}
use floppyguard.Ingress.Restore.{
  Agent, sort_rules, active_rules, mode_of, Payload, build_ingress_restore,
}
use floppyguard.Ingress.Restore.Success.{IsAgent, IsReady, is_restricted}
use floppyguard.Ingress.Restore.Covers.{IsFilter, covered_iff, In-sort_rules}
use floppyguard.Catalog.Evaluate.{
  Query, blocked_of, decide, covering, is_via_agent, is_same_site, match_rules, evaluate_flow,
}

-- The flow reaches the filter of the agent.
pub record Reaches (q : Query) : Type 0 where
  pub restricted : text_eq q.mode (codes "restricted") ≡ true
  pub open_way : blocked_of q.isolation ≡ false
  pub via : is_via_agent q ≡ true
  pub other_site : is_same_site q ≡ false

matches_any :
    (f : Flow) (rs : List Rule)
    → (any (λ r. rule_covers r f) rs ≡ true)
      ↔ ((r : Rule) × In r (filter (λ r. rule_covers r f) (sort_rules rs)))
matches_any f rs = (
  (λ h.
      let (r, m, c) = any_find (λ r. rule_covers r f) rs h in
      (r, (In-filter (λ r. rule_covers r f) r (sort_rules rs)).1 ((In-sort_rules r rs).1 m, c))),
  (λ h.
      let (m, c) = (In-filter (λ r. rule_covers r f) h.0 (sort_rules rs)).0 h.1 in
      any_of_In (λ r. rule_covers r f) h.0 rs ((In-sort_rules h.0 rs).0 m) c),
)

decided : (ms : List Rule) → ((decide true ms).allowed ≡ true) ↔ ((r : Rule) × In r ms)
decided [] = ((λ e. absurd (cc)), (λ h. absurd h.1))
decided (r ∷ rs) = ((λ e. (r, inl refl)), (λ h. refl))

some_inj : {a b : Bool} → some a ≡ some b → a ≡ b
some_inj e = cc

allowed_lem :
    (q : Query) → Reaches q → (evaluate_flow q).allowed ≡ some (decide true (covering q)).allowed
unfolding evaluate_flow match_rules
allowed_lem q k =
    rw (evaluate_flow, match_rules, k.open_way, k.via, k.other_site, k.restricted) refl

-- For a flow that reaches the filter of a restricted agent, and an agent in the mode of the question
-- with valid interfaces and rules, 500 active ones at most, a payload that is built is the text of a
-- list of lines, with the header in front and the drops and COMMIT behind, and the tester answers
-- "allowed" exactly if one of these lines is on the hub interface and admits the flow.
pub evaluate_flow-payload :
    (sha256 : Text → Text) (q : Query) (agent : Agent) (p : Payload)
    → IsAgent agent
    → All IsReady q.rules
    → length (active_rules q.rules) ≤ max_rules_per_agent
    → mode_of agent.ingress_mode ≡ q.mode
    → Reaches q
    → build_ingress_restore sha256 agent q.rules ≡ ok (some p)
    → (is_restricted agent ≡ true)
      × IsFilter sha256 agent p q.flow ((evaluate_flow q).allowed ≡ some true)
evaluate_flow-payload sha256 q agent p a v few mode k h =
    let same = allowed_lem q k in
    let rules = matches_any q.flow q.rules in
    let filtered = covered_iff sha256 agent q.rules p q.flow a v few h in
    let lines = filtered.admitted in
    (
      ap (λ (m : Text). text_eq m (codes "restricted")) mode ∙ k.restricted,
      record {
        lines = filtered.lines;
        written = filtered.written;
        admitted = (
          (λ e. lines.0 (rules.1 ((decided (covering q)).0 (some_inj (sym same ∙ e))))),
          (λ l. same ∙ ap some ((decided (covering q)).1 (rules.0 (lines.1 l)))),
        );
      },
    )
