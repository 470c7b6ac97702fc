-- ===== src/Ingress/Restore/Covers.antt =====
-- The lines that `buildIngressRestore` emits for the hub interface let through exactly the flows
-- that `ruleCovers` announces.
use mathlib.Core.Path.{subst}
use floppyguard.Base.{
  ℕ, ◌≡◌, ◌↔◌, refl, sym, ap, ◌∙◌, Bool, true, false, ◌&&◌, Option, none, some, List, [], ◌∷◌, map,
  All, All_at, length, ltb, ◌≤◌, ◌==◌, In, In-append, In-left, In-filter, In-flat_map, In-map, any,
  any_find, any_of_In, filter, leb, arith, inl, inr, Bool-cases, and3_iff, and4_iff,
}
use floppyguard.Base.Text.{Text, codes, text_eq}
use floppyguard.Result.{ok}
use floppyguard.Base.Text.Laws.{includes_iff}
use floppyguard.Cidr.{cidr_contains}
use floppyguard.Ingress.{
  Port, Rule, is_wg_iface, is_direct_iface, max_rules_per_agent, max_lines_total,
}
use floppyguard.Ingress.Cover.{Flow, port_covers, dst_covers, ports_cover, rule_covers}
use floppyguard.Ingress.Restore.{
  Alias, Agent, Line, or_null, rule_line, alias_line, needs_alias, active_rules, sort_rules,
  insert_rule, target_of, mode_of, Payload, build_ingress_restore,
}
use floppyguard.Ingress.Restore.Lines.{port_lines, triple_lines}
use floppyguard.Ingress.Restore.Success.{
  IsAgent, IsReady, rule_lines, payload_lines, payload_of, is_restricted, build_ingress_restore-eq,
}

abbrev dst_admits : Option Text → Text → Bool
dst_admits none dst = true
dst_admits (some d) dst = cidr_contains d dst

abbrev port_admits : Option Port → Text → Option ℕ → Bool
port_admits none proto port = true
port_admits (some p) proto none = false
port_admits (some p) proto (some n) = port_covers proto n p

-- Whether the source, the destination and the port of a line hold a flow.
pub line_admits : Line → Flow → Bool
line_admits l f =
    cidr_contains l.src f.src && dst_admits l.dst f.dst && port_admits l.port f.proto f.port

line_admits_iff :
    (l : Line) (f : Flow)
    → (line_admits l f ≡ true) ↔ (
        (cidr_contains l.src f.src ≡ true)
        × (dst_admits l.dst f.dst ≡ true)
        × (port_admits l.port f.proto f.port ≡ true))
unfolding line_admits
line_admits_iff l f = and3_iff _ _ _

dst_covers_iff :
    (ds : List Text) (dst : Text)
    → (dst_covers ds dst ≡ true)
      ↔ ((d : Option Text) × In d (or_null ds) × (dst_admits d dst ≡ true))
unfolding dst_covers
dst_covers_iff [] dst = ((λ h. (none, inl refl, refl)), (λ h. refl))
dst_covers_iff (e ∷ es) dst = (
  (λ h.
      let (d, m, q) = any_find (λ e. cidr_contains e dst) (e ∷ es) h in
      (some d, (In-map some (some d) (e ∷ es)).1 (d, m, refl), q)),
  (λ h.
      let (d, m, q) = (In-map some h.0 (e ∷ es)).0 h.1 in
      any_of_In (λ e. cidr_contains e dst) d (e ∷ es) m (rw q at h.2)),
)

ports_cover_iff :
    (ps : List Port) (proto : Text) (port : Option ℕ)
    → (ports_cover ps proto port ≡ true)
      ↔ ((p : Option Port) × In p (or_null ps) × (port_admits p proto port ≡ true))
unfolding ports_cover
ports_cover_iff [] proto port = ((λ h. (none, inl refl, refl)), (λ h. refl))
ports_cover_iff (q ∷ qs) proto none = (
  (λ h. absurd (cc)),
  (λ h. let (p, m, e) = (In-map some h.0 (q ∷ qs)).0 h.1 in absurd (cc (rw e at h.2))),
)
ports_cover_iff (q ∷ qs) proto (some n) = (
  (λ h.
      let (p, m, e) = any_find (port_covers proto n) (q ∷ qs) h in
      (some p, (In-map some (some p) (q ∷ qs)).1 (p, m, refl), e)),
  (λ h.
      let (p, m, e) = (In-map some h.0 (q ∷ qs)).0 h.1 in
      any_of_In (port_covers proto n) p (q ∷ qs) m (rw e at h.2)),
)

-- A direct interface is never the WireGuard interface of the hub.
wg-ne-direct : (i : Text) → is_wg_iface i ≡ true → is_direct_iface i ≡ true → ⊥
unfolding is_wg_iface is_direct_iface
wg-ne-direct [] h k = cc
wg-ne-direct (c ∷ s) h k = ground arith

needs_alias-direct :
    (agent : Agent) (src : Text) (al : Alias)
    → needs_alias agent src al ≡ true
    → In al.iface agent.direct_ifaces
unfolding needs_alias
needs_alias-direct agent src al h =
    (includes_iff agent.direct_ifaces al.iface).0 ((and3_iff _ _ _).0 h).0

module _ (agent : Agent) (target : Text) (r : Rule) where
  -- Lines on the hub interface carry the source, the destination and the port of their round.
  port_lines-hub :
      (src : Text) (dst : Option Text) (p : Option Port) (l : Line)
      → IsAgent agent
      → In l (port_lines agent target r src dst p)
      → l.iface ≡ agent.iface
      → (l.src ≡ src) × (l.dst ≡ dst) × (l.port ≡ p)
  unfolding port_lines
  port_lines-hub src dst p l a m hub =
      elim ((In-append l (map (rule_line r target src dst p) (agent.iface ∷ agent.direct_ifaces))
          _).0
        m) [
          | inl own ↦
              let (i, _, e) =
                (In-map (rule_line r target src dst p) l (agent.iface ∷ agent.direct_ifaces)).0
                  own in
              (ap (λ (k : Line). k.src) e, ap (λ (k : Line). k.dst) e, ap (λ (k : Line). k.port) e)
          | inr partner ↦
              let (al, k, e) = (In-map (alias_line r target dst p) l _).0 partner in
              let needed = ((In-filter (needs_alias agent src) al agent.direct_aliases).0 k).1 in
              let direct =
                All_at (λ d. is_direct_iface d ≡ true) al.iface agent.direct_ifaces a.direct
                  (needs_alias-direct agent src al needed) in
              let same : agent.iface ≡ al.iface = sym hub ∙ ap (λ (k : Line). k.iface) e in
              absurd (
                wg-ne-direct al.iface (subst (λ (i : Text). is_wg_iface i ≡ true) same a.iface)
                  direct)
        ]

  hub_line-In :
      (src : Text) (dst : Option Text) (p : Option Port)
      → In (rule_line r target src dst p agent.iface) (port_lines agent target r src dst p)
  unfolding port_lines
  hub_line-In src dst p =
      In-left _ (map (rule_line r target src dst p) (agent.iface ∷ agent.direct_ifaces)) _
        (inl refl)

  triple_lines-In :
      (src : Text) (dst : Option Text) (p : Option Port) (l : Line) (sources : List Text)
      (dests : List (Option Text)) (ports : List (Option Port))
      → In src sources
      → In dst dests
      → In p ports
      → In l (port_lines agent target r src dst p)
      → In l (triple_lines agent target r sources dests ports)
  unfolding triple_lines
  triple_lines-In src dst p l sources dests ports i j k m = (In-flat_map _ l sources).1 (
    src,
    i,
    (In-flat_map _ l dests).1
        (dst, j, (In-flat_map (port_lines agent target r src dst) l ports).1 (p, k, m)),
  )

  triple_lines-cases :
      (l : Line) (sources : List Text) (dests : List (Option Text)) (ports : List (Option Port))
      → In l (triple_lines agent target r sources dests ports)
      → (src : Text) × (dst : Option Text) × (p : Option Port) × In src sources
        × In dst dests
        × In p ports
        × In l (port_lines agent target r src dst p)
  unfolding triple_lines
  triple_lines-cases l sources dests ports m =
      let (src, i, m₁) = (In-flat_map _ l sources).0 m in
      let (dst, j, m₂) = (In-flat_map _ l dests).0 m₁ in
      let (p, k, m₃) = (In-flat_map (port_lines agent target r src dst) l ports).0 m₂ in
      (src, dst, p, i, j, k, m₃)

  -- Per rule: a flow is covered exactly if the rule is enabled and one of its lines on the hub
  -- interface admits it.
  rule_covers-lines :
      (f : Flow)
      → rule_covers r f ≡ true
      → (r.enabled ≡ true)
        × ((l : Line) × In l (rule_lines agent target r)
            × (l.iface ≡ agent.iface)
            × (line_admits l f ≡ true))
  unfolding rule_covers line_admits
  rule_covers-lines f h =
      let (on, hs, hd, hp) = (and4_iff _ _ _ _).0 h in
      let (src, i, es) = any_find (λ s. cidr_contains s f.src) r.sources hs in
      let (dst, j, ed) = (dst_covers_iff r.destinations f.dst).0 hd in
      let (p, k, ep) = (ports_cover_iff r.ports f.proto f.port).0 hp in
      (
        on,
        (
          rule_line r target src dst p agent.iface,
          triple_lines-In src dst p _ r.sources (or_null r.destinations) (or_null r.ports) i j k
              (hub_line-In src dst p),
          refl,
          (line_admits_iff (rule_line r target src dst p agent.iface) f).1 (es, ed, ep),
        ),
      )

  lines-rule_covers :
      (f : Flow) (l : Line)
      → IsAgent agent
      → r.enabled ≡ true
      → In l (rule_lines agent target r)
      → l.iface ≡ agent.iface
      → line_admits l f ≡ true
      → rule_covers r f ≡ true
  unfolding rule_covers line_admits
  lines-rule_covers f l a on m hub h =
      let (src, dst, p, i, j, k, n) =
        triple_lines-cases l r.sources (or_null r.destinations) (or_null r.ports) m in
      let (es, ed, ep) = port_lines-hub src dst p l a n hub in
      let (hs, hd, hp) = (line_admits_iff l f).0 h in
      (and4_iff _ _ _ _).1 (
        on,
        any_of_In (λ s. cidr_contains s f.src) src r.sources i (rw es at hs),
        (dst_covers_iff r.destinations f.dst).1 (dst, j, rw ed at hd),
        (ports_cover_iff r.ports f.proto f.port).1 (p, k, rw ep at hp),
      )

-- The active rules are the enabled ones.
In-insert_rule : (q r : Rule) (rs : List Rule) → In q (insert_rule r rs) ↔ In q (r ∷ rs)
unfolding insert_rule
In-insert_rule q r [] = ((λ m. m), (λ m. m))
In-insert_rule q r (s ∷ ss) = elim (Bool-cases (leb r.id s.id)) [
  | inl e ↦ simp e ((λ m. m), (λ m. m))
  | inr e ↦
      let ih = In-insert_rule q r ss in
      simp e (
        (λ m. elim m [
          | inl a ↦ inr (inl a)
          | inr b ↦ elim (ih.0 b) [ inl c ↦ inl c | inr d ↦ inr (inr d) ]
        ]),
        (λ m. elim m [
          | inl a ↦ inr (ih.1 (inl a))
          | inr b ↦ elim b [ inl c ↦ inl c | inr d ↦ inr (ih.1 (inr d)) ]
        ]),
      )
]

pub In-sort_rules : (q : Rule) (rs : List Rule) → In q (sort_rules rs) ↔ In q rs
unfolding sort_rules
In-sort_rules q [] = ((λ m. m), (λ m. m))
In-sort_rules q (r ∷ rs) =
    let step = In-insert_rule q r (sort_rules rs) in
    let ih = In-sort_rules q rs in
    (
      (λ m. elim (step.0 m) [ inl a ↦ inl a | inr b ↦ inr (ih.0 b) ]),
      (λ m. step.1 (elim m [ inl a ↦ inl a | inr b ↦ inr (ih.1 b) ])),
    )

pub In-active_rules :
    (q : Rule) (rs : List Rule) → In q (active_rules rs) ↔ (In q rs × (q.enabled ≡ true))
unfolding active_rules
In-active_rules q rs =
    let s = In-sort_rules q (filter (λ r. r.enabled) rs) in
    let f = In-filter (λ r. r.enabled) q rs in ((λ m. f.0 (s.0 m)), (λ m. s.1 (f.1 m)))

-- Some rule covers a flow exactly when one of the listed lines is on the hub interface and admits it.
covered_by_lines :
    (agent : Agent) (rules : List Rule) (f : Flow)
    → IsAgent agent
    → (any (λ r. rule_covers r f) rules ≡ true) ↔ (
        (l : Line) × In l (payload_lines agent rules)
        × (l.iface ≡ agent.iface)
        × (line_admits l f ≡ true))
covered_by_lines agent rules f a =
    let target = target_of (is_restricted agent) in
    (
      (λ h.
          let (r, m, c) = any_find (λ r. rule_covers r f) rules h in
          let (on, found) = rule_covers-lines agent target r f c in
          (
            found.0,
            (In-flat_map (rule_lines agent target) found.0 (active_rules rules)).1
                (r, (In-active_rules r rules).1 (m, on), found.1),
            found.2,
            found.3,
          )),
      (λ g.
          let (r, m, i) = (In-flat_map (rule_lines agent target) g.0 (active_rules rules)).0 g.1 in
          let (j, on) = (In-active_rules r rules).0 m in
          any_of_In (λ r. rule_covers r f) r rules j
            (lines-rule_covers agent target r f g.0 a on i g.2 g.3)),
    )

-- A payload that is built holds a list of lines.
pub built_lines :
    (sha256 : Text → Text) (agent : Agent) (rules : List Rule) (p : Payload)
    → IsAgent agent
    → All IsReady rules
    → length (active_rules rules) ≤ max_rules_per_agent
    → build_ingress_restore sha256 agent rules ≡ ok (some p)
    → p ≡ payload_of sha256 agent (payload_lines agent rules)
built_lines sha256 agent rules p a v few h =
    let e = sym (build_ingress_restore-eq sha256 agent rules a v few) ∙ h in
    let ls = payload_lines agent rules in
    elim (Bool-cases
      (text_eq (mode_of agent.ingress_mode) (codes "open") && length (active_rules rules) == 0)) [
        | inl idle ↦ absurd (cc (rw idle at e))
        | inr busy ↦ elim (Bool-cases (ltb max_lines_total (length ls))) [
          | inl many ↦ absurd (cc (rw (busy, many) at e))
          | inr fits ↦ same (rw (busy, fits) at e)
        ]
      ]
  where
    same : {q r : Payload} → ok (some q) ≡ ok (some r) → r ≡ q
    same k = cc

-- A list of lines that is the text of a payload, and of which one on the hub interface admits a flow
-- exactly if the statement holds.
pub record IsFilter (sha256 : Text → Text) (agent : Agent) (p : Payload) (f : Flow)
    (Passes : Type 0) : Type 0 where
  pub lines : List Line
  pub written : p ≡ payload_of sha256 agent lines
  pub admitted :
      Passes ↔ ((l : Line) × In l lines × (l.iface ≡ agent.iface) × (line_admits l f ≡ true))

-- For valid interfaces and rules, 500 active ones at most, a payload that is built is the text of a
-- list of lines, with the header in front and the drops of a restricted agent and COMMIT behind, and
-- some rule covers a flow exactly if one of these lines is on the hub interface and its source,
-- destination and port hold the flow.
pub covered_iff :
    (sha256 : Text → Text) (agent : Agent) (rules : List Rule) (p : Payload) (f : Flow)
    → IsAgent agent
    → All IsReady rules
    → length (active_rules rules) ≤ max_rules_per_agent
    → build_ingress_restore sha256 agent rules ≡ ok (some p)
    → IsFilter sha256 agent p f (any (λ r. rule_covers r f) rules ≡ true)
covered_iff sha256 agent rules p f a v few h = record {
  lines = payload_lines agent rules;
  written = built_lines sha256 agent rules p a v few h;
  admitted = covered_by_lines agent rules f a;
}
