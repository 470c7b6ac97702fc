-- ===== src/AgentConfig/Endpoint/Parsed.antt =====
-- `_rewriteHubPeerEndpoint` of backend/internal/agent.js leaves the AllowedIPs of the hub peer alone.
use floppyguard.Base.{
  ◌≡◌, ◌⊎◌, refl, sym, ap, ◌∙◌, Bool, true, not, ◌&&◌, ◌||◌, Option, none, some, List, [], ◌∷◌,
  ◌++◌, inl, inr, Bool-cases, &&_iff, arith,
}
use floppyguard.Base.Text.{Text, codes, trim, text_eq, is_space}
use floppyguard.AgentConfig.Sections.{starts, Place, line_kind, move_on, is_hub, nets_of_lines}
use floppyguard.AgentConfig.Sections.Lines.{nets_of_lines-same}
use floppyguard.AgentConfig.Normalize.Kept.{IsInert, IsInert-of_code, IsInert-trim_cons, nets-inert}
use floppyguard.AgentConfig.Endpoint.{
  EndpointParts, endpoint_parts, shown_comment, is_ip_host, endpoint_line, endpoint_lines,
}

abbrev pub new_endpoint : Text → EndpointParts → Text
new_endpoint hub_host e =
    codes "Endpoint = " ++ (hub_host ++ (b':' ∷ (e.port ++ shown_comment e.comment)))

pub either_line :
    (lower : Text → Text) (hub_host raw : Text) (e : EndpointParts)
    → (endpoint_line lower hub_host raw e ≡ raw)
      ⊎ (endpoint_line lower hub_host raw e ≡ new_endpoint hub_host e)
unfolding endpoint_line
either_line lower hub_host raw e =
    elim (Bool-cases (
      (is_ip_host e.host && not (is_ip_host hub_host))
      || text_eq (lower e.host) (lower hub_host))) [
        | inl t ↦ inl (rw t refl)
        | inr f ↦ inr (rw f refl)
      ]

IsInert-endpoint : (t : Text) → starts (codes "Endpoint") t ≡ true → IsInert t
IsInert-endpoint t h =
    IsInert-of_code b'E' (codes "ndpoint") t (λ z. omega arith) (λ z. omega arith) h

module _ (lower : Text → Text) (hub_host : Text) where
  nets-endpoint_line :
      (p : Place) (raw : Text) (e : EndpointParts) (ls ms : List Text)
      → starts (codes "Endpoint") (trim raw) ≡ true
      → ((q : Place) → nets_of_lines q ls ≡ nets_of_lines q ms)
      → nets_of_lines p (endpoint_line lower hub_host raw e ∷ ls) ≡ nets_of_lines p (raw ∷ ms)
  unfolding is_space
  nets-endpoint_line p raw e ls ms s h = elim (either_line lower hub_host raw e) [
    | inl k ↦ nets_of_lines-same p (endpoint_line lower hub_host raw e) raw ls ms (ap trim k) h
    | inr k ↦
        ap (λ (l : Text). nets_of_lines p (l ∷ ls)) k
        ∙ nets-inert p (new_endpoint hub_host e) ls (
            IsInert-trim_cons b'E'
              (codes "ndpoint = " ++ (hub_host ++ (b':' ∷ (e.port ++ shown_comment e.comment))))
              refl (λ z. omega arith) (λ z. omega arith))
        ∙ h p
        ∙ sym (nets-inert p raw ms (IsInert-endpoint (trim raw) s))
  ]

  abbrev pub with_parts : Text → Option EndpointParts → List Text → List Text → List Text
  with_parts raw o kept done = elim o [
    | none ↦ raw ∷ kept
    | some e ↦ endpoint_line lower hub_host raw e ∷ done
  ]

  nets-with_parts :
      (o : Option EndpointParts) (p : Place) (raw : Text) (kept done ls : List Text)
      → starts (codes "Endpoint") (trim raw) ≡ true
      → ((q : Place) → nets_of_lines q kept ≡ nets_of_lines q ls)
      → ((q : Place) → nets_of_lines q done ≡ nets_of_lines q ls)
      → nets_of_lines p (with_parts raw o kept done) ≡ nets_of_lines p (raw ∷ ls)
  nets-with_parts none p raw kept done ls s h k = nets_of_lines-same p raw raw kept ls refl h
  nets-with_parts (some e) p raw kept done ls s h k = nets-endpoint_line p raw e done ls s k

  pub nets-endpoint_lines :
      (p : Place) (b : Bool) (ls : List Text) (q : Place)
      → nets_of_lines q (endpoint_lines lower hub_host p b ls) ≡ nets_of_lines q ls
  unfolding endpoint_lines
  nets-endpoint_lines p b [] q = refl
  nets-endpoint_lines p b (raw ∷ ls) q =
      let t = trim raw in
      let next = move_on (line_kind p t) p in
      let kept = endpoint_lines lower hub_host next b ls in
      let done = endpoint_lines lower hub_host next true ls in
      elim (Bool-cases (is_hub (line_kind p t) && not b && starts (codes "Endpoint") t)) [
        | inr f ↦ rw f (nets_of_lines-same q raw raw kept ls refl (nets-endpoint_lines next b ls))
        | inl e ↦ rw e (
            nets-with_parts (endpoint_parts t) q raw kept done ls
              ((&&_iff (is_hub (line_kind p t) && not b) (starts (codes "Endpoint") t)).0 e).1
              (nets-endpoint_lines next b ls) (nets-endpoint_lines next true ls))
      ]
