-- ===== src/AgentConfig/Endpoint/Single.antt =====
-- The endpoint that `_rewriteHubPeerEndpoint` of backend/internal/agent.js writes is a single line.
use floppyguard.Base.{
  ℕ, ◌≡◌, ◌≢◌, refl, sym, ◌∙◌, Bool, true, false, not, ◌&&◌, ◌||◌, Option, none, some, List, [],
  ◌∷◌, ◌++◌, all, any, length, All, All-map, All-append, all_iff, inl, inr, Bool-cases,
  if◌then◌else◌, ◌==◌, &&_iff, arith,
}
use mathlib.Core.Path.{subst}
use floppyguard.Base.Text.{Text, codes, trim, trim_start, is_digit}
use floppyguard.Base.Text.Laws.{Free}
use floppyguard.SiteIsolation.{has_code}
use floppyguard.Service.Binding.{is_line_end}
use floppyguard.WireGuard.Dump.{lines_of}
use floppyguard.AgentConfig.Sections.{
  starts, Place, at_start, line_kind, move_on, is_hub, parse_hub_peer_allowed_ips,
}
use floppyguard.AgentConfig.Sections.Lines.{parse-join, Free-lines_of}
use floppyguard.AgentConfig.Hooks.Lines.{Free-lit}
use floppyguard.AgentConfig.Endpoint.{
  sanitize_hub_host, bracketed, is_hub_code, digits_of, comment_of, port_with, port_after,
  port_suffix, EndpointParts, with_host_code, host_and_port, behind_sign, endpoint_parts,
  shown_comment, endpoint_line, endpoint_lines, rewrite_hub_peer_endpoint,
}
use floppyguard.AgentConfig.Endpoint.Parsed.{either_line, with_parts, nets-endpoint_lines}

abbrev IsEnd : Option (Text × Option Text) → Type 0
IsEnd none = Unit
IsEnd (some (port, comment)) = Free 10 port × Free 10 (shown_comment comment)

abbrev IsParts : Option EndpointParts → Type 0
IsParts none = Unit
IsParts (some e) = Free 10 e.port × Free 10 (shown_comment e.comment)

Free-digits_of : (s : Text) → Free 10 (digits_of s).0
unfolding digits_of is_digit
Free-digits_of [] = tt
Free-digits_of (c ∷ s) = elim (Bool-cases (is_digit c)) [
  | inl e ↦ rw e (ground arith, Free-digits_of s)
  | inr e ↦ rw e tt
]

Free-any : (s : Text) → any is_line_end s ≡ false → Free 10 s
unfolding any
Free-any [] h = tt
Free-any (c ∷ s) h = (ground arith, Free-any s (ground arith))

Free-comment_of : (s : Text) (o : Option Text) → comment_of s ≡ some o → Free 10 (shown_comment o)
Free-comment_of [] o h =
    subst
      (λ (x : Option (Option Text)). elim x as (λ _. Type 0) [
        | none ↦ Unit {0}
        | some y ↦ Free 10 (shown_comment y)
      ])
      h tt
Free-comment_of (c ∷ s) o h = elim (Bool-cases (c == b'#' && not (any is_line_end s))) [
  | inr e ↦ absurd (cc (rw e at h))
  | inl e ↦
      let (a, b) = (&&_iff (c == b'#') (not (any is_line_end s))).0 e in
      subst
        (λ (x : Option (Option Text)). elim x as (λ _. Type 0) [
          | none ↦ Unit {0}
          | some y ↦ Free 10 (shown_comment y)
        ])
        (rw e at h) ((λ z. omega arith), (ground arith, Free-any s (ground arith)))
]

IsEnd-port_with : (dr : Text × Text) → Free 10 dr.0 → IsEnd (port_with dr)
IsEnd-port_with ([], rest) f = tt
IsEnd-port_with (d ∷ ds, rest) f = ended (comment_of (trim_start rest)) refl
  where
    ended :
        (o : Option (Option Text))
        → comment_of (trim_start rest) ≡ o
        → IsEnd (elim o [ none ↦ none | some comment ↦ some (d ∷ ds, comment) ])
    ended none e = tt
    ended (some comment) e = (f, Free-comment_of (trim_start rest) comment e)

IsEnd-port_after : (s : Text) → IsEnd (port_after s)
IsEnd-port_after [] = tt
IsEnd-port_after (c ∷ s) = elim (Bool-cases (c == b':')) [
  | inl e ↦ rw e (IsEnd-port_with (digits_of (trim_start s)) (Free-digits_of (trim_start s)))
  | inr e ↦ rw e tt
]

IsParts-with_host_code :
    (c : ℕ) (o : Option EndpointParts) → IsParts o → IsParts (with_host_code c o)
IsParts-with_host_code c none h = tt
IsParts-with_host_code c (some e) h = h

IsParts-host_and_port : (s : Text) → IsParts (host_and_port s)
unfolding host_and_port port_suffix
IsParts-host_and_port [] = tt
IsParts-host_and_port (c ∷ s) =
    found (port_suffix (c ∷ s)) (IsEnd-port_after (trim_start (c ∷ s))) (IsParts-host_and_port s)
  where
    found :
        (o : Option (Text × Option Text))
        → IsEnd o
        → IsParts (host_and_port s)
        → IsParts (elim o [
          | some (port, comment) ↦ some (record { host = []; port = port; comment = comment })
          | none ↦ if c == b'#' then none else with_host_code c (host_and_port s)
        ])
    found (some (port, comment)) a b = a
    found none a b = elim (Bool-cases (c == b'#')) [
      | inl e ↦ rw e tt
      | inr e ↦ rw e (IsParts-with_host_code c (host_and_port s) b)
    ]

IsParts-behind_sign : (s : Text) → IsParts (behind_sign s)
IsParts-behind_sign [] = tt
IsParts-behind_sign (c ∷ s) = elim (Bool-cases (c == b'=')) [
  | inl e ↦ rw e (IsParts-host_and_port (trim_start s))
  | inr e ↦ rw e tt
]

IsParts-endpoint_parts : (t : Text) → IsParts (endpoint_parts t)
unfolding endpoint_parts
IsParts-endpoint_parts t = stripped (floppyguard.Ingress.strip (codes "Endpoint") t)
  where
    stripped :
        (o : Option Text) → IsParts (elim o [ none ↦ none | some s ↦ behind_sign (trim_start s) ])
    stripped none = tt
    stripped (some s) = IsParts-behind_sign (trim_start s)

Free-hub_codes : (v : Text) → all is_hub_code v ≡ true → Free 10 v
unfolding is_digit
Free-hub_codes v h = All-map (λ c e. ground arith) v ((all_iff is_hub_code v).0 h)

Free-bracketed : (v : Text) → Free 10 v → Free 10 (bracketed v)
unfolding all
Free-bracketed v f = elim (Bool-cases (has_code b':' v && not (starts (codes "[") v))) [
  | inr e ↦ rw e f
  | inl e ↦ rw e (
      Free-lit (codes "[") (v ++ b']' ∷ []) refl
        (All-append (λ x. x ≢ 10) v (b']' ∷ []) f (Free-lit (codes "]") [] refl tt)))
]

-- A configured host is one line.
pub Free-sanitize_hub_host : (raw h : Text) → sanitize_hub_host raw ≡ some h → Free 10 h
unfolding sanitize_hub_host
Free-sanitize_hub_host raw h e =
    elim (Bool-cases (length (trim raw) == 0 || not (all is_hub_code (trim raw)))) [
      | inl t ↦ absurd (cc (rw t at e))
      | inr f ↦
          subst
            (λ (o : Option Text). elim o as (λ _. Type 0) [ none ↦ Unit {0} | some y ↦ Free 10 y ])
            (rw f at e) (Free-bracketed (trim raw) (Free-hub_codes (trim raw) (ground arith)))
    ]

module _ (lower : Text → Text) (hub_host : Text) (host_free : Free 10 hub_host) where
  Free-endpoint_line :
      (raw : Text) (e : EndpointParts)
      → Free 10 raw
      → IsParts (some e)
      → Free 10 (endpoint_line lower hub_host raw e)
  unfolding all
  Free-endpoint_line raw e f (a, b) = elim (either_line lower hub_host raw e) [
    | inl k ↦ subst (Free 10) (sym k) f
    | inr k ↦ subst (Free 10) (sym k) (
        Free-lit (codes "Endpoint = ") (hub_host ++ (b':' ∷ (e.port ++ shown_comment e.comment)))
          refl
          (All-append (λ x. x ≢ 10) hub_host (b':' ∷ (e.port ++ shown_comment e.comment)) host_free
            ((λ z. omega arith), All-append (λ x. x ≢ 10) e.port (shown_comment e.comment) a b)))
  ]

  Free-with_parts :
      (raw : Text) (o : Option EndpointParts) (kept done : List Text)
      → Free 10 raw
      → IsParts o
      → All (Free 10) kept
      → All (Free 10) done
      → All (Free 10) (with_parts lower hub_host raw o kept done)
  Free-with_parts raw none kept done f a k d = (f, k)
  Free-with_parts raw (some e) kept done f a k d = (Free-endpoint_line raw e f a, d)

  Free-endpoint_lines :
      (p : Place) (b : Bool) (ls : List Text)
      → All (Free 10) ls
      → All (Free 10) (endpoint_lines lower hub_host p b ls)
  unfolding endpoint_lines
  Free-endpoint_lines p b [] h = tt
  Free-endpoint_lines p b (raw ∷ ls) h =
      let t = trim raw in
      let next = move_on (line_kind p t) p in
      let kept = Free-endpoint_lines next b ls h.1 in
      elim (Bool-cases (is_hub (line_kind p t) && not b && starts (codes "Endpoint") t)) [
        | inr f ↦ rw f (h.0, kept)
        | inl e ↦ rw e (
            Free-with_parts raw (endpoint_parts t) (endpoint_lines lower hub_host next b ls)
              (endpoint_lines lower hub_host next true ls) h.0 (IsParts-endpoint_parts t) kept
              (Free-endpoint_lines next true ls h.1))
      ]

-- A config keeps the AllowedIPs of its hub peer when its endpoint is moved to the configured host.
pub parse-rewrite_hub_peer_endpoint :
    (lower : Text → Text) (config host_text : Text)
    → parse_hub_peer_allowed_ips
        (rewrite_hub_peer_endpoint lower config (sanitize_hub_host host_text))
      ≡ parse_hub_peer_allowed_ips config
unfolding rewrite_hub_peer_endpoint parse_hub_peer_allowed_ips
parse-rewrite_hub_peer_endpoint lower config host_text =
    configured (sanitize_hub_host host_text) refl
  where
    configured :
        (o : Option Text)
        → sanitize_hub_host host_text ≡ o
        → parse_hub_peer_allowed_ips (rewrite_hub_peer_endpoint lower config o)
          ≡ parse_hub_peer_allowed_ips config
    configured none e = refl
    configured (some host) e = elim (Bool-cases (length config == 0 || length host == 0)) [
      | inl t ↦ rw t refl
      | inr f ↦ rw f (
          parse-join (endpoint_lines lower host at_start false (lines_of config)) (
            Free-endpoint_lines lower host (Free-sanitize_hub_host host_text host e) at_start false
              (lines_of config) (Free-lines_of config))
          ∙ nets-endpoint_lines lower host at_start false (lines_of config) at_start)
    ]
