-- ===== src/Ingress/Cover.antt =====
-- `ruleCovers`, `isHubSourced` and `upstreamCovered`: which flows a rule lets through.
use floppyguard.Base.{
  ℕ, Bool, true, false, not, ◌&&◌, Option, none, some, List, [], ◌∷◌, leb, all, any, length, ◌==◌,
}
use floppyguard.Base.Text.{Text, text_eq, split, number}
use floppyguard.Cidr.{cidr_contains}
use floppyguard.Ingress.{Port, Rule}

-- `{ src, dst, port, proto }`; an unknown port is `none`.
pub record Flow : Type 0 where
  pub src : Text
  pub dst : Text
  pub port : Option ℕ
  pub proto : Text

-- `const [a, b] = p.port.split(":").map(Number); port >= a && port <= (b ?? a)`
abbrev in_parts : List Text → ℕ → Bool
in_parts (a ∷ []) port = leb (number a) port && leb port (number a)
in_parts (a ∷ b ∷ _) port = leb (number a) port && leb port (number b)
in_parts [] port = false

unfoldable pub in_range : Text → ℕ → Bool
in_range range port = in_parts (split b':' range) port

unfoldable pub port_covers : Text → ℕ → Port → Bool
unfolding in_range
port_covers proto port p = text_eq p.proto proto && in_range p.port port

-- `!rule.destinations.length || rule.destinations.some(…)`
unfoldable pub dst_covers : List Text → Text → Bool
unfolding any
dst_covers [] dst = true
dst_covers (d ∷ ds) dst = any (λ e. cidr_contains e dst) (d ∷ ds)

unfoldable pub ports_cover : List Port → Text → Option ℕ → Bool
unfolding any port_covers
ports_cover [] proto port = true
ports_cover (p ∷ ps) proto none = false
ports_cover (p ∷ ps) proto (some n) = any (port_covers proto n) (p ∷ ps)

unfoldable pub rule_covers : Rule → Flow → Bool
unfolding dst_covers ports_cover any
rule_covers rule f =
    rule.enabled
    && any (λ s. cidr_contains s f.src) rule.sources
    && dst_covers rule.destinations f.dst
    && ports_cover rule.ports f.proto f.port

-- Every source lies inside one of the hub's own sources; an empty source list does not count.
unfoldable pub is_hub_sourced : Rule → List Text → Bool
unfolding any all
is_hub_sourced rule hub_srcs =
    not (length rule.sources == 0) && all (λ s. any (λ h. cidr_contains h s) hub_srcs) rule.sources

-- An upstream of the hub; `source` is the address of an egress flow.
pub record Upstream : Type 0 where
  pub host : Text
  pub port : Option ℕ
  pub proto : Text
  pub source : Option Text

abbrev upstream_sources : Option Text → List Text → List Text
upstream_sources none hub_hosts = hub_hosts
upstream_sources (some s) hub_hosts = s ∷ []

unfoldable pub upstream_covered : Upstream → List Rule → List Text → Bool
unfolding any rule_covers
upstream_covered u rules hub_hosts =
    any
      (λ src.
        any
          (λ r. rule_covers r (record { src = src; dst = u.host; port = u.port; proto = u.proto }))
          rules)
      (upstream_sources u.source hub_hosts)
