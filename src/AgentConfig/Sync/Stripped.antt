-- ===== src/AgentConfig/Sync/Stripped.antt =====
-- `stripToTunnelOnly` of backend/internal/agent.js leaves an agent without a link the tunnel only.
use floppyguard.Base.{
  ◌≡◌, ◌≢◌, ◌↔◌, ◌⊎◌, refl, sym, ap, ◌∙◌, Bool, true, List, [], ◌∷◌, filter, In, All, All-of_In,
  All_at, In-filter, inl, inr, if◌then◌else◌,
}
use mathlib.Core.Path.{subst}
use floppyguard.Base.Text.{Text}
use floppyguard.Result.{ok}
use floppyguard.AgentConfig.Sections.{parse_hub_peer_allowed_ips, rewrite_hub_peer_allowed_ips}
use floppyguard.AgentConfig.Sections.Entries.{IsEntry}
use floppyguard.AgentConfig.Sections.Rewritten.{has_hub_list, parse-rewrite_hub_peer_allowed_ips}
use floppyguard.AgentConfig.Tunnel.{derive_tunnel_subnet}
use floppyguard.AgentConfig.Tunnel.Entry.{IsEntry-derive_tunnel_subnet}
use floppyguard.AgentConfig.Normalize.Parsed.{parse-normalize_agent_config}
use floppyguard.AgentConfig.Reach.{compute_hub_peer_allowed_ips}
use floppyguard.AgentConfig.Sync.{is_host_route_text, strip_to_tunnel_only}
use floppyguard.AgentConfig.Sync.Blank.{IsBlank, IsBlank-rewrite_hub_peer_allowed_ips}
use floppyguard.AgentConfig.Sync.Written.{In-compute_hub_peer_allowed_ips}

-- A list that is written is read back.
parse_written :
    (config : Text) (new : List Text)
    → new ≢ []
    → All IsEntry new
    → has_hub_list config ≡ true
    → parse_hub_peer_allowed_ips (rewrite_hub_peer_allowed_ips config new) ≡ new
parse_written config [] ne h l = absurd (ne refl)
parse_written config (w ∷ ws) ne h l =
    parse-rewrite_hub_peer_allowed_ips config w ws h ∙ ap (λ (b : Bool). if b then w ∷ ws else []) l

module _ (config : Text) where
  abbrev host_routes : List Text
  host_routes = filter is_host_route_text (parse_hub_peer_allowed_ips config)

  abbrev safe : List Text
  safe = compute_hub_peer_allowed_ips (derive_tunnel_subnet config) host_routes

  In-safe : (n : Text) → In n safe ↔ ((n ≡ derive_tunnel_subnet config) ⊎ In n host_routes)
  In-safe n = In-compute_hub_peer_allowed_ips (derive_tunnel_subnet config) host_routes n

  safe-ne : safe ≢ []
  safe-ne e =
      subst (In (derive_tunnel_subnet config)) e
        ((In-safe (derive_tunnel_subnet config)).1 (inl refl))

  IsEntry-safe : All IsEntry host_routes → All IsEntry safe
  IsEntry-safe h = All-of_In safe (λ n m. elim ((In-safe n).0 m) [
    | inl e ↦ subst IsEntry (sym e) (IsEntry-derive_tunnel_subnet config)
    | inr i ↦ All_at IsEntry n host_routes h i
  ])

-- The AllowedIPs that are read from a stripped config, whose hub peer had an AllowedIPs line, are
-- exactly the tunnel subnet and the host routes that the config listed before, where these hold no
-- white space within.
pub strip_to_tunnel_only-In :
    (config iface out n : Text)
    → has_hub_list config ≡ true
    → All IsEntry (filter is_host_route_text (parse_hub_peer_allowed_ips config))
    → strip_to_tunnel_only config iface ≡ ok out
    → In n (parse_hub_peer_allowed_ips out) ↔ (
        (n ≡ derive_tunnel_subnet config)
        ⊎ (In n (parse_hub_peer_allowed_ips config) × (is_host_route_text n ≡ true)))
unfolding strip_to_tunnel_only compute_hub_peer_allowed_ips
strip_to_tunnel_only-In config iface out n l h e =
    let stripped = rewrite_hub_peer_allowed_ips config (safe config) in
    let full = λ (z : stripped ≡ []). absurd (
      cc (
        l,
        IsBlank-rewrite_hub_peer_allowed_ips config (safe config) (subst IsBlank (sym z) tt),
      )) in
    let same =
      (parse-normalize_agent_config stripped [] (record { iface = iface; local_nets = [] }) out full
        e).0
      ∙ parse_written config (safe config) (safe-ne config) (IsEntry-safe config h) l in
    let new = In-safe config n in
    let routes = In-filter is_host_route_text n (parse_hub_peer_allowed_ips config) in
    (
      (λ m. elim (new.0 (subst (In n) same m)) [ inl q ↦ inl q | inr i ↦ inr (routes.0 i) ]),
      (λ m. subst (In n) (sym same) (new.1 (elim m [ inl q ↦ inl q | inr i ↦ inr (routes.1 i) ]))),
    )
