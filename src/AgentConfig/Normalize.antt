-- ===== src/AgentConfig/Normalize.antt =====
-- backend/internal/agent.js: `normalizeAgentConfig`, which gives a stored config the hooks of the hub.
pub mod Kept
pub mod Parsed
use floppyguard.Base.{
  ℕ, suc, ◌-◌, Bool, true, false, not, ◌&&◌, ◌||◌, Option, none, some, List, [], ◌∷◌, ◌++◌, filter,
  length, map, leb, ltb, ◌==◌, if◌then◌else◌,
}
use floppyguard.Base.Text.{Text, codes, text_eq, join, trim, trim_start, is_digit, number, decimal}
use floppyguard.Result.{Result, ok, err, validation, ◌>>=◌, ◌>>◌}
use floppyguard.Ingress.{strip, is_wg_iface}
use floppyguard.SiteIsolation.{ends_with}
use floppyguard.Service.Binding.{is_line_end}
use floppyguard.WireGuard.Dump.{lines_of}
use floppyguard.WireGuard.Networks.{canonicalize_ipv4_network}
use floppyguard.DirectLink.Config.{assert_cidr, assert_cidrs}
use floppyguard.AgentConfig.Sections.{newline, starts, is_peer_head, parse_hub_peer_allowed_ips}
use floppyguard.AgentConfig.Endpoint.{digits_of}
use floppyguard.AgentConfig.Hooks.{HookOptions, build_hub_post_up, build_hub_post_down}
use floppyguard.AgentConfig.Tunnel.{derive_tunnel_subnet}

-- Whether the reader is within [Interface].
abbrev pub in_interface : Bool → Text → Bool
in_interface now t =
    if text_eq t (codes "[Interface]") then true else (if starts (codes "[") t then false else now)

-- `t.includes(needle)`
unfoldable pub contains_text : Text → Text → Bool
unfolding starts
contains_text needle [] = starts needle []
contains_text needle (c ∷ s) = starts needle (c ∷ s) || contains_text needle s

abbrev pub hides_key : Bool → Text → Bool
hides_key inside t =
    inside && starts (codes "PrivateKey") t && not (contains_text (codes "(hidden)") t)

abbrev pub is_hook_line : Text → Bool
is_hook_line t = starts (codes "PostUp") t || starts (codes "PostDown") t

unfoldable pub kept_lines : Bool → List Text → List Text
unfolding trim text_eq starts contains_text
kept_lines now [] = []
kept_lines now (raw ∷ ls) =
    let t = trim raw in
    let inside = in_interface now t in
    let rest = kept_lines inside ls in
    if hides_key inside t
    then codes "PrivateKey = (hidden)" ∷ rest
    else (if is_hook_line t then rest else raw ∷ rest)

unfoldable pub has_table : Bool → List Text → Bool
unfolding trim text_eq starts
has_table now [] = false
has_table now (raw ∷ ls) =
    let t = trim raw in
    let inside = in_interface now t in (inside && starts (codes "Table") t) || has_table inside ls

-- In front of the first [Peer], or at the end where there is none.
unfoldable pub insert_before_peer : List Text → List Text → List Text
unfolding trim text_eq
insert_before_peer new [] = new
insert_before_peer new (l ∷ ls) =
    let rest = insert_before_peer new ls in
    if is_peer_head (trim l) then new ++ l ∷ ls else l ∷ rest

-- `peerIdx > 0 ? peerIdx : out.length`: a [Peer] on the first line does not count.
unfoldable pub insert_lines : List Text → List Text → List Text
unfolding insert_before_peer trim text_eq
insert_lines new [] = new
insert_lines new (l ∷ ls) =
    let rest = insert_before_peer new ls in
    if is_peer_head (trim l) then (l ∷ ls) ++ new else l ∷ rest

abbrev pub is_subnet : Text → Bool
is_subnet c = not (ends_with (codes "/32") c) && not (ends_with (codes "/128") c)

abbrev pub new_lines : Bool → Text → Text → List Text
new_lines table up down =
    (if table then [] else codes "Table = off" ∷ [])
    ++ ((codes "PostUp = " ++ up) ∷ (codes "PostDown = " ++ down) ∷ [])

unfoldable pub normalize_agent_config : Text → List Text → HookOptions → Result Text
unfolding build_hub_post_up build_hub_post_down derive_tunnel_subnet kept_lines has_table
    insert_lines parse_hub_peer_allowed_ips filter ends_with lines_of join
normalize_agent_config [] remote_nets opts = ok []
normalize_agent_config (c ∷ s) remote_nets opts =
    let config = c ∷ s in
    let subnet = derive_tunnel_subnet config in
    let peer_nets = filter is_subnet (parse_hub_peer_allowed_ips config) in
    build_hub_post_up subnet remote_nets peer_nets opts >>= λ up.
    build_hub_post_down subnet remote_nets peer_nets opts >>= λ down. ok (
      join newline (
        insert_lines (new_lines (has_table false (lines_of config)) up down)
          (kept_lines false (lines_of config))))
