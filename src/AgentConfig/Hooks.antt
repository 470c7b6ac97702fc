-- ===== src/AgentConfig/Hooks.antt =====
-- backend/internal/agent.js: `sanitizeWgInterface`, `buildHubPostUp` and `buildHubPostDown`, the hooks
-- that the hub decides on.
pub mod Clean
pub mod Lines
pub mod Built
use floppyguard.Base.{
  ℕ, suc, ◌-◌, Bool, true, false, not, ◌&&◌, ◌||◌, Option, none, some, List, [], ◌∷◌, ◌++◌, filter,
  length, map, leb, ltb, ◌==◌, if◌then◌else◌,
}
use floppyguard.Base.Text.{Text, codes, text_eq, join, trim, trim_start, is_digit, number, decimal}
use floppyguard.Result.{Result, ok, err, validation, ◌>>=◌, ◌>>◌}
use floppyguard.Ingress.{strip, is_wg_iface}
use floppyguard.SiteIsolation.{ends_with}
use floppyguard.Service.Binding.{is_line_end}
use floppyguard.WireGuard.Dump.{lines_of}
use floppyguard.WireGuard.Networks.{canonicalize_ipv4_network}
use floppyguard.DirectLink.Config.{assert_cidr, assert_cidrs}
use floppyguard.AgentConfig.Sections.{newline, starts, is_peer_head, parse_hub_peer_allowed_ips}
use floppyguard.AgentConfig.Endpoint.{digits_of}

-- `sanitizeWgInterface`: an empty name stands for "wg0".
unfoldable pub sanitize_wg_interface : Text → Result Text
unfolding is_wg_iface
sanitize_wg_interface name =
    let n = if length name == 0 then codes "wg0" else name in
    if is_wg_iface n
    then ok n
    else err (validation (codes "wg_interface must match wg<number>, e.g. \"wg0\""))

pub record HookOptions : Type 0 where
  pub iface : Text
  pub local_nets : List Text

abbrev pub return_part : Text → Text → Text → Text
return_part flag subnet net =
    codes "iptables -t nat -"
    ++ (flag
        ++ (codes " POSTROUTING -s " ++ (subnet ++ (codes " -d " ++ (net ++ codes " -j RETURN")))))

abbrev pub masquerade_part : Text → Text → Text → Text
masquerade_part flag iface net =
    codes "iptables -t nat -"
    ++ (flag
        ++ (codes " POSTROUTING ! -o "
            ++ (iface ++ (codes " -s " ++ (net ++ codes " -j MASQUERADE")))))

abbrev pub forward_part : Text → Text → Text → Text
forward_part flag direction iface =
    codes "iptables -"
    ++ (flag ++ (codes " FORWARD -" ++ (direction ++ (b' ' ∷ (iface ++ codes " -j ACCEPT")))))

abbrev pub route_part : Text → Text → Text → Text
route_part verb iface net =
    codes "ip route "
    ++ (verb ++ (b' ' ∷ (net ++ (codes " dev " ++ (iface ++ codes " 2>/dev/null || true")))))

-- The rules of one direction: "A" and "add" on the way up, "D" and "del" on the way down.
abbrev pub hook_parts : Text → Text → Text → Text → List Text → List Text → List Text → List Text
hook_parts flag verb iface subnet local_nets remote_nets peer_nets =
    forward_part flag (codes "i") iface
    ∷ forward_part flag (codes "o") iface
    ∷ (map (return_part flag subnet) local_nets
        ++ (masquerade_part flag iface subnet
            ∷ (map (masquerade_part flag iface) remote_nets
                ++ map (route_part verb iface) peer_nets)))

-- Every network is checked before it gets into a text that runs as root.
unfoldable pub checked_hook :
    Text → List Text → List Text → HookOptions → (Text → List Text) → Result Text
unfolding sanitize_wg_interface assert_cidr assert_cidrs join
checked_hook subnet remote_nets peer_nets opts parts = sanitize_wg_interface opts.iface >>= λ iface.
    assert_cidr subnet
    >> (assert_cidrs opts.local_nets
        >> (assert_cidrs remote_nets
            >> (assert_cidrs peer_nets >> ok (join (codes "; ") (parts iface)))))

unfoldable pub build_hub_post_up : Text → List Text → List Text → HookOptions → Result Text
unfolding checked_hook
build_hub_post_up subnet remote_nets peer_nets opts =
    checked_hook subnet remote_nets peer_nets opts (λ iface.
      codes "sysctl -w net.ipv4.ip_forward=1"
      ∷ hook_parts (codes "A") (codes "add") iface subnet opts.local_nets remote_nets peer_nets)

unfoldable pub build_hub_post_down : Text → List Text → List Text → HookOptions → Result Text
unfolding checked_hook
build_hub_post_down subnet remote_nets peer_nets opts =
    checked_hook subnet remote_nets peer_nets opts (λ iface.
      hook_parts (codes "D") (codes "del") iface subnet opts.local_nets remote_nets peer_nets)
