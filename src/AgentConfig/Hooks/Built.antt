-- ===== src/AgentConfig/Hooks/Built.antt =====
-- The hooks of backend/internal/agent.js are single lines, built from checked networks.
use floppyguard.AgentConfig.Hooks.Lines.{
  Free-IsEntry, Free-lit, Free-join, Free-map, Free-pattern, sanitize_wg_interface-Free,
}
use floppyguard.Base.{◌≡◌, refl, List, [], ◌∷◌, ◌++◌, map, all, All, All-append}
use mathlib.Core.Path.{subst}
use floppyguard.Base.Text.{Text, codes, join}
use floppyguard.Base.Text.Laws.{Free}
use floppyguard.Result.{ok, ◌>>◌, >>=-eq-ok, ok-injective}
use floppyguard.DirectLink.Config.{assert_cidr, assert_cidrs}
use floppyguard.AgentConfig.Sections.Entries.{IsEntry}
use floppyguard.AgentConfig.Hooks.{
  HookOptions, sanitize_wg_interface, return_part, masquerade_part, forward_part, route_part,
  hook_parts, checked_hook, build_hub_post_up, build_hub_post_down,
}
use floppyguard.AgentConfig.Hooks.Clean.{assert_cidr-IsEntry, assert_cidrs-IsEntry}

Free-forward_part :
    (flag dir iface : Text)
    → Free 10 flag
    → Free 10 dir
    → Free 10 iface
    → Free 10 (forward_part flag dir iface)
unfolding all
Free-forward_part flag dir iface =
    Free-pattern (codes "iptables -") flag (codes " FORWARD -") dir (codes " ") iface
      (codes " -j ACCEPT") refl

Free-return_part :
    (flag subnet net : Text)
    → Free 10 flag
    → Free 10 subnet
    → Free 10 net
    → Free 10 (return_part flag subnet net)
unfolding all
Free-return_part flag subnet net =
    Free-pattern (codes "iptables -t nat -") flag (codes " POSTROUTING -s ") subnet (codes " -d ")
      net (codes " -j RETURN") refl

Free-masquerade_part :
    (flag iface net : Text)
    → Free 10 flag
    → Free 10 iface
    → Free 10 net
    → Free 10 (masquerade_part flag iface net)
unfolding all
Free-masquerade_part flag iface net =
    Free-pattern (codes "iptables -t nat -") flag (codes " POSTROUTING ! -o ") iface (codes " -s ")
      net (codes " -j MASQUERADE") refl

Free-route_part :
    (verb iface net : Text)
    → Free 10 verb
    → Free 10 net
    → Free 10 iface
    → Free 10 (route_part verb iface net)
unfolding all
Free-route_part verb iface net =
    Free-pattern (codes "ip route ") verb (codes " ") net (codes " dev ") iface
      (codes " 2>/dev/null || true") refl

module _ (flag verb iface subnet : Text) (local_nets remote_nets peer_nets : List Text) where
  Free-hook_parts :
      Free 10 flag
      → Free 10 verb
      → Free 10 iface
      → IsEntry subnet
      → All IsEntry local_nets
      → All IsEntry remote_nets
      → All IsEntry peer_nets
      → All (Free 10) (hook_parts flag verb iface subnet local_nets remote_nets peer_nets)
  unfolding all
  Free-hook_parts f v i s l r p =
      let sub = Free-IsEntry subnet s in
      (
        Free-forward_part flag (codes "i") iface f (Free-lit (codes "i") [] refl tt) i,
        (
          Free-forward_part flag (codes "o") iface f (Free-lit (codes "o") [] refl tt) i,
          All-append (Free 10) (map (return_part flag subnet) local_nets)
              (masquerade_part flag iface subnet
                ∷ (map (masquerade_part flag iface) remote_nets
                    ++ map (route_part verb iface) peer_nets))
              (Free-map (return_part flag subnet) local_nets
                (λ n e. Free-return_part flag subnet n f sub (Free-IsEntry n e)) l)
              (
                Free-masquerade_part flag iface subnet f i sub,
                All-append (Free 10) (map (masquerade_part flag iface) remote_nets)
                    (map (route_part verb iface) peer_nets)
                    (Free-map (masquerade_part flag iface) remote_nets
                      (λ n e. Free-masquerade_part flag iface n f i (Free-IsEntry n e)) r)
                    (Free-map (route_part verb iface) peer_nets
                      (λ n e. Free-route_part verb iface n v (Free-IsEntry n e) i) p),
              ),
        ),
      )

module _ (subnet : Text) (remote_nets peer_nets : List Text) (opts : HookOptions) where
  checked_hook-Free :
      (parts : Text → List Text) (text : Text)
      → ((iface : Text)
          → Free 10 iface
          → IsEntry subnet
          → All IsEntry opts.local_nets
          → All IsEntry remote_nets
          → All IsEntry peer_nets
          → All (Free 10) (parts iface))
      → checked_hook subnet remote_nets peer_nets opts parts ≡ ok text
      → Free 10 text × IsEntry subnet × All IsEntry remote_nets
  unfolding checked_hook all
  checked_hook-Free parts text k h =
      let routes = λ (i : Text). assert_cidrs peer_nets >> ok (join (codes "; ") (parts i)) in
      let remotes = λ (i : Text). assert_cidrs remote_nets >> routes i in
      let locals = λ (i : Text). assert_cidrs opts.local_nets >> remotes i in
      let (i, a, b) =
        >>=-eq-ok (sanitize_wg_interface opts.iface) (λ i. assert_cidr subnet >> locals i) text h in
      let (u, c, d) = >>=-eq-ok (assert_cidr subnet) (λ _. locals i) text b in
      let (v, e, f) = >>=-eq-ok (assert_cidrs opts.local_nets) (λ _. remotes i) text d in
      let (w, g, j) = >>=-eq-ok (assert_cidrs remote_nets) (λ _. routes i) text f in
      let (x, l, m) =
        >>=-eq-ok (assert_cidrs peer_nets) (λ _. ok (join (codes "; ") (parts i))) text j in
      let s = assert_cidr-IsEntry subnet u c in
      let r = assert_cidrs-IsEntry remote_nets w g in
      (
        subst (Free 10) (ok-injective m) (
            Free-join (codes "; ") (parts i) (Free-lit (codes "; ") [] refl tt) (
              k i (sanitize_wg_interface-Free opts.iface i a) s
                (assert_cidrs-IsEntry opts.local_nets v e) r (assert_cidrs-IsEntry peer_nets x l))),
        s,
        r,
      )

  -- A hook that is built is one line, and its networks were checked.
  pub build_hub_post_up-Free :
      (text : Text)
      → build_hub_post_up subnet remote_nets peer_nets opts ≡ ok text
      → Free 10 text × IsEntry subnet × All IsEntry remote_nets
  unfolding build_hub_post_up all
  build_hub_post_up-Free text h =
      checked_hook-Free
        (λ iface.
          codes "sysctl -w net.ipv4.ip_forward=1"
          ∷ hook_parts (codes "A") (codes "add") iface subnet opts.local_nets remote_nets peer_nets)
        text
        (λ i a s l r p. (
          Free-lit (codes "sysctl -w net.ipv4.ip_forward=1") [] refl tt,
          Free-hook_parts (codes "A") (codes "add") i subnet opts.local_nets remote_nets peer_nets
              (Free-lit (codes "A") [] refl tt) (Free-lit (codes "add") [] refl tt) a s l r p,
        ))
        h

  pub build_hub_post_down-Free :
      (text : Text)
      → build_hub_post_down subnet remote_nets peer_nets opts ≡ ok text
      → Free 10 text × IsEntry subnet × All IsEntry remote_nets
  unfolding build_hub_post_down all
  build_hub_post_down-Free text h =
      checked_hook-Free
        (λ iface.
          hook_parts (codes "D") (codes "del") iface subnet opts.local_nets remote_nets peer_nets)
        text
        (λ i a s l r p.
          Free-hook_parts (codes "D") (codes "del") i subnet opts.local_nets remote_nets peer_nets
            (Free-lit (codes "D") [] refl tt) (Free-lit (codes "del") [] refl tt) a s l r p)
        h
