-- ===== src/DirectLink/Config.antt =====
-- backend/internal/agent-direct-link-rules.js: the hooks and the wg-quick config of one side of a
-- direct link, and the entry that is sent to its agent.
use floppyguard.Base.{
  ℕ, zero, suc, ◌+◌, Bool, true, false, not, ◌&&◌, Option, none, some, List, [], ◌∷◌, ◌++◌, any,
  map, ◌==◌, if◌then◌else◌,
}
use floppyguard.Base.Text.{Text, codes, split, join, is_number, decimal}
use floppyguard.Result.{Result, ok, internal, ◌>>=◌, ◌>>◌, throw_if, for_each}
use floppyguard.Ingress.{strip, is_wg_iface, is_direct_iface}
use floppyguard.Service.Binding.{is_base64}
use floppyguard.DirectLink.{is_ipv4_literal, tunnel_addresses}

abbrev pub direct_table_base : ℕ
direct_table_base = 52000

abbrev pub direct_keepalive : ℕ
direct_keepalive = 25

abbrev pub direct_iface : ℕ → Text
direct_iface id = codes "fgd" ++ decimal id

-- "fgd12" becomes "FGD12".
unfoldable pub direct_guard_chain : Text → Text
unfolding strip
direct_guard_chain iface =
    codes "FGD" ++ elim (strip (codes "fgd") iface) [ none ↦ iface | some rest ↦ rest ]

abbrev pub direct_table : ℕ → ℕ
direct_table id = direct_table_base + id

-- `/^[A-Za-z0-9+/]{42}[AEIMQUYcgkosw048]=$/`
unfoldable pub ends_key : Text → Bool
unfolding any
ends_key (c ∷ e ∷ []) = any (λ d. d == c) (codes "AEIMQUYcgkosw048") && e == b'='
ends_key _ = false

unfoldable pub is_key_text : ℕ → Text → Bool
unfolding is_base64 ends_key
is_key_text zero s = ends_key s
is_key_text (suc n) [] = false
is_key_text (suc n) (c ∷ s) = is_base64 c && is_key_text n s

unfoldable pub is_wg_public_key : Text → Bool
unfolding is_key_text
is_wg_public_key v = is_key_text 42 v

-- `/^\d{1,3}\.\d{1,3}\.\d{1,3}\.\d{1,3}\/\d{1,2}$/`
abbrev pub quad_of : List Text → Bool
quad_of (a ∷ b ∷ c ∷ d ∷ []) = is_number 3 a && is_number 3 b && is_number 3 c && is_number 3 d
quad_of _ = false

abbrev pub cidr_shape : List Text → Bool
cidr_shape (ip ∷ prefix ∷ []) = quad_of (split b'.' ip) && is_number 2 prefix
cidr_shape _ = false

unfoldable pub assert_cidr : Text → Result (Unit {0})
unfolding split is_number
assert_cidr n = throw_if (not (cidr_shape (split b'/' n))) (internal (codes "Invalid CIDR: " ++ n))

unfoldable pub assert_cidrs : List Text → Result (Unit {0})
unfolding assert_cidr for_each
assert_cidrs nets = for_each (λ n _. assert_cidr n) nets tt

-- A rule of iptables with its table.
abbrev pub HookRule : Type 0
HookRule = Text × Text

abbrev pub nat_table : Text
nat_table = codes "-t nat "

abbrev pub hook_rules : Text → Text → Bool → List HookRule
hook_rules iface subnet nat =
    (codes "FORWARD -i " ++ (iface ++ codes " -j ACCEPT"), [])
    ∷ (codes "FORWARD -o " ++ (iface ++ codes " -j ACCEPT"), [])
    ∷ (
      codes "POSTROUTING ! -o " ++ (iface ++ (codes " -s " ++ (subnet ++ codes " -j MASQUERADE"))),
      nat_table,
    )
    ∷ (if nat
        then (codes "POSTROUTING -o " ++ (iface ++ codes " -j MASQUERADE"), nat_table) ∷ []
        else [])

-- What arrives through the link may only go to the site's own networks.
abbrev pub return_rule : Text → Text → Text
return_rule guard n = codes "iptables -A " ++ (guard ++ (codes " -d " ++ (n ++ codes " -j RETURN")))

abbrev pub jump_rule : Text → Text → Text
jump_rule iface guard = codes "FORWARD -i " ++ (iface ++ (codes " -j " ++ guard))

abbrev pub guard_up : Text → Text → List Text → List Text
guard_up iface guard own_nets =
    (codes "iptables -N " ++ (guard ++ (codes " 2>/dev/null || iptables -F " ++ guard)))
    ∷ (map (return_rule guard) own_nets
        ++ ((codes "iptables -A " ++ (guard ++ codes " -j DROP"))
            ∷ (codes "iptables -C "
                ++ (jump_rule iface guard
                    ++ (codes " 2>/dev/null || iptables -I FORWARD 1 -i "
                        ++ (iface ++ (codes " -j " ++ guard)))))
            ∷ []))

abbrev pub guard_down : Text → Text → List Text
guard_down iface guard =
    (codes "iptables -D " ++ (jump_rule iface guard ++ codes " 2>/dev/null || true"))
    ∷ (codes "iptables -F " ++ (guard ++ codes " 2>/dev/null || true"))
    ∷ (codes "iptables -X " ++ (guard ++ codes " 2>/dev/null || true"))
    ∷ []

abbrev pub add_rule : HookRule → Text
add_rule (r, t) =
    codes "iptables "
    ++ (t
        ++ (codes "-C " ++ (r ++ (codes " 2>/dev/null || iptables " ++ (t ++ (codes "-A " ++ r))))))

abbrev pub delete_rule : HookRule → Text
delete_rule (r, t) =
    codes "iptables " ++ (t ++ (codes "-D " ++ (r ++ codes " 2>/dev/null || true")))

pub record Hooks : Type 0 where
  pub post_up : Text
  pub post_down : Text

abbrev pub sysctl_lines : Text → Text → List Text
sysctl_lines iface hub_iface =
    codes "sysctl -w net.ipv4.ip_forward=1"
    ∷ (codes "sysctl -w net.ipv4.conf." ++ (iface ++ codes ".rp_filter=2"))
    ∷ (codes "[ ! -e /proc/sys/net/ipv4/conf/"
        ++ (hub_iface
            ++ (codes " ] || sysctl -w net.ipv4.conf." ++ (hub_iface ++ codes ".rp_filter=2"))))
    ∷ []

abbrev pub hook_texts : Text → Text → Text → Bool → List Text → Hooks
hook_texts iface hub_iface subnet nat own_nets =
    let guard = direct_guard_chain iface in
    let rules = hook_rules iface subnet nat in
    record {
      post_up =
          join (codes "; ")
            (sysctl_lines iface hub_iface ++ (guard_up iface guard own_nets ++ map add_rule rules));
      post_down = join (codes "; ") (guard_down iface guard ++ map delete_rule rules);
    }

unfoldable pub build_direct_hooks : Text → Text → Text → Bool → List Text → Result Hooks
unfolding is_direct_iface is_wg_iface assert_cidr assert_cidrs join direct_guard_chain
build_direct_hooks iface hub_iface subnet nat own_nets =
    throw_if (not (is_direct_iface iface)) (internal (codes "invalid direct interface: " ++ iface))
    >> (throw_if (not (is_wg_iface hub_iface))
          (internal (codes "invalid hub interface: " ++ hub_iface))
        >> (assert_cidr subnet
            >> (assert_cidrs own_nets >> ok (hook_texts iface hub_iface subnet nat own_nets))))

-- A link as its two sides see it; `mtu` is `none` where it is null or 0.
pub record ConfigLink : Type 0 where
  pub id : ℕ
  pub tunnel_subnet : Text
  pub listen_port : ℕ
  pub endpoint_host : Text
  pub nat_a : Bool
  pub nat_b : Bool
  pub mtu : Option ℕ

pub data Side : Type 0 where
  a : Side
  b : Side

abbrev pub by_side {ℓ} : {A : Type ℓ} → Side → A → A → A
by_side a x y = x
by_side b x y = y

abbrev pub mtu_line : Option ℕ → List Text
mtu_line none = []
mtu_line (some m) = (codes "MTU = " ++ decimal m) ∷ []

abbrev pub endpoint_of : ConfigLink → Text
endpoint_of l = l.endpoint_host ++ (b':' ∷ decimal l.listen_port)

abbrev pub own_address : ConfigLink → Side → Text
own_address l side =
    by_side side (tunnel_addresses l.tunnel_subnet).0 (tunnel_addresses l.tunnel_subnet).1

abbrev pub config_lines : ConfigLink → Side → Text → List Text → Hooks → List Text
config_lines l side peer_key peer_nets hooks =
    codes "[Interface]"
    ∷ (codes "Address = " ++ (own_address l side ++ codes "/30"))
    ∷ (by_side side ((codes "ListenPort = " ++ decimal l.listen_port) ∷ []) []
        ++ (mtu_line l.mtu
            ++ (codes "Table = off"
                ∷ (codes "PostUp = " ++ hooks.post_up)
                ∷ (codes "PostDown = " ++ hooks.post_down)
                ∷ []
                ∷ codes "[Peer]"
                ∷ (codes "PublicKey = " ++ peer_key)
                ∷ (codes "AllowedIPs = " ++ join (codes ", ") (l.tunnel_subnet ∷ peer_nets))
                ∷ (by_side side [] ((codes "Endpoint = " ++ endpoint_of l) ∷ [])
                    ++ ((codes "PersistentKeepalive = " ++ decimal direct_keepalive) ∷ [])))))

-- No config while the partner's public key is not known.
unfoldable pub build_direct_config :
    ConfigLink → Side → Text → Option Text → List Text → List Text → Result (Option Text)
unfolding is_wg_public_key build_direct_hooks assert_cidrs join decimal tunnel_addresses
build_direct_config l side hub_iface none peer_nets own_nets = ok none
build_direct_config l side hub_iface (some key) peer_nets own_nets =
    if is_wg_public_key key
    then (build_direct_hooks (direct_iface l.id) hub_iface l.tunnel_subnet
          (by_side side l.nat_a l.nat_b) own_nets
        >>= λ hooks.
            assert_cidrs peer_nets
            >> ok (some (join (10 ∷ []) (config_lines l side key peer_nets hooks) ++ 10 ∷ [])))
    else ok none

pub record ActiveEntry : Type 0 where
  pub peer_ip : Text
  pub routes : List Text
  pub endpoint : Option Text
  pub config_text : Option Text
  pub config_hash : Option Text

-- `active` is `none` in the entry of a link that the agent tears down.
pub record PayloadEntry : Type 0 where
  pub id : ℕ
  pub iface : Text
  pub table : ℕ
  pub active : Option ActiveEntry

abbrev pub named_endpoint : ConfigLink → Side → Option Text
named_endpoint l a = none
named_endpoint l b = if is_ipv4_literal l.endpoint_host then none else some (endpoint_of l)

abbrev pub over_option : (Text → Text) → Option Text → Option Text
over_option f none = none
over_option f (some t) = some (f t)

abbrev pub base_entry : ConfigLink → Option ActiveEntry → PayloadEntry
base_entry l active = record {
  id = l.id;
  iface = direct_iface l.id;
  table = direct_table l.id;
  active = active;
}

-- `sha256` is the hexadecimal digest of node:crypto.
unfoldable pub direct_payload_entry :
    (Text → Text)
    → ConfigLink
    → Side
    → Text
    → Option Text
    → List Text
    → Bool
    → List Text
    → Result PayloadEntry
unfolding build_direct_config tunnel_addresses is_ipv4_literal decimal
direct_payload_entry sha256 l side hub_iface key peer_nets false own_nets = ok (base_entry l none)
direct_payload_entry sha256 l side hub_iface key peer_nets true own_nets =
    build_direct_config l side hub_iface key peer_nets own_nets >>= λ config. ok (
      base_entry l (
        some (record {
          peer_ip =
              by_side side (tunnel_addresses l.tunnel_subnet).1
                (tunnel_addresses l.tunnel_subnet).0;
          routes = peer_nets;
          endpoint = named_endpoint l side;
          config_text = config;
          config_hash = over_option sha256 config;
        })))
