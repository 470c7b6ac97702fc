-- ===== src/AgentConfig/Tunnel.antt =====
-- backend/internal/agent.js: `deriveTunnelSubnet`, the network of the tunnel in a config.
pub mod Entry
use floppyguard.Base.{
  ℕ, suc, ◌-◌, Bool, true, false, not, ◌&&◌, ◌||◌, Option, none, some, List, [], ◌∷◌, ◌++◌, filter,
  length, map, leb, ltb, ◌==◌, if◌then◌else◌,
}
use floppyguard.Base.Text.{Text, codes, text_eq, join, trim, trim_start, is_digit, number, decimal}
use floppyguard.Result.{Result, ok, err, validation, ◌>>=◌, ◌>>◌}
use floppyguard.Ingress.{strip, is_wg_iface}
use floppyguard.SiteIsolation.{ends_with}
use floppyguard.Service.Binding.{is_line_end}
use floppyguard.WireGuard.Dump.{lines_of}
use floppyguard.WireGuard.Networks.{canonicalize_ipv4_network}
use floppyguard.DirectLink.Config.{assert_cidr, assert_cidrs}
use floppyguard.AgentConfig.Sections.{newline, starts, is_peer_head, parse_hub_peer_allowed_ips}
use floppyguard.AgentConfig.Endpoint.{digits_of}

-- The flag `i` of a regular expression, for a letter in lower case.
abbrev pub same_letter : ℕ → ℕ → Bool
same_letter letter c = c == letter || c == letter - 32

unfoldable pub strip_letters : Text → Text → Option Text
strip_letters [] s = some s
strip_letters (_ ∷ _) [] = none
strip_letters (l ∷ ls) (c ∷ s) = if same_letter l c then strip_letters ls s else none

-- `[\d.]+`
unfoldable pub dotted_of : Text → Text × Text
unfolding is_digit
dotted_of [] = ([], [])
dotted_of (c ∷ s) =
    let (d, rest) = dotted_of s in if is_digit c || c == b'.' then (c ∷ d, rest) else ([], c ∷ s)

abbrev pub mask_of : Text → Text × Text → Option (Text × Text)
mask_of addr ([], rest) = none
mask_of addr (d ∷ ds, rest) = some (addr, d ∷ ds)

abbrev pub behind_address : Text × Text → Option (Text × Text)
behind_address (d ∷ ds, c ∷ s) = if c == b'/' then mask_of (d ∷ ds) (digits_of s) else none
behind_address _ = none

abbrev pub behind_assign : Text → Option (Text × Text)
behind_assign [] = none
behind_assign (c ∷ s) = if c == b'=' then behind_address (dotted_of (trim_start s)) else none

-- `\s*Address\s*=\s*([\d.]+)\/(\d+)` at the start of a text.
unfoldable pub address_here : Text → Option (Text × Text)
unfolding trim_start strip_letters dotted_of digits_of
address_here s = elim (strip_letters (codes "address") (trim_start s)) [
  | none ↦ none
  | some rest ↦ behind_assign (trim_start rest)
]

-- The first line start at which an address is found.
unfoldable pub find_address : Bool → Text → Option (Text × Text)
unfolding address_here
find_address at_line [] = none
find_address at_line (c ∷ s) =
    let rest = find_address (is_line_end c) s in
    if at_line then elim (address_here (c ∷ s)) [ some a ↦ some a | none ↦ rest ] else rest

abbrev pub default_subnet : Text
default_subnet = codes "10.10.0.0/24"

abbrev pub or_default : Option Text → Text
or_default none = default_subnet
or_default (some t) = t

-- A host address stands for the /24 around it, every other prefix as it is.
abbrev pub subnet_of : Text → Text → Text
subnet_of addr mask =
    if number mask == 32
    then or_default (canonicalize_ipv4_network (addr ++ codes "/24"))
    else or_default (canonicalize_ipv4_network (addr ++ (b'/' ∷ decimal (number mask))))

unfoldable pub derive_tunnel_subnet : Text → Text
unfolding find_address canonicalize_ipv4_network decimal
derive_tunnel_subnet config = elim (find_address true config) [
  | none ↦ default_subnet
  | some (addr, mask) ↦
      if ltb (number mask) 1 || ltb 32 (number mask) then default_subnet else subnet_of addr mask
]
