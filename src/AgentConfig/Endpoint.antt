-- ===== src/AgentConfig/Endpoint.antt =====
-- backend/internal/agent.js: `_rewriteHubPeerEndpoint`, which moves the endpoint of the hub peer to
-- the current host of the hub, which `_sanitizeHubHost` of backend/internal/wireguard.js reads.
pub mod Parsed
pub mod Single
use floppyguard.Base.{
  ℕ, Bool, true, false, not, ◌&&◌, ◌||◌, Option, none, some, List, [], ◌∷◌, ◌++◌, any, all, length,
  ◌==◌, if◌then◌else◌,
}
use floppyguard.Base.Text.{Text, codes, text_eq, split, join, trim, trim_start, is_digit, is_number}
use floppyguard.Ingress.{strip}
use floppyguard.SiteIsolation.{has_code}
use floppyguard.DirectLink.Input.{is_alnum}
use floppyguard.Service.Binding.{is_line_end}
use floppyguard.WireGuard.Dump.{lines_of}
use floppyguard.AgentConfig.Sections.{
  newline, starts, Place, at_start, LineKind, line_kind, move_on, is_hub,
}

-- `/^[A-Za-z0-9.\-_:[\]]+$/`
abbrev pub is_hub_code : ℕ → Bool
is_hub_code c =
    is_alnum c || c == b'.' || c == b'-' || c == b'_' || c == b':' || c == b'[' || c == b']'

abbrev pub bracketed : Text → Text
bracketed v = if has_code b':' v && not (starts (codes "[") v) then b'[' ∷ (v ++ b']' ∷ []) else v

-- The configured host of the hub; a variable that is not set is empty.
unfoldable pub sanitize_hub_host : Text → Option Text
unfolding trim all has_code starts
sanitize_hub_host raw =
    let v = trim raw in
    if length v == 0 || not (all is_hub_code v) then none else some (bracketed v)

-- The digits in front, and what follows them.
unfoldable pub digits_of : Text → Text × Text
unfolding is_digit
digits_of [] = ([], [])
digits_of (c ∷ s) = let (d, rest) = digits_of s in if is_digit c then (c ∷ d, rest) else ([], c ∷ s)

-- `\s*(#.*)?$`: the comment, which may be missing.
abbrev pub comment_of : Text → Option (Option Text)
comment_of [] = some none
comment_of (c ∷ s) = if c == b'#' && not (any is_line_end s) then some (some (c ∷ s)) else none

abbrev pub port_with : Text × Text → Option (Text × Option Text)
port_with ([], rest) = none
port_with (d ∷ ds, rest) = elim (comment_of (trim_start rest)) [
  | none ↦ none
  | some comment ↦ some (d ∷ ds, comment)
]

abbrev pub port_after : Text → Option (Text × Option Text)
port_after [] = none
port_after (c ∷ s) = if c == b':' then port_with (digits_of (trim_start s)) else none

-- `\s*:\s*(\d+)\s*(#.*)?$`
unfoldable pub port_suffix : Text → Option (Text × Option Text)
unfolding trim_start digits_of any
port_suffix s = port_after (trim_start s)

pub record EndpointParts : Type 0 where
  pub host : Text
  pub port : Text
  pub comment : Option Text

abbrev pub with_host_code : ℕ → Option EndpointParts → Option EndpointParts
with_host_code c none = none
with_host_code c (some e) = some (record e { host = c ∷ e.host })

-- `([^#]*?)` is the shortest text in front of a port.
unfoldable pub host_and_port : Text → Option EndpointParts
unfolding port_suffix
host_and_port [] = none
host_and_port (c ∷ s) =
    let rest = host_and_port s in
    elim (port_suffix (c ∷ s)) [
      | some (port, comment) ↦ some (record { host = []; port = port; comment = comment })
      | none ↦ if c == b'#' then none else with_host_code c rest
    ]

abbrev pub behind_sign : Text → Option EndpointParts
behind_sign [] = none
behind_sign (c ∷ s) = if c == b'=' then host_and_port (trim_start s) else none

unfoldable pub endpoint_parts : Text → Option EndpointParts
unfolding strip trim_start host_and_port
endpoint_parts t = elim (strip (codes "Endpoint") t) [
  | none ↦ none
  | some s ↦ behind_sign (trim_start s)
]

abbrev pub dotted_quad : List Text → Bool
dotted_quad (a ∷ b ∷ c ∷ d ∷ []) = is_number 3 a && is_number 3 b && is_number 3 c && is_number 3 d
dotted_quad _ = false

unfoldable pub is_ip_host : Text → Bool
unfolding split is_number starts
is_ip_host h = dotted_quad (split b'.' h) || starts (codes "[") h

abbrev pub shown_comment : Option Text → Text
shown_comment none = []
shown_comment (some c) = b' ' ∷ c

-- `to_lower` is `toLowerCase` of the runtime.
module _ (to_lower : Text → Text) (hub_host : Text) where
  -- An address is not replaced by a name, and the same host stays as it is written.
  unfoldable pub endpoint_line : Text → EndpointParts → Text
  unfolding is_ip_host text_eq
  endpoint_line raw e =
      if (is_ip_host e.host && not (is_ip_host hub_host))
        || text_eq (to_lower e.host) (to_lower hub_host)
      then raw
      else codes "Endpoint = " ++ (hub_host ++ (b':' ∷ (e.port ++ shown_comment e.comment)))

  unfoldable pub endpoint_lines : Place → Bool → List Text → List Text
  unfolding line_kind starts trim endpoint_parts endpoint_line
  endpoint_lines p replaced [] = []
  endpoint_lines p replaced (raw ∷ ls) =
      let t = trim raw in
      let kind = line_kind p t in
      let kept = endpoint_lines (move_on kind p) replaced ls in
      let done = endpoint_lines (move_on kind p) true ls in
      if is_hub kind && not replaced && starts (codes "Endpoint") t
      then elim (endpoint_parts t) [ none ↦ raw ∷ kept | some e ↦ endpoint_line raw e ∷ done ]
      else raw ∷ kept

-- A config or a hub host that is missing changes nothing.
unfoldable pub rewrite_hub_peer_endpoint : (Text → Text) → Text → Option Text → Text
unfolding endpoint_lines lines_of join
rewrite_hub_peer_endpoint to_lower config none = config
rewrite_hub_peer_endpoint to_lower config (some host) =
    if length config == 0 || length host == 0
    then config
    else join newline (endpoint_lines to_lower host at_start false (lines_of config))
