-- ===== src/DirectLink/Input.antt =====
-- backend/internal/agent-direct-link-rules.js: `sanitizeDirectLinkInput`, the fields of a request
-- that creates or changes a direct link.
use floppyguard.Base.{
  ℕ, Bool, true, false, not, ◌&&◌, ◌||◌, Option, none, some, [], ◌∷◌, ◌++◌, all, any, length, ltb,
  leb, ◌==◌, if◌then◌else◌,
}
use floppyguard.Base.Text.{Text, codes, text_eq, split, trim, is_digit}
use floppyguard.Json.{Json, null, bool, num, str, get, is_undefined, string_of}
use floppyguard.Result.{Result, ok, err, validation, ◌>>=◌, ◌>>◌, throw_if}
use floppyguard.DirectLink.{is_ipv4_literal, canonical_tunnel_subnet}

-- The fields that a request gives; `mtu` may be null.
pub record DirectInput : Type 0 where
  pub name : Option Text
  pub agent_a_id : Option ℕ
  pub agent_b_id : Option ℕ
  pub listen_port : Option ℕ
  pub endpoint_host : Option Text
  pub tunnel_subnet : Option Text
  pub mtu : Option (Option ℕ)
  pub enabled : Option Bool
  pub nat_a : Option Bool
  pub nat_b : Option Bool

-- `v === true || v === 1 || v === "1" || v === "true"`
unfoldable pub is_true : Json → Bool
unfolding text_eq
is_true (bool b) = b
is_true (num s) = text_eq s (codes "1")
is_true (str s) = text_eq s (codes "1") || text_eq s (codes "true")
is_true v = false

abbrev pub trimmed_string : Json → Text
trimmed_string (str s) = trim s
trimmed_string v = []

abbrev pub control_code : ℕ → Bool
control_code c = leb c 0x1f || c == 0x7f

unfoldable pub display_name : Json → Result Text
unfolding trim any
display_name v =
    let name = trimmed_string v in
    if length name == 0 || ltb 64 (length name) || any control_code name
    then err (validation (codes "name must be 1-64 characters"))
    else ok name

-- A label of `HOSTNAME_RE`: letters, digits and hyphens, no hyphen at an end.
abbrev pub is_alnum : ℕ → Bool
is_alnum c = (leb b'A' c && leb c b'Z') || (leb b'a' c && leb c b'z') || is_digit c

unfoldable pub ends_alnum : Text → Bool
unfolding is_digit
ends_alnum [] = false
ends_alnum (c ∷ []) = is_alnum c
ends_alnum (c ∷ d ∷ s) = (is_alnum c || c == b'-') && ends_alnum (d ∷ s)

unfoldable pub is_host_label : Text → Bool
unfolding ends_alnum is_digit
is_host_label [] = false
is_host_label (c ∷ s) = is_alnum c && ends_alnum (c ∷ s) && leb (length (c ∷ s)) 63

unfoldable pub is_hostname : Text → Bool
unfolding is_host_label all split
is_hostname h = leb 1 (length h) && leb (length h) 253 && all is_host_label (split b'.' h)

abbrev pub looks_numeric : Text → Bool
looks_numeric h = not (length h == 0) && all (λ c. is_digit c || c == b'.') h

abbrev pub is_endpoint : Text → Bool
is_endpoint h =
    not (length h == 0) && (if looks_numeric h then is_ipv4_literal h else is_hostname h)

unfoldable pub tunnel_subnet_of : Json → Result Text
unfolding canonical_tunnel_subnet string_of
tunnel_subnet_of v = elim (canonical_tunnel_subnet (string_of v)) [
  | none ↦
      err (
        validation
          (codes "tunnel_subnet must be a private /30 network address (e.g. 10.10.9.0/30)"))
  | some t ↦ ok t
]

-- `if (need(name)) out[name] = check(b[name])`
unfoldable pub required : {A : Type 0} → Bool → Text → Json → (Json → Result A) → Result (Option A)
unfolding get is_undefined
required partial name body check =
    let v = get name body in
    if is_undefined v
    then (if partial then ok none else err (validation (name ++ codes " is required")))
    else check v >>= λ a. ok (some a)

-- `if (has(name)) out[name] = bool(b[name]); else if (!partial) out[name] = false`
unfoldable pub flag_of : Bool → Text → Json → Option Bool
unfolding get is_undefined is_true
flag_of partial name body =
    let v = get name body in
    if is_undefined v then (if partial then none else some false) else some (is_true v)

abbrev pub is_cleared : Json → Bool
is_cleared null = true
is_cleared (str []) = true
is_cleared v = false

abbrev pub same_agent : Option ℕ → Option ℕ → Bool
same_agent (some a) (some b) = a == b
same_agent _ _ = false

-- `number_of` is `Number(v)` where that is an integer from 0 on, and `lower` is `toLowerCase`.
module _ (number_of : Json → Option ℕ) (lower : Text → Text) where
  -- An integer within bounds, or the error.
  abbrev pub within : ℕ → Option ℕ → Text → Option ℕ → Result ℕ
  within least most message none = err (validation message)
  within least none message (some n) = if ltb n least then err (validation message) else ok n
  within least (some most) message (some n) =
      if ltb n least || ltb most n then err (validation message) else ok n

  unfoldable pub agent_number : Text → Json → Result ℕ
  agent_number name v = within 1 none (name ++ codes " must be an agent id") (number_of v)

  unfoldable pub port_number : Json → Result ℕ
  port_number v = within 1024 (some 65535) (codes "listen_port must be 1024-65535") (number_of v)

  unfoldable pub host_name : Json → Result Text
  unfolding trim is_hostname is_ipv4_literal is_digit all
  host_name v =
      let h = lower (trimmed_string v) in
      if is_endpoint h
      then ok h
      else err (validation (codes "endpoint_host must be a public IPv4 address or a host name"))

  unfoldable pub mtu_of : Json → Result (Option ℕ)
  mtu_of v =
      if is_cleared v
      then ok none
      else within 1280 (some 1500) (codes "mtu must be 1280-1500") (number_of v) >>= λ m.
          ok (some m)

  unfoldable pub optional_mtu : Json → Result (Option (Option ℕ))
  unfolding get is_undefined mtu_of
  optional_mtu body =
      let v = get (codes "mtu") body in
      if is_undefined v then ok none else mtu_of v >>= λ m. ok (some m)

  unfoldable pub sanitize_direct_link_input : Json → Bool → Result DirectInput
  unfolding required display_name agent_number port_number host_name tunnel_subnet_of optional_mtu
      flag_of
  sanitize_direct_link_input body partial =
      required partial (codes "name") body display_name >>= λ name.
      required partial (codes "agent_a_id") body (agent_number (codes "agent_a_id")) >>= λ a.
      required partial (codes "agent_b_id") body (agent_number (codes "agent_b_id")) >>= λ b.
      throw_if (same_agent a b) (validation (codes "a direct link needs two different agents"))
      >> (required partial (codes "listen_port") body port_number >>= λ port.
          required partial (codes "endpoint_host") body host_name >>= λ host.
          required partial (codes "tunnel_subnet") body tunnel_subnet_of >>= λ subnet.
          optional_mtu body >>= λ mtu. ok (record {
            name = name;
            agent_a_id = a;
            agent_b_id = b;
            listen_port = port;
            endpoint_host = host;
            tunnel_subnet = subnet;
            mtu = mtu;
            enabled = flag_of partial (codes "enabled") body;
            nat_a = flag_of partial (codes "nat_a") body;
            nat_b = flag_of partial (codes "nat_b") body;
          }))
