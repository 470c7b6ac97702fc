-- ===== src/Service/Files.antt =====
-- backend/internal/agent-ingress.js: the readers of the hub's files: `peerTunnelHosts`,
-- `parseHostsFile` and `parseHubEgressFlows`.
use floppyguard.Base.{
  ℕ, zero, suc, ◌+◌, Bool, true, false, not, ◌&&◌, ◌||◌, Option, none, some, List, [], ◌∷◌, ◌++◌,
  any, length, leb, ◌==◌, if◌then◌else◌,
}
use floppyguard.Base.Text.{
  Text, codes, text_eq, split, trim, trim_start, is_space, is_digit, decimal,
}
use floppyguard.Json.{Json, bool, arr, items, get, string_of, truthy}
use floppyguard.Cidr.{canonical_cidr}
use floppyguard.Ingress.{take}
use floppyguard.SiteIsolation.{ends_with, has_code, uniq_onto}
use floppyguard.Catalog.Upstreams.{host_ip}
use floppyguard.WireGuard.Dump.{lines_of}
use floppyguard.WireGuard.Metadata.Merge.{lookup}
use floppyguard.Service.Binding.{is_line_end}

-- `\w`
abbrev pub is_word : ℕ → Bool
is_word c = (leb b'A' c && leb c b'Z') || (leb b'a' c && leb c b'z') || is_digit c || c == b'_'

-- The word in front, and what follows it.
unfoldable pub word_of : Text → Text × Text
unfolding is_digit
word_of [] = ([], [])
word_of (c ∷ s) = let (w, rest) = word_of s in if is_word c then (c ∷ w, rest) else ([], c ∷ s)

-- `/^(\w+)\s*=\s*(.*)$/`: the key and the value.
abbrev pub value_of : Text → Text → Option (Text × Text)
value_of [] rest = none
value_of (c ∷ key) (e ∷ s) =
    if e == b'=' && not (any is_line_end (trim_start s)) then some (c ∷ key, trim_start s) else none
value_of (c ∷ key) [] = none

unfoldable pub assignment : Text → Option (Text × Text)
unfolding word_of trim_start is_space any
assignment t = let (w, rest) = word_of t in value_of w (trim_start rest)

-- What the reader of a configuration has so far: the section, its key and its hosts.
pub record PeerState : Type 0 where
  pub hosts : List Text
  pub in_peer : Bool
  pub key : Option Text
  pub allowed : List Text

abbrev pub is_key : Option Text → Text → Bool
is_key none wanted = false
is_key (some k) wanted = text_eq k wanted

unfoldable pub flush : Text → PeerState → PeerState
unfolding text_eq
flush wanted s =
    if s.in_peer && is_key s.key wanted then record s { hosts = s.hosts ++ s.allowed } else s

unfoldable pub host_parts : List Text → List Text
unfolding ends_with
host_parts [] = []
host_parts (p ∷ ps) =
    let rest = host_parts ps in
    elim (canonical_cidr (trim p)) [
      | none ↦ rest
      | some c ↦ if ends_with (codes "/32") c then c ∷ rest else rest
    ]

abbrev pub assign : Text → Text → PeerState → PeerState
assign key value s =
    if text_eq key (codes "PublicKey")
    then record s { key = some (trim value) }
    else (if text_eq key (codes "AllowedIPs")
        then record s { allowed = s.allowed ++ host_parts (split b',' value) }
        else s)

abbrev pub is_section : Text → Bool
is_section [] = false
is_section (c ∷ s) = c == b'['

abbrev pub assign_if : Option (Text × Text) → PeerState → PeerState
assign_if none s = s
assign_if (some (key, value)) s = if s.in_peer then assign key value s else s

unfoldable pub peer_line : Text → Text → PeerState → PeerState
unfolding flush assignment host_parts text_eq trim split
peer_line wanted raw s =
    let t = trim raw in
    if is_section t
    then record {
      hosts = (flush wanted s).hosts;
      in_peer = text_eq t (codes "[Peer]");
      key = none;
      allowed = [];
    }
    else assign_if (assignment t) s

unfoldable pub peer_lines : Text → List Text → PeerState → PeerState
unfolding peer_line
peer_lines wanted [] s = s
peer_lines wanted (l ∷ ls) s = peer_lines wanted ls (peer_line wanted l s)

unfoldable pub peer_tunnel_hosts : Text → Text → List Text
unfolding peer_lines flush lines_of uniq_onto
peer_tunnel_hosts conf_text public_key =
    uniq_onto []
      (flush public_key (
        peer_lines public_key (lines_of conf_text)
          (record { hosts = []; in_peer = false; key = none; allowed = [] }))).hosts

-- `raw.replace(/#.*/, "")`
unfoldable pub drop_to_end : Text → Text
drop_to_end [] = []
drop_to_end (c ∷ s) = if is_line_end c then c ∷ s else drop_to_end s

unfoldable pub drop_comment : Text → Text
unfolding drop_to_end
drop_comment [] = []
drop_comment (c ∷ s) = let rest = drop_comment s in if c == b'#' then drop_to_end s else c ∷ rest

-- `split(/\s+/)` of a trimmed text.
abbrev pub onto_word : ℕ → List Text → List Text
onto_word c [] = (c ∷ []) ∷ []
onto_word c (w ∷ ws) = (c ∷ w) ∷ ws

unfoldable pub words : Text → List Text
unfolding is_space
words [] = [] ∷ []
words (c ∷ []) = if is_space c then [] ∷ [] ∷ [] else (c ∷ []) ∷ []
words (c ∷ d ∷ s) =
    let rest = words (d ∷ s) in
    if is_space c then (if is_space d then rest else [] ∷ rest) else onto_word c rest

abbrev pub Hosts : Type 0
Hosts = List (Text × Text)

abbrev pub is_address : Text → Bool
is_address ip = not (has_code b'/' ip) && elim (canonical_cidr ip) [ none ↦ false | some _ ↦ true ]

-- `to_lower` is `toLowerCase` of the runtime.
module _ (to_lower : Text → Text) where
  -- The first address of a name counts.
  unfoldable pub add_names : Text → List Text → Hosts → Hosts
  unfolding lookup
  add_names ip [] hosts = hosts
  add_names ip (n ∷ ns) hosts =
      let key = to_lower n in
      add_names ip ns (elim (lookup key hosts) [ none ↦ hosts ++ (key, ip) ∷ [] | some _ ↦ hosts ])

  abbrev pub host_words : List Text → Hosts → Hosts
  host_words (ip ∷ n ∷ ns) hosts = if is_address ip then add_names ip (n ∷ ns) hosts else hosts
  host_words _ hosts = hosts

  unfoldable pub host_lines : List Text → Hosts → Hosts
  unfolding add_names words drop_comment trim has_code
  host_lines [] hosts = hosts
  host_lines (l ∷ ls) hosts = host_lines ls (host_words (words (trim (drop_comment l))) hosts)

  unfoldable pub parse_hosts_file : Text → Hosts
  unfolding host_lines lines_of
  parse_hosts_file text = host_lines (lines_of text) []

-- A flow of the hub's own traffic; the constant kind is left out.
pub record HubFlow : Type 0 where
  pub id : Text
  pub label : Text
  pub host : Text
  pub port : Option ℕ
  pub proto : Text
  pub enabled : Bool
  pub source : Option Text

abbrev pub is_false : Json → Bool
is_false (bool b) = not b
is_false v = false

abbrev pub string_or : Text → Json → Text
string_or default v = if truthy v then string_of v else default

abbrev pub port_in_range : Option ℕ → Option ℕ
port_in_range none = none
port_in_range (some n) = if leb 1 n && leb n 65535 then some n else none

-- The source of a flow: none given, an address, or a text that is refused.
abbrev pub flow_source : Json → Option (Option Text)
flow_source v =
    if truthy v
    then elim (canonical_cidr (string_of v)) [ none ↦ none | some c ↦ some (some c) ]
    else some none

abbrev pub take_items : ℕ → List Json → List Json
take_items zero vs = []
take_items (suc n) [] = []
take_items (suc n) (v ∷ vs) = v ∷ take_items n vs

-- `parse` is `JSON.parse`, `none` where it throws; `number_of` is `Number(v)` where that is an
-- integer from 0 on.
module _ (parse : Text → Option Json) (number_of : Json → Option ℕ) (to_lower : Text → Text) where
  unfoldable pub flow_of : ℕ → Json → Option HubFlow
  unfolding truthy string_of get text_eq decimal host_ip take
  flow_of i f =
      let proto = to_lower (string_or (codes "tcp") (get (codes "proto") f)) in
      elim (canonical_cidr (string_of (get (codes "destination") f))) [
        | none ↦ none
        | some host ↦
            if not (text_eq proto (codes "tcp")) && not (text_eq proto (codes "udp"))
            then none
            else elim (flow_source (get (codes "source") f)) [
              | none ↦ none
              | some source ↦ some (record {
                id = codes "egress-" ++ decimal (i + 1);
                label =
                    take 100
                      (string_or (codes "Hub-Egress " ++ decimal (i + 1)) (get (codes "name") f));
                host = host_ip host;
                port = port_in_range (number_of (get (codes "port") f));
                proto = proto;
                enabled = not (is_false (get (codes "enabled") f));
                source = source;
              })
            ]
      ]

  unfoldable pub flows_from : ℕ → List Json → List HubFlow
  unfolding flow_of
  flows_from i [] = []
  flows_from i (f ∷ fs) =
      let rest = flows_from (suc i) fs in elim (flow_of i f) [ none ↦ rest | some e ↦ e ∷ rest ]

  abbrev pub flows_of : Option Json → List HubFlow
  flows_of (some (arr vs)) = flows_from 0 (take_items 200 (items vs))
  flows_of _ = []

  unfoldable pub parse_hub_egress_flows : Text → List HubFlow
  unfolding flows_from
  parse_hub_egress_flows text = flows_of (parse (if length text == 0 then codes "[]" else text))
