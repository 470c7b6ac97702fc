-- ===== src/AgentConfig/Sections.antt =====
-- backend/internal/agent.js: `_parseHubPeerAllowedIPs` and `_rewriteHubPeerAllowedIPs`, the
-- AllowedIPs of the first [Peer] of a wg-quick config.
pub mod Entries
pub mod Lines
pub mod Rewritten
use floppyguard.Base.{
  ℕ, suc, Bool, true, false, not, ◌&&◌, Option, none, some, List, [], ◌∷◌, ◌++◌, filter, length,
  map, ◌==◌, if◌then◌else◌,
}
use floppyguard.Base.Text.{Text, codes, text_eq, split, join, trim}
use floppyguard.Ingress.{strip}
use floppyguard.WireGuard.Dump.{lines_of}

abbrev pub newline : Text
newline = 10 ∷ []

abbrev pub is_peer_head : Text → Bool
is_peer_head t = text_eq t (codes "[Peer]")

unfoldable pub starts : Text → Text → Bool
unfolding strip
starts prefix t = elim (strip prefix t) [ none ↦ false | some _ ↦ true ]

-- Where the reader stands: how many peers were seen, and whether it is within one.
pub record Place : Type 0 where
  pub peers : ℕ
  pub in_peer : Bool

abbrev pub at_start : Place
at_start = record { peers = 0; in_peer = false }

-- What a trimmed line is at a place.
pub data LineKind : Type 0 where
  peer_head : LineKind
  other_head : LineKind
  hub_line : LineKind
  other_line : LineKind

unfoldable pub line_kind : Place → Text → LineKind
unfolding text_eq starts
line_kind p t =
    if is_peer_head t
    then peer_head
    else (if starts (codes "[") t
        then other_head
        else (if p.in_peer && p.peers == 1 then hub_line else other_line))

abbrev pub move_on : LineKind → Place → Place
move_on peer_head p = record { peers = suc p.peers; in_peer = true }
move_on other_head p = record p { in_peer = false }
move_on hub_line p = p
move_on other_line p = p

-- `t.slice(t.indexOf("=") + 1)`: all of the text where it has no equals sign.
unfoldable pub behind_equals : Text → Option Text
behind_equals [] = none
behind_equals (c ∷ s) = let rest = behind_equals s in if c == b'=' then some s else rest

abbrev pub value_text : Text → Text
value_text t = elim (behind_equals t) [ none ↦ t | some s ↦ s ]

abbrev pub not_blank : Text → Bool
not_blank t = not (length t == 0)

unfoldable pub listed_nets : Text → List Text
unfolding behind_equals trim split filter
listed_nets t = filter not_blank (map trim (split b',' (trim (value_text t))))

abbrev pub is_allowed_line : Text → Bool
is_allowed_line t = starts (codes "AllowedIPs") t

abbrev pub nets_at : LineKind → Text → List Text
nets_at hub_line t = if is_allowed_line t then listed_nets t else []
nets_at _ t = []

unfoldable pub nets_of_lines : Place → List Text → List Text
unfolding line_kind listed_nets starts trim
nets_of_lines p [] = []
nets_of_lines p (raw ∷ ls) =
    let t = trim raw in
    let kind = line_kind p t in nets_at kind t ++ nets_of_lines (move_on kind p) ls

unfoldable pub parse_hub_peer_allowed_ips : Text → List Text
unfolding nets_of_lines lines_of
parse_hub_peer_allowed_ips config = nets_of_lines at_start (lines_of config)

abbrev pub allowed_line : List Text → Text
allowed_line nets = codes "AllowedIPs = " ++ join (codes ", ") nets

abbrev pub is_hub : LineKind → Bool
is_hub hub_line = true
is_hub _ = false

-- The first AllowedIPs line of the hub peer becomes the new list, and any further one is dropped.
unfoldable pub rewrite_lines : List Text → Place → Bool → List Text → List Text
unfolding line_kind starts trim join
rewrite_lines nets p replaced [] = []
rewrite_lines nets p replaced (raw ∷ ls) =
    let t = trim raw in
    let kind = line_kind p t in
    let p' = move_on kind p in
    let kept = rewrite_lines nets p' replaced ls in
    let done = rewrite_lines nets p' true ls in
    if is_hub kind && is_allowed_line t
    then (if replaced then done else allowed_line nets ∷ done)
    else raw ∷ kept

unfoldable pub rewrite_hub_peer_allowed_ips : Text → List Text → Text
unfolding rewrite_lines lines_of join
rewrite_hub_peer_allowed_ips config nets =
    join newline (rewrite_lines nets at_start false (lines_of config))
