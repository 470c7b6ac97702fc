-- ===== src/Ingress.antt =====
-- backend/internal/agent-ingress-rules.js: the rules ("Freigaben") that filter what arrives through
-- an agent's WireGuard interface. This file has the constants, the shapes and the small helpers.
pub mod Sanitize
pub mod Cover
pub mod Restore
pub mod Hits
use floppyguard.Base.{
  ℕ, zero, suc, ◌-◌, Bool, true, false, ◌&&◌, Option, none, some, List, [], ◌∷◌, ◌++◌, length, ltb,
  ◌==◌, all, if◌then◌else◌, any,
}
use floppyguard.Base.Text.{Text, codes, text_eq, includes, is_number, is_digit}

abbrev pub max_rules_per_agent : ℕ
max_rules_per_agent = 500

abbrev pub max_list : ℕ
max_list = 64

abbrev pub max_lines_per_rule : ℕ
max_lines_per_rule = 256

abbrev pub max_lines_total : ℕ
max_lines_total = 4000

abbrev pub name_max : ℕ
name_max = 100

abbrev pub note_max : ℕ
note_max = 255

abbrev pub ingress_chain : Text
ingress_chain = codes "FG_IN"

abbrev pub ingress_modes : List Text
ingress_modes = codes "open" ∷ codes "restricted" ∷ []

abbrev pub ingress_protos : List Text
ingress_protos = codes "tcp" ∷ codes "udp" ∷ []

pub record Port : Type 0 where
  pub proto : Text
  pub port : Text

-- The object that `rowToRule` gives; `note` and the times are null where the option is `none`.
pub record Rule : Type 0 where
  pub id : ℕ
  pub agent_id : ℕ
  pub name : Text
  pub sources : List Text
  pub destinations : List Text
  pub ports : List Port
  pub enabled : Bool
  pub note : Option Text
  pub hit_packets : ℕ
  pub last_hit_at : Option ℕ
  pub armed_on : Option ℕ

-- `s.slice(0, n)`.
unfoldable pub take : ℕ → Text → Text
take zero s = []
take (suc n) [] = []
take (suc n) (c ∷ s) = c ∷ take n s

-- What is left of a text behind a prefix, or none where it has another one.
unfoldable pub strip : Text → Text → Option Text
strip [] s = some s
strip (_ ∷ _) [] = none
strip (p ∷ ps) (c ∷ s) = if p == c then strip ps s else none

abbrev pub numbered : ℕ → Option Text → Bool
numbered most none = false
numbered most (some s) = is_number most s

-- `/^wg\d{1,3}$/` and `/^fgd\d{1,4}$/`.
unfoldable pub is_wg_iface : Text → Bool
unfolding strip is_number
is_wg_iface name = numbered 3 (strip (codes "wg") name)

unfoldable pub is_direct_iface : Text → Bool
unfolding strip is_number
is_direct_iface name = numbered 4 (strip (codes "fgd") name)

-- A link id "wgN:<pubkey>" at its first colon.
unfoldable pub split_link_id : Text → Option (Text × Text)
split_link_id [] = none
split_link_id (c ∷ s) =
    let rest = split_link_id s in
    if c == b':' then some ([], s) else elim rest [ none ↦ none | some (i, k) ↦ some (c ∷ i, k) ]

unfoldable pub pub_key8 : Text → Text
unfolding take
pub_key8 key = take 8 key

-- A request value in an error message, clipped with an ellipsis.
unfoldable pub echo_value : Text → Text
unfolding take
echo_value s = if ltb 64 (length s) then take 64 s ++ (0x2026 ∷ []) else s

-- `list.length || 1` for a list that may be absent: `Math.max(1, list.length)`.
abbrev pub at_least_one : ℕ → ℕ
at_least_one zero = 1
at_least_one (suc n) = suc n
