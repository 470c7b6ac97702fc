-- ===== src/Catalog.antt =====
-- backend/internal/agent-ingress-catalog.js: the flow tester, the offer to switch off unused rules
-- and the bulk operations on ingress rules. This file has what these parts share.
pub mod Evaluate
pub mod Prune
pub mod Bulk
pub mod Upstreams
pub mod Sources
pub mod Build
use floppyguard.Base.{ℕ, ◌*◌, ◌/◌, Bool, Option, none, some, List, ltb, ◌==◌, if◌then◌else◌}
use floppyguard.Base.Text.{Text}
use floppyguard.Ingress.{Rule}

abbrev pub stale_rule_seconds : ℕ
stale_rule_seconds = 30 * 24 * 3600

abbrev pub max_bulk_rules : ℕ
max_bulk_rules = 100

abbrev pub max_bulk_disable : ℕ
max_bulk_disable = 500

-- A time from the database: null or an empty text, a whole number or a text of digits, or
-- another text.
pub data Stamp : Type 0 where
  absent : Stamp
  count : ℕ → Stamp
  date : Text → Stamp

abbrev pub seconds_of_count : ℕ → Option ℕ
seconds_of_count n =
    if n == 0 then none else (if ltb 1000000000000 n then some (n / 1000) else some n)

-- `date_parse` is `Date.parse` of the runtime, in milliseconds, for dates from 1970 on.
unfoldable pub to_unix_seconds : (Text → Option ℕ) → Stamp → Option ℕ
to_unix_seconds date_parse absent = none
to_unix_seconds date_parse (count n) = seconds_of_count n
to_unix_seconds date_parse (date t) = elim (date_parse t) [
  | none ↦ none
  | some ms ↦ some (ms / 1000)
]

-- `{ id, name }` of a rule.
pub record RuleRef : Type 0 where
  pub id : ℕ
  pub name : Text

abbrev pub rule_ref : Rule → RuleRef
rule_ref r = record { id = r.id; name = r.name }
