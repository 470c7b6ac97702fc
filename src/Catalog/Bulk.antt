-- ===== src/Catalog/Bulk.antt =====
-- The bulk operations: `sanitizeRuleIds`, `sanitizeBulkList`, `bulkDedupe`, and the query of the
-- flow tester, `sanitizeFlowQuery`.
pub mod Ids
pub mod Partition
use floppyguard.Base.{
  ℕ, suc, ◌+◌, Bool, true, false, not, ◌&&◌, ◌||◌, Option, none, some, List, [], ◌∷◌, ◌++◌, map,
  any, all, length, ltb, leb, ◌==◌, if◌then◌else◌,
}
use floppyguard.Base.Text.{Text, codes, text_eq, is_digit, number, decimal, trim, is_number}
use floppyguard.Json.{
  Json, undefined, null, bool, num, str, arr, obj, items, get, string_of, is_nullish,
}
use floppyguard.Result.{
  Result, ok, err, Failure, validation, internal, ◌>>=◌, ◌>>◌, throw_if, for_each,
}
use floppyguard.Cidr.{canonical_cidr}
use floppyguard.Ingress.{Port, Rule, echo_value}
use floppyguard.Ingress.Cover.{Flow}
use floppyguard.Ingress.Sanitize.{Patch, sanitize_ingress_rule}
use floppyguard.SiteIsolation.{text_lt}
use floppyguard.Catalog.{max_bulk_rules, max_bulk_disable}

-- A text of digits, at least one.
abbrev pub is_digits : Text → Bool
is_digits [] = false
is_digits (c ∷ s) = all is_digit (c ∷ s)

-- A number value or a text of digits as an id. Numbers from 2 ^ 53 on, which JavaScript rounds,
-- are not told apart here.
abbrev pub id_of : Json → Option ℕ
id_of v = let t = string_of v in if is_digits t && leb 1 (number t) then some (number t) else none

unfoldable pub includes_id : List ℕ → ℕ → Bool
unfolding any
includes_id ids n = any (λ m. m == n) ids

unfoldable pub id_round : Json → List ℕ → Result (List ℕ)
unfolding includes_id string_of is_digit
id_round v out = elim (id_of v) [
  | none ↦ err (validation (codes "rule_ids: invalid id " ++ echo_value (string_of v)))
  | some n ↦ ok (if includes_id out n then out else out ++ n ∷ [])
]

abbrev pub bad_ids : Failure
bad_ids = validation (codes "rule_ids must be an array of 1 to 500 ids")

unfoldable pub sanitize_rule_ids : Json → Result (List ℕ)
unfolding id_round for_each
sanitize_rule_ids (arr vs) =
    throw_if (ltb (length (items vs)) 1 || ltb max_bulk_disable (length (items vs))) bad_ids
    >> for_each id_round (items vs) []
sanitize_rule_ids _ = err bad_ids

-- One entry of a bulk list; the index goes in front of a validation message.
abbrev pub at_index : ℕ → Result Patch → Result Patch
at_index i (ok p) = ok p
at_index i (err (validation t)) = err (validation (codes "rules[" ++ decimal i ++ codes "]: " ++ t))
at_index i (err (internal t)) = err (internal t)

unfoldable pub bulk_entries : ℕ → List Json → Result (List Patch)
bulk_entries i [] = ok []
bulk_entries i (d ∷ ds) = do
  p ← at_index i (sanitize_ingress_rule d false)
  ps ← bulk_entries (suc i) ds
  ok (p ∷ ps)

abbrev pub bad_bulk : Failure
bad_bulk = validation (codes "rules must be an array of 1 to 100 Freigaben")

unfoldable pub sanitize_bulk_list : Json → Result (List Patch)
unfolding bulk_entries
sanitize_bulk_list (arr vs) =
    throw_if (ltb (length (items vs)) 1 || ltb max_bulk_rules (length (items vs))) bad_bulk
    >> bulk_entries 0 (items vs)
sanitize_bulk_list _ = err bad_bulk

-- A field that is undefined, null or the empty text.
abbrev pub is_blank : Json → Bool
is_blank undefined = true
is_blank null = true
is_blank (str []) = true
is_blank _ = false

-- A number value has to be written in digits; a text has 1 to 5 of them, with white space around.
abbrev pub port_digits : Json → Bool
port_digits (num t) = is_digits t
port_digits v = is_number 5 (trim (string_of v))

abbrev pub bad_port : Json → Result (Option ℕ)
bad_port v = err (validation (codes "port: invalid port " ++ echo_value (string_of v)))

unfoldable pub query_port : Json → Result (Option ℕ)
unfolding string_of is_digit is_number trim
query_port v =
    let n = number (trim (string_of v)) in
    if is_blank v
    then ok none
    else (if port_digits v && leb 1 n && leb n 65535 then ok (some n) else bad_port v)

-- `toLowerCase` of ASCII letters; other letters stay, and neither form is "tcp" or "udp".
unfoldable pub lower_case : Text → Text
lower_case [] = []
lower_case (c ∷ s) = (if leb b'A' c && leb c b'Z' then c + 32 else c) ∷ lower_case s

abbrev pub query_cidr : Text → Json → Result Text
query_cidr field v = elim (canonical_cidr (string_of v)) [
  | none ↦
      err (validation (field ++ codes ": invalid IPv4 address/CIDR: " ++ echo_value (string_of v)))
  | some c ↦ ok c
]

unfoldable pub query_proto : Json → Result Text
unfolding lower_case string_of
query_proto v =
    let p = if is_blank v then codes "tcp" else lower_case (string_of v) in
    throw_if (not (text_eq p (codes "tcp")) && not (text_eq p (codes "udp")))
      (validation (codes "proto: invalid protocol " ++ echo_value p))
    >> ok p

unfoldable pub sanitize_flow_query : Json → Result Flow
unfolding query_port query_proto get
sanitize_flow_query b = do
  src ← query_cidr (codes "source") (get (codes "source") b)
  dst ← query_cidr (codes "destination") (get (codes "destination") b)
  port ← query_port (get (codes "port") b)
  proto ← query_proto (get (codes "proto") b)
  ok (record { src = src; dst = dst; port = port; proto = proto })

-- `list.sort()` on texts.
unfoldable pub insert_key : Text → List Text → List Text
insert_key t [] = t ∷ []
insert_key t (u ∷ us) = let rest = insert_key t us in if text_lt u t then u ∷ rest else t ∷ u ∷ us

unfoldable pub sort_keys : List Text → List Text
unfolding insert_key
sort_keys [] = []
sort_keys (t ∷ ts) = insert_key t (sort_keys ts)

-- A network that is not canonical is null in the key; no canonical text is the word "null".
abbrev pub canonical_key : Text → Text
canonical_key t = elim (canonical_cidr t) [ none ↦ codes "null" | some c ↦ c ]

abbrev pub port_key : Port → Text
port_key p = p.proto ++ (b'/' ∷ p.port)

-- The targets of a rule or of a sanitized entry.
pub record Target : Type 0 where
  pub sources : List Text
  pub destinations : List Text
  pub ports : List Port

abbrev pub target_of_rule : Rule → Target
target_of_rule r = record { sources = r.sources; destinations = r.destinations; ports = r.ports }

-- What two rules have in common when they have the same targets: the lists that `JSON.stringify`
-- prints.
pub record TargetKey : Type 0 where
  pub sources : List Text
  pub destinations : List Text
  pub ports : List Text

unfoldable pub target_key : Target → TargetKey
unfolding sort_keys
target_key t = record {
  sources = sort_keys (map canonical_key t.sources);
  destinations = sort_keys (map canonical_key t.destinations);
  ports = sort_keys (map port_key t.ports);
}

unfoldable pub texts_eq : List Text → List Text → Bool
texts_eq [] [] = true
texts_eq [] (_ ∷ _) = false
texts_eq (_ ∷ _) [] = false
texts_eq (s ∷ ss) (t ∷ ts) = text_eq s t && texts_eq ss ts

unfoldable pub key_eq : TargetKey → TargetKey → Bool
unfolding texts_eq
key_eq a b =
    texts_eq a.sources b.sources
    && texts_eq a.destinations b.destinations
    && texts_eq a.ports b.ports

-- The maps from keys to rule ids; the id is null for an entry of the same request.
abbrev pub KeyMap : Type 0
KeyMap = List (TargetKey × Option ℕ)

unfoldable pub id_at : KeyMap → TargetKey → Option (Option ℕ)
unfolding key_eq
id_at [] k = none
id_at (e ∷ m) k = let rest = id_at m k in if key_eq e.0 k then some e.1 else rest

-- `if (!into.has(k)) into.set(k, r.id)` for the rules of one state.
unfoldable pub index_rules : Bool → List Rule → KeyMap → KeyMap
unfolding id_at target_key
index_rules on [] m = m
index_rules on (r ∷ rs) m = index_rules on rs (elim (id_at m (target_key (target_of_rule r))) [
  | some _ ↦ m
  | none ↦
      if (if on then r.enabled else not r.enabled)
      then m ++ (target_key (target_of_rule r), some r.id) ∷ []
      else m
])

pub record Dedupe : Type 0 where
  pub seen : KeyMap
  pub create : List (ℕ × Target)
  pub reenable : List (ℕ × ℕ)
  pub skipped : List (ℕ × Option ℕ)

-- One entry of the request. `disabled` is the map of the rules that are switched off.
unfoldable pub dedupe_entry : KeyMap → ℕ → Target → Dedupe → Dedupe
unfolding id_at target_key
dedupe_entry disabled index entry d =
    let k = target_key entry in
    elim (id_at d.seen k) [
      | some known ↦ record d { skipped = d.skipped ++ (index, known) ∷ [] }
      | none ↦ elim (id_at disabled k) [
        | some (some id) ↦ record d {
          reenable = d.reenable ++ (index, id) ∷ [];
          seen = (k, some id) ∷ d.seen;
        }
        | _ ↦ record d { seen = (k, none) ∷ d.seen; create = d.create ++ (index, entry) ∷ [] }
      ]
    ]

unfoldable pub dedupe_from : KeyMap → ℕ → List Target → Dedupe → Dedupe
unfolding dedupe_entry
dedupe_from disabled index [] d = d
dedupe_from disabled index (t ∷ ts) d =
    dedupe_from disabled (suc index) ts (dedupe_entry disabled index t d)

unfoldable pub bulk_dedupe : List Rule → List Target → Dedupe
unfolding index_rules dedupe_from target_key
bulk_dedupe existing clean =
    dedupe_from (index_rules false existing []) 0 clean
      (record { seen = index_rules true existing []; create = []; reenable = []; skipped = [] })
