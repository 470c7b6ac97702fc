-- ===== src/Ingress/Sanitize.antt =====
-- Validation of a rule payload from the API: `sanitizeCidrList`, `sanitizePorts`, `cleanText`,
-- `sanitizeIngressRule`, `sanitizeIngressMode`, and the caps on the number of filter lines.
pub mod Lists
pub mod Ports
pub mod Rules
use floppyguard.Base.{
  ℕ, ◌+◌, ◌*◌, Bool, true, false, not, ◌&&◌, ◌||◌, Option, none, some, List, [], ◌∷◌, ◌++◌, map,
  length, ltb, leb, ◌==◌, any, filter, if◌then◌else◌,
}
use floppyguard.Base.Text.{
  Text, codes, text_eq, includes, join, trim, decimal, number, is_number, is_digit,
}
use floppyguard.Json.{
  Json, undefined, null, bool, num, str, arr, obj, Items, end, items, string_of, truthy,
  is_undefined, is_nullish, get,
}
use floppyguard.Result.{Result, ok, err, validation, ◌>>=◌, ◌>>◌, throw_if, for_each}
use floppyguard.Cidr.{canonical_cidr}
use floppyguard.Ingress.{
  Port, Rule, max_list, max_lines_per_rule, max_lines_total, name_max, note_max, ingress_modes,
  ingress_protos, take, echo_value, at_least_one,
}

-- One round of the loop of `sanitizeCidrList`: a repeated network is left out.
add_cidr : Text → Json → List Text → Result (List Text)
add_cidr field raw out = elim (canonical_cidr (string_of raw)) [
  | none ↦ err (
      validation
        (field ++ (codes " contains invalid IPv4 address/CIDR: " ++ echo_value (string_of raw))))
  | some c ↦ ok (if includes out c then out else out ++ c ∷ [])
]

cidr_entries : Text → Bool → List Json → Result (List Text)
unfolding add_cidr for_each includes
cidr_entries field allow_empty value = do
  throw_if (ltb max_list (length value)) (validation (field ++ codes ": at most 64 entries"))
  out ← for_each (add_cidr field) value []
  throw_if (not allow_empty && length out == 0) (validation (field ++ codes " must not be empty"))
  ok out

unfoldable pub sanitize_cidr_list : Json → Text → Bool → Result (List Text)
unfolding cidr_entries is_nullish
sanitize_cidr_list (arr vs) field allow_empty = cidr_entries field allow_empty (items vs)
sanitize_cidr_list input field allow_empty =
    if is_nullish input
    then cidr_entries field allow_empty []
    else err (validation (field ++ codes " must be an array of IPv4 addresses/CIDRs"))

-- `toLowerCase`; letters beyond ASCII are left, since none of them becomes a letter of a protocol.
lower : Text → Text
lower [] = []
lower (c ∷ s) = (if leb b'A' c && leb c b'Z' then c + 32 else c) ∷ lower s

-- The digits that a text begins with, and the rest.
span_digits : Text → Text × Text
span_digits [] = ([], [])
span_digits (c ∷ s) =
    let (ds, rest) = span_digits s in if is_digit c then (c ∷ ds, rest) else ([], c ∷ s)

-- The groups of `/^(\d{1,5})(?:[:-](\d{1,5}))?$/`, as numbers; one group stands for both ends.
abbrev range_rest : Text → Text → Option (ℕ × ℕ)
range_rest from [] = if is_number 5 from then some (number from, number from) else none
range_rest from (c ∷ to) =
    if is_number 5 from && (c == b':' || c == b'-') && is_number 5 to
    then some (number from, number to)
    else none

port_range : Text → Option (ℕ × ℕ)
unfolding span_digits
port_range s = let (from, rest) = span_digits s in range_rest from rest

abbrev pub port_text : ℕ → ℕ → Text
port_text from to = if from == to then decimal from else decimal from ++ (b':' ∷ decimal to)

equal_ports : Port → Port → Bool
equal_ports a b = text_eq a.proto b.proto && text_eq a.port b.port

-- `raw?.proto ?? "tcp"`.
abbrev proto_of : Json → Text
proto_of v = if is_nullish v then codes "tcp" else string_of v

-- One round of the loop of `sanitizePorts`.
add_port : Json → List Port → Result (List Port)
unfolding port_range lower equal_ports
add_port raw out = do
  let proto = lower (proto_of (get (codes "proto") raw))
  throw_if (not (includes ingress_protos proto))
      (validation (codes "ports: invalid protocol " ++ echo_value proto))
  let port_str = trim (string_of (get (codes "port") raw))
  let bad = validation (codes "ports: invalid port " ++ echo_value port_str)
  elim (port_range port_str) [
    | none ↦ err bad
    | some (from, to) ↦
        throw_if (ltb from 1 || ltb 65535 to || ltb to from) bad
        >> (let p : Port = record { proto = proto; port = port_text from to } in
            ok (if any (equal_ports p) out then out else out ++ p ∷ []))
  ]

unfoldable pub sanitize_ports : Json → Result (List Port)
unfolding add_port for_each
sanitize_ports (arr vs) = do
  throw_if (ltb max_list (length (items vs))) (validation (codes "ports: at most 64 entries"))
  for_each add_port (items vs) []
sanitize_ports value =
    if is_nullish value then ok [] else err (validation (codes "ports must be an array"))

-- `replace(/[\u0000-\u001f\u007f]/g, " ")`, `trim`, `slice(0, max)`.
blank_controls : Text → Text
blank_controls [] = []
blank_controls (c ∷ s) = (if leb c 0x1f || c == 0x7f then b' ' else c) ∷ blank_controls s

unfoldable pub clean_text : Json → ℕ → Text
unfolding blank_controls
clean_text value max = take max (trim (blank_controls (string_of value)))

-- The patch that `sanitizeIngressRule` returns; an absent field is `none`.
pub record Patch : Type 0 where
  pub name : Option Text
  pub sources : Option (List Text)
  pub destinations : Option (List Text)
  pub ports : Option (List Port)
  pub enabled : Option Bool
  pub note : Option (Option Text)

-- `sources × destinations × ports`, an empty list of the last two counting as one.
unfoldable pub rule_line_count : List Text → List Text → List Port → ℕ
rule_line_count sources destinations ports =
    length sources * at_least_one (length destinations) * at_least_one (length ports)

unfoldable pub assert_rule_line_count : ℕ → Result (Unit {0})
assert_rule_line_count lines = throw_if (ltb max_lines_per_rule lines) (
    validation (
      codes "Freigabe ergibt "
      ++ (decimal lines
          ++ codes
              " Filterzeilen (Quellen × Ziele × Ports), erlaubt sind höchstens 256 – bitte aufteilen oder zusammenfassen")))

-- A field is read unless the update leaves it out.
present : Bool → Json → Bool
present partial v = not partial || not (is_undefined v)

-- `if (present) out.f = sanitize(v)`.
optional : {A : Type 0} → Bool → Result A → Result (Option A)
optional false r = ok none
optional true r = r >>= λ a. ok (some a)

sanitize_name : Json → Result Text
sanitize_name v =
    let name = clean_text v name_max in
    if length name == 0 then err (validation (codes "name is required")) else ok name

-- `enabled === undefined ? true : Boolean(v) && v !== "false" && v !== 0`.
enabled_of : Json → Bool
enabled_of undefined = true
enabled_of (str s) = truthy (str s) && not (text_eq s (codes "false"))
enabled_of v = truthy v

note_of : Json → Option Text
note_of v = let note = clean_text v note_max in if length note == 0 then none else some note

abbrev pub or_empty : {A : Type 0} → Option (List A) → List A
or_empty none = []
or_empty (some l) = l

-- `data || {}`.
abbrev or_object : Json → Json
or_object d = if truthy d then d else obj end

-- The fields are read in this order; the first that is refused ends it.
patch_of :
    Result (Option Text)
    → Result (Option (List Text))
    → Result (Option (List Text))
    → Result (Option (List Port))
    → Result (Option Bool)
    → Result (Option (Option Text))
    → Result Patch
patch_of names sources destinations ports enabled notes = do
  n ← names
  s ← sources
  d ← destinations
  p ← ports
  e ← enabled
  t ← notes
  ok (record { name = n; sources = s; destinations = d; ports = p; enabled = e; note = t })

read_patch : Json → Bool → Result Patch
unfolding patch_of present optional sanitize_name enabled_of note_of
read_patch d partial =
    let name = get (codes "name") d in
    let sources = get (codes "sources") d in
    let destinations = get (codes "destinations") d in
    let ports = get (codes "ports") d in
    let enabled = get (codes "enabled") d in
    let note = get (codes "note") d in
    patch_of (optional (present partial name) (sanitize_name name))
      (optional (present partial sources) (sanitize_cidr_list sources (codes "sources") false))
      (optional (present partial destinations)
        (sanitize_cidr_list destinations (codes "destinations") true))
      (optional (present partial ports) (sanitize_ports ports))
      (optional (present partial enabled) (ok (enabled_of enabled)))
      (optional (present partial note) (ok (note_of note)))

abbrev pub patch_lines : Patch → ℕ
patch_lines p = rule_line_count (or_empty p.sources) (or_empty p.destinations) (or_empty p.ports)

-- `if (!partial) assertRuleLineCount(out)`.
check_lines : Bool → Patch → Result Patch
check_lines true p = ok p
check_lines false p = assert_rule_line_count (patch_lines p) >> ok p

unfoldable pub sanitize_ingress_rule : Json → Bool → Result Patch
unfolding read_patch check_lines
sanitize_ingress_rule payload partial =
    read_patch (or_object payload) partial >>= check_lines partial

-- The lines of all enabled rules together, before they are repeated for each interface.
unfoldable pub enabled_line_count : List Rule → ℕ
unfolding rule_line_count
enabled_line_count [] = 0
enabled_line_count (r ∷ rs) =
    (if r.enabled then rule_line_count r.sources r.destinations r.ports else 0)
    + enabled_line_count rs

unfoldable pub assert_total_line_count : List Rule → ℕ → Result (Unit {0})
unfolding enabled_line_count
assert_total_line_count rules iface_count =
    let total = enabled_line_count rules * at_least_one iface_count in
    throw_if (ltb max_lines_total total) (
      validation (
        codes "Die aktiven Freigaben ergeben zusammen "
        ++ (decimal total
            ++ codes
                " Filterzeilen, erlaubt sind höchstens 4000 – bitte Freigaben zusammenfassen oder deaktivieren")))

unfoldable pub sanitize_ingress_mode : Json → Result Text
sanitize_ingress_mode mode =
    let m = trim (string_of mode) in
    if includes ingress_modes m
    then ok m
    else err (validation (codes "ingress_mode must be one of: open, restricted"))
