-- ===== src/WireGuard/Metadata.antt =====
-- backend/internal/wireguard.js: the metadata of interfaces and links. A JavaScript object is the
-- list of its entries in their order, each key once.
pub mod Merge
pub mod Lookup
use floppyguard.Base.{
  ℕ, suc, Bool, true, false, not, ◌&&◌, ◌||◌, Option, none, some, List, [], ◌∷◌, ◌++◌, all, any,
  filter, length, leb, ◌==◌, if◌then◌else◌, map,
}
use floppyguard.Base.Text.{Text, codes, text_eq, includes, split, trim, is_digit}
use floppyguard.Json.{
  Json, undefined, null, bool, str, arr, obj, Items, nil, cons, items, Fields, get_field, string_of,
  truthy,
}
use floppyguard.Result.{Result, ok, err, validation, ◌>>=◌, for_each}
use floppyguard.SiteIsolation.{uniq_onto, add_unique}
use floppyguard.WireGuard.Networks.{sanitize_network_array}

abbrev pub Object : Type 0
Object = List (Text × Json)

abbrev pub link_types : List Text
link_types =
    codes "client"
    ∷ codes "site-to-site"
    ∷ codes "hub-link"
    ∷ codes "imported"
    ∷ codes "unknown"
    ∷ []

abbrev pub interface_roles : List Text
interface_roles =
    codes "client-hub"
    ∷ codes "site-to-site"
    ∷ codes "hub-link"
    ∷ codes "auxiliary"
    ∷ codes "unknown"
    ∷ []

abbrev pub management_modes : List Text
management_modes = codes "local" ∷ codes "imported" ∷ codes "unknown" ∷ []

abbrev pub remote_management_modes : List Text
remote_management_modes = codes "none" ∷ codes "ssh" ∷ codes "agent" ∷ codes "unknown" ∷ []

abbrev pub return_path_modes : List Text
return_path_modes =
    codes "auto" ∷ codes "routed" ∷ codes "static-route" ∷ codes "nat" ∷ codes "unknown" ∷ []

-- An array of strings.
abbrev pub strings : List Text → Items
strings [] = nil
strings (t ∷ ts) = cons (str t) (strings ts)

-- `v ? String(v) : undefined`
unfoldable pub text_of : Json → Option Text
unfolding string_of truthy
text_of v = if truthy v then some (string_of v) else none

abbrev pub one_of : List Text → Text → Option Text
one_of known t = if includes known t then some t else none

abbrev pub normalized : List Text → Option Text → Option Text
normalized known none = none
normalized known (some t) =
    if length t == 0
    then none
    else (if text_eq t (codes "site-link") then some (codes "site-to-site") else one_of known t)

unfoldable pub normalize_link_type : Option Text → Option Text
unfolding includes text_eq
normalize_link_type type = normalized link_types type

unfoldable pub normalize_interface_role : Option Text → Option Text
unfolding includes text_eq
normalize_interface_role role = normalized interface_roles role

abbrev pub or_undefined : Option Text → Json
or_undefined none = undefined
or_undefined (some t) = str t

abbrev pub one_mode : List Text → Json → Json
one_mode known v = elim (text_of v) [ none ↦ undefined | some t ↦ or_undefined (one_of known t) ]

abbrev pub is_control : ℕ → Bool
is_control c = leb c 0x1f || c == 0x7f

unfoldable pub strip_link_name_control_chars : Text → Text
unfolding filter
strip_link_name_control_chars value = filter (λ c. not (is_control c)) value

unfoldable pub sanitize_string_array : Json → List Text
unfolding uniq_onto filter text_of trim
sanitize_string_array (arr vs) = uniq_onto [] (
    filter (λ t. not (length t == 0))
      (map (λ v. elim (text_of v) [ none ↦ [] | some t ↦ trim t ]) (items vs)))
sanitize_string_array v = []

-- A label of `DNS_NAME_RE`: `[A-Za-z0-9](?:[A-Za-z0-9-]{0,62})`.
abbrev pub is_name_code : ℕ → Bool
is_name_code c = (leb b'A' c && leb c b'Z') || (leb b'a' c && leb c b'z') || is_digit c

unfoldable pub is_label : Text → Bool
unfolding all is_digit
is_label [] = false
is_label (c ∷ s) = is_name_code c && leb (length s) 62 && all (λ d. is_name_code d || d == b'-') s

-- The labels, of which the last may be empty.
unfoldable pub are_labels : List Text → Bool
unfolding is_label
are_labels [] = true
are_labels ([] ∷ []) = true
are_labels (l ∷ ls) = is_label l && are_labels ls

unfoldable pub is_dns_name : Text → Bool
unfolding are_labels is_label split
is_dns_name s =
    leb 1 (length s)
    && leb (length s) 253
    && elim (split b'.' s) [ [] ↦ false | l ∷ ls ↦ is_label l && are_labels ls ]

-- How the value of a field is sanitized.
pub data FieldKind : Type 0 where
  link_name : FieldKind
  link_type : FieldKind
  role : FieldKind
  mode : List Text → FieldKind
  networks : FieldKind
  text : FieldKind
  dns : FieldKind
  flag : FieldKind
  platform : FieldKind
  notes : FieldKind

abbrev platform_of : Json → Json
platform_of (str s) = or_undefined (one_of (codes "desktop" ∷ codes "mobile" ∷ []) s)
platform_of v = undefined

abbrev pub interface_fields : List (Text × FieldKind)
interface_fields =
    (codes "role", role)
    ∷ (codes "managementMode", mode management_modes)
    ∷ (codes "exportedNetworks", networks)
    ∷ (codes "importedNetworks", networks)
    ∷ (codes "routeTargets", networks)
    ∷ (codes "notes", notes)
    ∷ (codes "dns", dns)
    ∷ []

abbrev pub link_fields : List (Text × FieldKind)
link_fields =
    (codes "name", link_name)
    ∷ (codes "type", link_type)
    ∷ (codes "exportedNetworks", networks)
    ∷ (codes "importedNetworks", networks)
    ∷ (codes "returnPathMode", mode return_path_modes)
    ∷ (codes "remoteManagementMode", mode remote_management_modes)
    ∷ (codes "planIntent", text)
    ∷ (codes "planState", text)
    ∷ (codes "dns", dns)
    ∷ (codes "fullTunnel", flag)
    ∷ (codes "platform", platform)
    ∷ (codes "notes", notes)
    ∷ []

-- `is_ip` is `isIP(s) !== 0` of node:net, and `quote` is `JSON.stringify` of a text.
module _ (is_ip : Text → Bool) (quote : Text → Text) where
  unfoldable pub is_valid_dns_entry : Text → Bool
  unfolding trim is_dns_name
  is_valid_dns_entry value = let s = trim value in is_ip s || is_dns_name s

  unfoldable pub dns_round : Json → List Text → Result (List Text)
  unfolding is_valid_dns_entry add_unique
  dns_round item out =
      let s = trim (string_of item) in
      if length s == 0
      then ok out
      else (if is_valid_dns_entry s
          then ok (add_unique out s)
          else err (validation (codes "Invalid DNS entry: " ++ quote s)))

  abbrev pub dns_refused : Result (List Text)
  dns_refused = err (validation (codes "dns must be an array of IP addresses or host names"))

  unfoldable pub sanitize_dns_array : Json → Result (List Text)
  unfolding dns_round for_each
  sanitize_dns_array undefined = ok []
  sanitize_dns_array null = ok []
  sanitize_dns_array (arr vs) = for_each dns_round (items vs) []
  sanitize_dns_array v = dns_refused

  abbrev as_list : Result (List Text) → Result Json
  as_list r = r >>= λ ts. ok (arr (strings ts))

  unfoldable pub field_value : FieldKind → Json → Result Json
  unfolding sanitize_network_array sanitize_dns_array sanitize_string_array text_of includes
      normalize_link_type normalize_interface_role strip_link_name_control_chars
  field_value link_name v =
      ok (elim (text_of v) [ none ↦ undefined | some t ↦ str (strip_link_name_control_chars t) ])
  field_value link_type v = ok (or_undefined (normalize_link_type (text_of v)))
  field_value role v = ok (or_undefined (normalize_interface_role (text_of v)))
  field_value (mode known) v = ok (one_mode known v)
  field_value networks v = as_list (sanitize_network_array v)
  field_value text v = ok (or_undefined (text_of v))
  field_value dns v = as_list (sanitize_dns_array v)
  field_value flag v = ok (bool (truthy v))
  field_value platform v = ok (platform_of v)
  field_value notes v = ok (arr (strings (sanitize_string_array v)))

  -- `if (Object.hasOwn(input, name)) sanitized[name] = …`
  unfoldable pub sanitize_field : Fields → Text × FieldKind → Object → Result Object
  unfolding field_value get_field
  sanitize_field input (name, kind) out = elim (get_field name input) [
    | none ↦ ok out
    | some v ↦ field_value kind v >>= λ w. ok (out ++ (name, w) ∷ [])
  ]

  unfoldable pub sanitize_interface_metadata_patch : Fields → Result Object
  unfolding for_each sanitize_field
  sanitize_interface_metadata_patch input = for_each (sanitize_field input) interface_fields []

  unfoldable pub sanitize_link_metadata_patch : Fields → Result Object
  unfolding for_each sanitize_field
  sanitize_link_metadata_patch input = for_each (sanitize_field input) link_fields []
