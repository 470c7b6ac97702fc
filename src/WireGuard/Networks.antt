-- ===== src/WireGuard/Networks.antt =====
-- backend/internal/wireguard.js: networks in the metadata (`canonicalizeIpv4Network`,
-- `isAcceptableNetworkPrefix`, `sanitizeNetworkArray`) and networks that two links claim
-- (`networksOverlap`, `checkAllowedIPsConflicts`, `findLinkNetworkConflicts`).
pub mod Accepted
pub mod Conflicts
use floppyguard.Base.{
  ℕ, Bool, true, false, not, ◌&&◌, ◌||◌, Option, none, some, List, [], ◌∷◌, ◌++◌, any, length, ltb,
  leb, ◌==◌, if◌then◌else◌, filter, flat_map, map,
}
use floppyguard.Base.Text.{Text, codes, text_eq, includes, split, trim, is_number, number}
use floppyguard.Json.{Json, arr, items, string_of}
use floppyguard.Result.{Result, ok, err, validation, throw_if, ◌>>=◌, ◌>>◌, for_each}
use floppyguard.Cidr.{ip_to_int, masked, render, cidr_contains}
use floppyguard.SiteIsolation.{ends_with, has_code, uniq_onto}

-- The numbers of `/^(\d{1,3})\.…\.(\d{1,3})\/(\d{1,2})$/`, with their bounds.
abbrev pub network_parts : List Text → Option Text
network_parts (addr ∷ prefix ∷ []) = elim (ip_to_int addr) [
  | none ↦ none
  | some ip ↦
      if is_number 2 prefix && leb (number prefix) 32
      then some (render (masked ip (number prefix)) (number prefix))
      else none
]
network_parts _ = none

unfoldable pub canonicalize_ipv4_network : Text → Option Text
unfolding split trim
canonicalize_ipv4_network value = network_parts (split b'/' (trim value))

abbrev pub min_network_prefix : ℕ
min_network_prefix = 8

-- `/\/(\d{1,2})$/`: what stands behind the last slash.
unfoldable pub behind_slash : List Text → Option Text
behind_slash [] = none
behind_slash (_ ∷ []) = none
behind_slash (_ ∷ s ∷ []) = some s
behind_slash (_ ∷ s ∷ t ∷ ts) = behind_slash (s ∷ t ∷ ts)

abbrev long_prefix : Option Text → Bool
long_prefix none = false
long_prefix (some s) = is_number 2 s && leb min_network_prefix (number s)

unfoldable pub is_acceptable_network_prefix : Text → Bool
unfolding behind_slash split trim is_number
is_acceptable_network_prefix cidr = long_prefix (behind_slash (split b'/' (trim cidr)))

abbrev pub no_network : Text → Text
no_network raw =
    if has_code b':' raw
    then codes "Netz "
      ++ (raw
          ++ codes
              " wird nicht unterstützt — das Mesh routet nur IPv4-Standortnetze (z. B. 10.0.0.0/24)")
    else codes "Ungültiges Netz " ++ (raw ++ codes " — erwartet IPv4-CIDR wie 10.0.0.0/24")

abbrev pub short_network : Text → Text
short_network raw =
    codes "Netz "
    ++ (raw
        ++ codes
            " ist nicht erlaubt (kürzer als /8, deckt die Default-Route ganz oder teilweise ab) — für Full-Tunnel die Client-Option nutzen")

-- An empty entry is passed over; every other one is a network or an error.
unfoldable pub network_round : Json → List Text → Result (List Text)
unfolding canonicalize_ipv4_network is_acceptable_network_prefix has_code
network_round item out =
    let raw = trim (string_of item) in
    if length raw == 0 then ok out else elim (canonicalize_ipv4_network raw) [
      | none ↦ err (validation (no_network raw))
      | some canon ↦
          if is_acceptable_network_prefix canon
          then ok (out ++ canon ∷ [])
          else err (validation (short_network raw))
    ]

unfoldable pub sanitize_network_array : Json → Result (List Text)
unfolding network_round for_each uniq_onto
sanitize_network_array (arr vs) =
    for_each network_round (items vs) [] >>= λ out. ok (uniq_onto [] out)
sanitize_network_array v = ok []

abbrev pub is_host_route : Text → Bool
is_host_route target = ends_with (codes "/32") target || ends_with (codes "/128") target

unfoldable pub networks_overlap : Text → Text → Bool
unfolding text_eq cidr_contains
networks_overlap a b = text_eq a b || (cidr_contains a b || cidr_contains b a)

-- A link as the checks see it; `name` is empty where it has none.
pub record ClaimLink : Type 0 where
  pub id : Text
  pub name : Text
  pub allowed_ips : List Text

pub record AllowedConflict : Type 0 where
  pub subnet : Text
  pub peer : Text

abbrev pub name_or_id : Text → Text → Text
name_or_id name id = if length name == 0 then id else name

unfoldable pub overlapping : Text → List Text → Option Text
unfolding networks_overlap
overlapping net [] = none
overlapping net (o ∷ os) =
    let rest = overlapping net os in if networks_overlap net o then some o else rest

abbrev pub shown_pair : Text → Text → Text
shown_pair net hit =
    if text_eq hit net then net else net ++ (codes " " ++ ((0x2194 ∷ codes " ") ++ hit))

abbrev pub conflict_of : Text → ClaimLink → Option Text → List AllowedConflict
conflict_of net l none = []
conflict_of net l (some hit) =
    (record { subnet = shown_pair net hit; peer = name_or_id l.name l.id }) ∷ []

abbrev pub conflicts_with : Text → ClaimLink → List AllowedConflict
conflicts_with net l =
    conflict_of net l (overlapping net (filter (λ ip. not (is_host_route ip)) l.allowed_ips))

unfoldable pub check_allowed_ips_conflicts : List Text → List ClaimLink → List AllowedConflict
unfolding flat_map filter ends_with overlapping text_eq
check_allowed_ips_conflicts proposed links =
    flat_map (λ net. if is_host_route net then [] else flat_map (conflicts_with net) links) proposed

-- An entry of the metadata's links, and a network that it claims.
pub record ClaimMeta : Type 0 where
  pub id : Text
  pub name : Text
  pub type : Text
  pub imported_networks : List Text

pub record Claim : Type 0 where
  pub id : Text
  pub name : Text
  pub net : Text

abbrev pub claims_of : ClaimMeta → List Claim
claims_of m =
    if text_eq m.type (codes "client")
    then []
    else map (λ (n : Text). record { id = m.id; name = name_or_id m.name m.id; net = n })
        (filter (λ n. not (is_host_route n)) m.imported_networks)

unfoldable pub claims : List ClaimMeta → List Claim
unfolding flat_map filter ends_with text_eq
claims links = flat_map claims_of links

-- `changed && !changed.has(a.id) && !changed.has(b.id)`; `none` stands for all links.
abbrev pub is_unrelated : Option (List Text) → Claim → Claim → Bool
is_unrelated none a b = false
is_unrelated (some changed) a b = not (includes changed a.id) && not (includes changed b.id)

abbrev pub in_conflict : Option (List Text) → Claim → Claim → Bool
in_conflict changed a b =
    not (text_eq a.id b.id) && not (is_unrelated changed a b) && networks_overlap a.net b.net

abbrev pub conflict_text : Claim → Claim → Text
conflict_text a b =
    if text_eq a.net b.net
    then a.net ++ (codes " claimed by " ++ (a.name ++ (codes ", " ++ b.name)))
    else a.net
      ++ (codes " ("
          ++ (a.name ++ (codes ") overlaps " ++ (b.net ++ (codes " (" ++ (b.name ++ codes ")"))))))

-- Each pair of claims is looked at once.
unfoldable pub claim_conflicts : Option (List Text) → List Claim → List Text
unfolding filter text_eq includes networks_overlap
claim_conflicts changed [] = []
claim_conflicts changed (a ∷ rest) =
    map (conflict_text a) (filter (in_conflict changed a) rest) ++ claim_conflicts changed rest

unfoldable pub find_link_network_conflicts : List ClaimMeta → Option (List Text) → List Text
unfolding claims claim_conflicts
find_link_network_conflicts links changed = claim_conflicts changed (claims links)
