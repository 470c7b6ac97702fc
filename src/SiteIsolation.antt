-- ===== src/SiteIsolation.antt =====
-- backend/internal/site-isolation-rules.js: which site pairs must not reach each other
-- ("Standorte untereinander"). This file has the links, their networks and the pair list.
pub mod Nets
pub mod Raw
pub mod Outer
pub mod Site
pub mod Pairs
pub mod Plan
pub mod Verdict
pub mod Script
pub mod Foreign
use floppyguard.Base.{
  ℕ, ◌+◌, ◌*◌, Bool, true, false, not, ◌&&◌, ◌||◌, Option, none, some, List, [], ◌∷◌, ◌++◌, map,
  filter, any, ltb, leb, ◌==◌, length, all, if◌then◌else◌,
}
use floppyguard.Base.Text.{Text, codes, text_eq, includes, split, number, trim, decimal}
use floppyguard.Cidr.{canonical_cidr, cidr_contains}
use floppyguard.Ingress.{echo_value, take}
use floppyguard.Json.{Json, str, arr, items, get}
use floppyguard.Result.{Result, ok, err, validation, ◌>>=◌, ◌>>◌, throw_if, for_each}

-- A WireGuard link of the hub.
pub record Link : Type 0 where
  pub id : Text
  pub name : Text
  pub type : Text
  pub imported_networks : List Text
  pub tunnel_addresses : List Text

abbrev pub site_link_types : List Text
site_link_types = codes "site-to-site" ∷ codes "hub-link" ∷ []

abbrev pub max_pairs : ℕ
max_pairs = 200

unfoldable pub is_site_link : Link → Bool
unfolding includes
is_site_link l = includes site_link_types l.type

-- `new Map(links.map((l) => [l.id, l])).get(id)`: the last link of an id counts.
unfoldable pub by_id : List Link → Text → Option Link
by_id [] id = none
by_id (l ∷ ls) id =
    let later = by_id ls id in
    elim later [ none ↦ if text_eq l.id id then some l else none | some k ↦ some k ]

-- `s < t` on texts compares code units.
unfoldable pub text_lt : Text → Text → Bool
text_lt [] [] = false
text_lt [] (_ ∷ _) = true
text_lt (_ ∷ _) [] = false
text_lt (a ∷ s) (b ∷ t) = let rest = text_lt s t in if a == b then rest else ltb a b

pub record Pair : Type 0 where
  pub a : Text
  pub b : Text

unfoldable pub normalize_pair : Text → Text → Pair
unfolding text_lt
normalize_pair a b = if text_lt a b then record { a = a; b = b } else record { a = b; b = a }

pub data Reason : Type 0 where
  ipv6_unsupported invalid default_route : Reason

pub record Skipped : Type 0 where
  pub value : Text
  pub reason : Reason

pub record Networks : Type 0 where
  pub nets : List Text
  pub skipped : List Skipped

-- `raw` and `skipped` while the two loops of `siteNetworks` run.
abbrev pub skip : Text → Reason → Networks → Networks
skip value reason n = record n {
  skipped = n.skipped ++ (record { value = value; reason = reason }) ∷ [];
}

abbrev keep : Text → Networks → Networks
keep c n = record n { nets = n.nets ++ c ∷ [] }

-- `Number(cidr.split("/")[1])`, and the address of a canonical text as a number.
abbrev second_number : List Text → ℕ
second_number (_ ∷ p ∷ _) = number p
second_number _ = 0

unfoldable pub prefix_of : Text → ℕ
prefix_of cidr = second_number (split b'/' cidr)

unfoldable pub octet_value : ℕ → List Text → ℕ
octet_value acc [] = acc
octet_value acc (o ∷ os) = octet_value (acc * 256 + number o) os

abbrev pub first_text : List Text → Text
first_text [] = []
first_text (t ∷ _) = t

unfoldable pub ip_int : Text → ℕ
unfolding octet_value
ip_int cidr = octet_value 0 (split b'.' (first_text (split b'/' cidr)))

unfoldable pub has_code : ℕ → Text → Bool
has_code c [] = false
has_code c (x ∷ s) = x == c || has_code c s

unfoldable pub imported_round : Text → Networks → Networks
unfolding has_code
imported_round v n =
    if has_code b':' v then skip (echo_value v) ipv6_unsupported n else elim (canonical_cidr v) [
      | none ↦ skip (echo_value v) invalid n
      | some c ↦ if prefix_of c == 0 then skip c default_route n else keep c n
    ]

-- `s.endsWith(end)`.
unfoldable pub ends_with : Text → Text → Bool
ends_with end [] = text_eq end []
ends_with end (c ∷ s) = text_eq end (c ∷ s) || ends_with end s

abbrev pub host_text : Text → Text
host_text s = if has_code b'/' s then s else s ++ codes "/32"

unfoldable pub tunnel_round : Text → Networks → Networks
unfolding has_code ends_with
tunnel_round s n =
    let rejected = if length s == 0 then n else skip (echo_value s) invalid n in
    elim (canonical_cidr (host_text s)) [
      | none ↦ rejected
      | some c ↦ if ends_with (codes "/32") c then keep c n else rejected
    ]

each_text : (Text → Networks → Networks) → List Text → Networks → Networks
each_text round [] n = n
each_text round (v ∷ vs) n = each_text round vs (round v n)

-- `[...new Set(raw)]`: the first of equal entries stays. `out` holds what the set has so far.
unfoldable pub add_unique : List Text → Text → List Text
add_unique out t = if includes out t then out else out ++ t ∷ []

unfoldable pub uniq_onto : List Text → List Text → List Text
unfolding add_unique
uniq_onto out [] = out
uniq_onto out (t ∷ ts) = uniq_onto (add_unique out t) ts

-- An entry stays unless another one contains it.
unfoldable pub outermost : List Text → Text → Bool
outermost all_nets n = not (any (λ o. not (text_eq o n) && cidr_contains o n) all_nets)

-- `sort((x, y) => ipInt(x) - ipInt(y) || prefixOf(x) - prefixOf(y))`.
unfoldable pub before : Text → Text → Bool
before x y = ltb (ip_int x) (ip_int y) || (ip_int x == ip_int y && leb (prefix_of x) (prefix_of y))

unfoldable pub insert_net : Text → List Text → List Text
unfolding before
insert_net n [] = n ∷ []
insert_net n (m ∷ ms) = let rest = insert_net n ms in if before n m then n ∷ m ∷ ms else m ∷ rest

unfoldable pub sort_nets : List Text → List Text
unfolding insert_net
sort_nets [] = []
sort_nets (n ∷ ns) = insert_net n (sort_nets ns)

unfoldable pub raw_networks : Link → Networks
unfolding imported_round tunnel_round each_text
raw_networks link =
    each_text tunnel_round link.tunnel_addresses
      (each_text imported_round link.imported_networks (record { nets = []; skipped = [] }))

unfoldable pub site_networks : Link → Networks
unfolding raw_networks uniq_onto outermost sort_nets filter any
site_networks link =
    let raw = raw_networks link in
    let uniq = uniq_onto [] raw.nets in
    record raw { nets = sort_nets (filter (outermost uniq) uniq) }
