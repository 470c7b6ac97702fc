-- ===== src/Service/Binding.antt =====
-- backend/internal/agent-ingress.js: `resolveBoundStatusLink`, `agentSiteLink` and
-- `boundLinkMissingHint`: the site link that an agent's `wg_link_name` refers to.
pub mod Retyped
use floppyguard.Base.{
  ℕ, suc, ◌≡◌, refl, Bool, true, false, not, ◌&&◌, ◌||◌, Option, none, some, List, [], ◌∷◌, ◌++◌,
  all, any, filter, length, length-append, leb, ◌==◌, if◌then◌else◌, Bool-cases, arith,
}
use floppyguard.Base.Text.{Text, codes, text_eq}
use floppyguard.Ingress.{take, strip, pub_key8}
use floppyguard.Catalog.Sources.{canonical_nets}
use floppyguard.Service.{StatusLink, MetaLink}

-- The class `[A-Za-z0-9+/]`, and a text of eight of them.
unfoldable pub is_base64 : ℕ → Bool
is_base64 c =
    (leb b'A' c && leb c b'Z')
    || (leb b'a' c && leb c b'z')
    || (leb b'0' c && leb c b'9')
    || c == b'+'
    || c == b'/'

unfoldable pub is_key8 : Text → Bool
unfolding is_base64 all
is_key8 s = length s == 8 && all is_base64 s

-- What `.` does not match.
abbrev pub is_line_end : ℕ → Bool
is_line_end c = c == 10 || c == 13 || c == 0x2028 || c == 0x2029

-- `/^(.+)-([A-Za-z0-9+/]{8})$/`, whose second group is the text behind the last dash.
unfoldable pub key_behind : Text → Option Text
unfolding is_key8
key_behind [] = none
key_behind (c ∷ s) =
    let rest = key_behind s in
    if c == b'-' && is_key8 s then some s else (if is_line_end c then none else rest)

unfoldable pub bound_key : Text → Option Text
unfolding key_behind
bound_key [] = none
bound_key (c ∷ s) = let rest = key_behind s in if is_line_end c then none else rest

abbrev pub starts_with : Text → Text → Bool
starts_with prefix s = elim (strip prefix s) [ none ↦ false | some _ ↦ true ]

-- `l?.peerPublicKey`, where an empty key counts as none, and the name `${l.type}-${key8}`.
abbrev pub key_of : StatusLink → Text
key_of l = elim l.peer_public_key [ none ↦ [] | some k ↦ k ]

abbrev pub generated_name : StatusLink → Text
generated_name l = l.type ++ (b'-' ∷ pub_key8 (key_of l))

unfoldable pub is_generated_link_name : StatusLink → Bool
unfolding text_eq pub_key8
is_generated_link_name l = not (length (key_of l) == 0) && text_eq l.name (generated_name l)

unfoldable pub named : Text → List StatusLink → Option StatusLink
named name [] = none
named name (l ∷ ls) = let rest = named name ls in if text_eq l.name name then some l else rest

abbrev pub only_one : List StatusLink → Option StatusLink
only_one (l ∷ []) = some l
only_one _ = none

abbrev pub carries_key : Text → StatusLink → Bool
carries_key key l = is_generated_link_name l && starts_with key (key_of l)

unfoldable pub by_key : Option Text → List StatusLink → Option StatusLink
unfolding filter
by_key none links = none
by_key (some key) links = only_one (filter (carries_key key) links)

-- A link name that is null in the database is `none` here.
unfoldable pub resolve_bound_status_link : Option Text → List StatusLink → Option StatusLink
unfolding named by_key bound_key
resolve_bound_status_link none links = none
resolve_bound_status_link (some name) links = elim (named name links) [
  | some l ↦ some l
  | none ↦ by_key (bound_key name) links
]

-- `l.type === "client" && l.typeExplicit !== false`
abbrev pub is_typed_client : StatusLink → Bool
is_typed_client l =
    text_eq l.type (codes "client") && elim l.type_explicit [ none ↦ true | some b ↦ b ]

abbrev pub meta_named : Option Text → Text × MetaLink → Bool
meta_named none e = false
meta_named (some name) e = text_eq (e.1).name name && not (text_eq (e.1).type (codes "client"))

unfoldable pub meta_site : Option Text → List (Text × MetaLink) → Option (Text × List Text)
unfolding text_eq canonical_nets
meta_site name [] = none
meta_site name (e ∷ es) =
    let rest = meta_site name es in
    if meta_named name e then some (e.0, canonical_nets (e.1).imported_networks) else rest

abbrev pub status_site : Option StatusLink → Option (Text × List Text)
status_site none = none
status_site (some l) =
    if is_typed_client l then none else some (l.id, canonical_nets l.imported_networks)

-- The status is `none` where the live status is not available.
unfoldable pub agent_site_link :
    Option Text → Option (List StatusLink) → List (Text × MetaLink) → Option (Text × List Text)
unfolding resolve_bound_status_link meta_site text_eq canonical_nets
agent_site_link name none metas = meta_site name metas
agent_site_link name (some links) metas = status_site (resolve_bound_status_link name links)

pub data Hint : Type 0 where
  not_found : Hint
  typed_client : Text → Text → Hint

abbrev hint_of : Option StatusLink → Hint
hint_of none = not_found
hint_of (some l) = if is_typed_client l then typed_client l.id l.name else not_found

unfoldable pub bound_link_missing_hint : Option Text → Option (List StatusLink) → Hint
unfolding resolve_bound_status_link text_eq
bound_link_missing_hint name none = not_found
bound_link_missing_hint name (some links) = hint_of (resolve_bound_status_link name links)
