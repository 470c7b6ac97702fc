-- ===== src/WireGuard/Metadata/Merge.antt =====
-- backend/internal/wireguard.js: `mergeMetadataEntry` and `mergeMetadataStorePatch`, which write a
-- patch into the stored metadata.
use floppyguard.Base.{Bool, not, Option, none, some, List, [], ◌∷◌, filter, if◌then◌else◌}
use floppyguard.Base.Text.{Text, text_eq}
use floppyguard.Json.{Json, Fields, is_undefined}
use floppyguard.Result.{Result, ok, ◌>>=◌, for_each}
use floppyguard.WireGuard.Metadata.{
  Object, sanitize_interface_metadata_patch, sanitize_link_metadata_patch,
}

-- `o[key]`, and `o[key] = v`, which keeps the place of a key that is there.
unfoldable pub lookup {ℓ} : {A : Type ℓ} → Text → List (Text × A) → Option A
unfolding text_eq
lookup key [] = none
lookup key (e ∷ es) = let rest = lookup key es in if text_eq e.0 key then some e.1 else rest

unfoldable pub put {ℓ} : {A : Type ℓ} → Text → A → List (Text × A) → List (Text × A)
unfolding text_eq
put key v [] = (key, v) ∷ []
put key v (e ∷ es) = let rest = put key v es in if text_eq e.0 key then (e.0, v) ∷ es else e ∷ rest

-- `{ ...current, ...patch }`
unfoldable pub spread : Object → Object → Object
unfolding put
spread current [] = current
spread current (e ∷ es) = spread (put e.0 e.1 current) es

abbrev pub is_set : Text × Json → Bool
is_set e = not (is_undefined e.1)

unfoldable pub merge_metadata_entry : Object → Object → Object
unfolding spread filter is_undefined
merge_metadata_entry current patch = filter is_set (spread current patch)

-- The metadata file: an object for each interface and for each link.
pub record Store : Type 0 where
  pub interfaces : List (Text × Object)
  pub links : List (Text × Object)

abbrev pub object_or_empty : Option Object → Object
object_or_empty none = []
object_or_empty (some o) = o

abbrev pub merge_at : Text → Object → List (Text × Object) → List (Text × Object)
merge_at key patch entries =
    put key (merge_metadata_entry (object_or_empty (lookup key entries)) patch) entries

-- A patch gives an object of fields for each name that it changes.
pub record StorePatch : Type 0 where
  pub interfaces : List (Text × Fields)
  pub links : List (Text × Fields)

unfoldable pub merge_round :
    (Fields → Result Object) → Text × Fields → List (Text × Object) → Result (List (Text × Object))
unfolding put lookup merge_metadata_entry
merge_round sanitize e entries = sanitize e.1 >>= λ clean. ok (merge_at e.0 clean entries)

unfoldable pub merge_metadata_store_patch :
    (Text → Bool) → (Text → Text) → Store → StorePatch → Result Store
unfolding for_each merge_round
merge_metadata_store_patch is_ip quote store patch =
    for_each (merge_round (sanitize_interface_metadata_patch is_ip quote)) patch.interfaces
      store.interfaces
    >>= λ interfaces.
        for_each (merge_round (sanitize_link_metadata_patch is_ip quote)) patch.links store.links
        >>= λ links. ok (record { interfaces = interfaces; links = links })
