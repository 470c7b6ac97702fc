-- ===== src/WireGuard/Restore.antt =====
-- backend/internal/wireguard-plan.js: `diffLinkRenames` and `statusLinkNames`, the renames that a
-- written metadata store asks for, and `mergeBackupIntoLive`, which restores a backup.
use floppyguard.Base.{
  Bool, true, false, not, ◌||◌, Option, none, some, List, [], ◌∷◌, ◌++◌, length, filter, map, ◌==◌,
  if◌then◌else◌,
}
use floppyguard.Base.Text.{Text, codes, text_eq, includes}
use floppyguard.Json.{Json, undefined, str, truthy}
use floppyguard.WireGuard.Renames.{Rename}
use floppyguard.WireGuard.Metadata.{Object}
use floppyguard.WireGuard.Metadata.Merge.{Store, lookup, put}

-- A name in the metadata is a text, as the sanitizer writes it; an empty one counts as none.
abbrev pub text_name : Option Json → Option Text
text_name (some (str [])) = none
text_name (some (str (c ∷ s))) = some (c ∷ s)
text_name _ = none

abbrev pub name_in : Option Object → Option Text
name_in none = none
name_in (some o) = text_name (lookup (codes "name") o)

abbrev pub or_fallback : Option Text → Option Text → Option Text
or_fallback none fallback = fallback
or_fallback (some t) fallback = some t

-- The names of the live status by link id; none of them is empty.
abbrev pub Names : Type 0
Names = List (Text × Text)

abbrev pub rename_between : Option Text → Option Text → List Rename
rename_between (some old) (some new) =
    if text_eq old new then [] else (record { old_name = old; new_name = new }) ∷ []
rename_between _ _ = []

unfoldable pub link_renames :
    List (Text × Object) → List (Text × Object) → Names → Names → List Rename
unfolding lookup text_eq
link_renames before [] fallback after_names = []
link_renames before (e ∷ es) fallback after_names =
    rename_between (or_fallback (name_in (lookup e.0 before)) (lookup e.0 fallback))
      (or_fallback (name_in (some e.1)) (lookup e.0 after_names))
    ++ link_renames before es fallback after_names

unfoldable pub diff_link_renames : Store → Store → Names → Names → List Rename
unfolding link_renames
diff_link_renames before after fallback after_names =
    link_renames before.links after.links fallback after_names

-- `{ [l.id]: l.name }` of the links that have both.
unfoldable pub status_link_names : List (Text × Text) → Names → Names
unfolding put
status_link_names [] out = out
status_link_names (l ∷ ls) out =
    status_link_names ls (if length l.0 == 0 || length l.1 == 0 then out else put l.0 l.1 out)

abbrev pub restore_keep_if_missing : List Text
restore_keep_if_missing = codes "name" ∷ codes "type" ∷ codes "importedNetworks" ∷ []

abbrev pub is_truthy : Option Json → Bool
is_truthy none = false
is_truthy (some v) = truthy v

abbrev pub is_own : Option Json → Bool
is_own none = false
is_own (some _) = true

abbrev pub is_missing : Text → Object → Bool
is_missing key merged =
    if text_eq key (codes "name")
    then not (is_truthy (lookup key merged))
    else not (is_own (lookup key merged))

-- A value that is neither undefined nor the empty text.
abbrev pub kept_value : Option Json → Option Json
kept_value none = none
kept_value (some undefined) = none
kept_value (some (str [])) = none
kept_value (some v) = some v

abbrev pub keep_field : Text → Option Json → Object → Object
keep_field key none merged = merged
keep_field key (some v) merged = if is_missing key merged then put key v merged else merged

unfoldable pub keep_fields_of : Object → List Text → Object → Object
unfolding lookup put text_eq truthy
keep_fields_of current [] merged = merged
keep_fields_of current (k ∷ ks) merged =
    keep_fields_of current ks (keep_field k (kept_value (lookup k current)) merged)

unfoldable pub merge_restored_link : Option Object → Object → Object
unfolding keep_fields_of
merge_restored_link none backup = backup
merge_restored_link (some current) backup = keep_fields_of current restore_keep_if_missing backup

pub record Restored : Type 0 where
  pub store : Store
  pub restored_links : List Text
  pub kept_links : List Text
  pub skipped_links : List Text
  pub skipped_interfaces : List Text

-- What the loop over the live links has so far.
pub record RestoreState : Type 0 where
  pub links : List (Text × Object)
  pub restored : List Text
  pub kept : List Text

abbrev pub restore_link : Text → Option Object → RestoreState → RestoreState
restore_link id none s = record s { kept = s.kept ++ id ∷ [] }
restore_link id (some entry) s = record s {
  links = put id (merge_restored_link (lookup id s.links) entry) s.links;
  restored = s.restored ++ id ∷ [];
}

unfoldable pub restore_links : List (Text × Object) → List Text → RestoreState → RestoreState
unfolding lookup put merge_restored_link
restore_links backup [] s = s
restore_links backup (id ∷ ids) s = restore_links backup ids (restore_link id (lookup id backup) s)

unfoldable pub restore_interfaces :
    List Text → List (Text × Object) → List (Text × Object) → List (Text × Object)
unfolding put includes
restore_interfaces live [] interfaces = interfaces
restore_interfaces live (e ∷ es) interfaces =
    restore_interfaces live es (if includes live e.0 then put e.0 e.1 interfaces else interfaces)

abbrev pub not_live : List Text → List (Text × Object) → List Text
not_live live es = filter (λ id. not (includes live id)) (map (λ (e : Text × Object). e.0) es)

-- The live ids are those of a set, each once.
unfoldable pub merge_backup_into_live : Store → Store → List Text → List Text → Restored
unfolding restore_links restore_interfaces filter includes
merge_backup_into_live current backup live_links live_interfaces =
    let s =
      restore_links backup.links live_links
        (record { links = current.links; restored = []; kept = [] }) in
    record {
      store = record {
        interfaces = restore_interfaces live_interfaces backup.interfaces current.interfaces;
        links = s.links;
      };
      restored_links = s.restored;
      kept_links = s.kept;
      skipped_links = not_live live_links backup.links;
      skipped_interfaces = not_live live_interfaces backup.interfaces;
    }
