-- ===== src/WireGuard/Plan.antt =====
-- backend/internal/wireguard-plan.js: what a patch changes (`normalizePatch`, `buildDiffEntries`,
-- `classifyChangeScope`), whether it may be applied (`buildApplyContract`), and the audit list.
pub mod Contract
use floppyguard.Base.{
  ℕ, zero, suc, ◌+◌, ◌<◌, Bool, true, false, not, ◌&&◌, ◌||◌, Option, none, some, List, [], ◌∷◌,
  ◌++◌, any, filter, flat_map, length, ltb, ◌==◌, if◌then◌else◌, map,
}
use floppyguard.Base.Text.{Text, codes, text_eq, includes, join}
use floppyguard.Json.{Json, undefined, Fields, is_undefined}
use floppyguard.Result.{Result, ok, err, ◌>>=◌, for_each}
use floppyguard.SiteIsolation.{uniq_onto}
use floppyguard.WireGuard.Metadata.{
  Object, sanitize_interface_metadata_patch, sanitize_link_metadata_patch,
}
use floppyguard.WireGuard.Metadata.Merge.{
  lookup, put, spread, merge_metadata_entry, object_or_empty, StorePatch,
}

-- The sanitized objects of a patch; an object without a field is left out.
pub record CleanPatch : Type 0 where
  pub interfaces : List (Text × Object)
  pub links : List (Text × Object)

abbrev pub keep_fields : Text → Object → List (Text × Object) → List (Text × Object)
keep_fields id [] out = out
keep_fields id (e ∷ es) out = out ++ (id, e ∷ es) ∷ []

unfoldable pub normalize_round :
    (Fields → Result Object) → Text × Fields → List (Text × Object) → Result (List (Text × Object))
normalize_round sanitize e out = sanitize e.1 >>= λ clean. ok (keep_fields e.0 clean out)

unfoldable pub normalize_patch : (Text → Bool) → (Text → Text) → StorePatch → Result CleanPatch
unfolding for_each normalize_round
normalize_patch is_ip quote patch =
    for_each (normalize_round (sanitize_interface_metadata_patch is_ip quote)) patch.interfaces []
    >>= λ interfaces.
        for_each (normalize_round (sanitize_link_metadata_patch is_ip quote)) patch.links []
        >>= λ links. ok (record { interfaces = interfaces; links = links })

abbrev pub object_keys {ℓ} : {A : Type ℓ} → List (Text × A) → List Text
object_keys es = map (λ e. e.0) es

pub record DiffEntry : Type 0 where
  pub id : Text
  pub changed_fields : List Text
  pub before : Object
  pub after : Object

abbrev pub value_at : Text → Object → Json
value_at key o = elim (lookup key o) [ none ↦ undefined | some v ↦ v ]

abbrev pub same_text : Option Text → Option Text → Bool
same_text none none = true
same_text (some a) (some b) = text_eq a b
same_text _ _ = false

-- `stringify` is `JSON.stringify`, which gives no text for undefined.
module _ (stringify : Json → Option Text) where
  unfoldable pub is_equal : Json → Json → Bool
  unfolding text_eq
  is_equal left right = same_text (stringify left) (stringify right)

  unfoldable pub changed_fields_of : Object → Object → List Text
  unfolding uniq_onto filter lookup is_equal
  changed_fields_of before after =
      filter (λ f. not (is_equal (value_at f before) (value_at f after)))
        (uniq_onto [] (object_keys before ++ object_keys after))

  abbrev pub diff_entry : List (Text × Object) → Text × Object → DiffEntry
  diff_entry current e =
      let before = object_or_empty (lookup e.0 current) in
      let after = merge_metadata_entry before e.1 in
      record {
        id = e.0;
        changed_fields = changed_fields_of before after;
        before = before;
        after = after;
      }

  abbrev pub has_change : DiffEntry → Bool
  has_change d = not (length d.changed_fields == 0)

  unfoldable pub build_diff_entries : List (Text × Object) → List (Text × Object) → List DiffEntry
  unfolding changed_fields_of lookup merge_metadata_entry filter
  build_diff_entries current patched = filter has_change (map (diff_entry current) patched)

pub record Diff : Type 0 where
  pub interfaces : List DiffEntry
  pub links : List DiffEntry

-- `Array.from(new Set(values.filter(Boolean)))`
unfoldable pub dedupe : List Text → List Text
unfolding uniq_onto filter
dedupe values = uniq_onto [] (filter (λ v. not (length v == 0)) values)

abbrev pub config_relevant_fields : List Text
config_relevant_fields =
    codes "name"
    ∷ codes "type"
    ∷ codes "importedNetworks"
    ∷ codes "exportedNetworks"
    ∷ codes "returnPathMode"
    ∷ codes "remoteManagementMode"
    ∷ codes "planIntent"
    ∷ codes "planState"
    ∷ codes "role"
    ∷ codes "managementMode"
    ∷ codes "routeTargets"
    ∷ []

pub data Scope : Type 0 where
  unchanged : Scope
  metadata_only : Scope
  with_config_intent : Scope

abbrev pub all_changed : Diff → List Text
all_changed d =
    flat_map (λ (e : DiffEntry). e.changed_fields) d.interfaces
    ++ flat_map (λ (e : DiffEntry). e.changed_fields) d.links

unfoldable pub classify_change_scope : Diff → Scope
unfolding dedupe flat_map any includes
classify_change_scope d =
    let fields = dedupe (all_changed d) in
    if length fields == 0
    then unchanged
    else (if any (includes config_relevant_fields) fields
        then with_config_intent
        else metadata_only)

abbrev pub is_unchanged : Scope → Bool
is_unchanged unchanged = true
is_unchanged _ = false

unfoldable pub changed_count : List DiffEntry → ℕ
changed_count [] = 0
changed_count (d ∷ ds) = length d.changed_fields + changed_count ds

pub record ApplyContract : Type 0 where
  pub can_apply : Bool
  pub blocked_by : List Text
  pub requires_backup : Bool
  pub change_scope : Scope
  pub change_count : ℕ
  pub recommended_steps : List Text

abbrev pub take_texts : ℕ → List Text → List Text
take_texts zero ts = []
take_texts (suc n) [] = []
take_texts (suc n) (t ∷ ts) = t ∷ take_texts n ts

abbrev pub write_layer_step : Scope → List Text
write_layer_step with_config_intent = codes "implement-write-layer-before-apply" ∷ []
write_layer_step _ = []

-- The constant fields applyMode and requiresLiveConfigWrite are left out.
unfoldable pub build_apply_contract : List Text → List Text → Diff → ApplyContract
unfolding classify_change_scope dedupe changed_count
build_apply_contract errors next_actions diff =
    let count = changed_count diff.interfaces + changed_count diff.links in
    let scope = classify_change_scope diff in
    let blocked = dedupe (map (λ e. codes "error:" ++ e) errors) in
    let backup = not (is_unchanged scope) && ltb 0 count in
    record {
      can_apply = length blocked == 0 && ltb 0 count;
      blocked_by = blocked;
      requires_backup = backup;
      change_scope = scope;
      change_count = count;
      recommended_steps = dedupe (
          (if backup then codes "create-backup-before-apply" ∷ [] else [])
          ++ (write_layer_step scope ++ take_texts 5 next_actions));
    }

unfoldable pub summarize_apply_blockers : ApplyContract → Text
unfolding join
summarize_apply_blockers a =
    if length a.blocked_by == 0
    then codes "apply-not-allowed"
    else codes "Apply blocked: " ++ join (codes ", ") a.blocked_by

abbrev pub build_patch_summary : CleanPatch → List Text × List Text
build_patch_summary p = (object_keys p.interfaces, object_keys p.links)

-- `entries.unshift(entry)`, of which the first 25 are written.
abbrev pub first_entries {ℓ} : {A : Type ℓ} → ℕ → List A → List A
first_entries zero es = []
first_entries (suc n) [] = []
first_entries (suc n) (e ∷ es) = e ∷ first_entries n es

unfoldable pub append_apply_audit {ℓ} : {A : Type ℓ} → A → List A → List A
append_apply_audit entry entries = first_entries 25 (entry ∷ entries)
