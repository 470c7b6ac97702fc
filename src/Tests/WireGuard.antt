-- ===== src/Tests/WireGuard.antt =====
-- Runs of the WireGuard metadata and of the reading of `wg show all dump`.
use floppyguard.Base.{◌≡◌, ◌↔◌, some, List, [], ◌∷◌, ◌++◌, All, flat_map, arith}
use floppyguard.Base.Text.{Text, codes}
use floppyguard.Json.{undefined, str, null, arr, Items, nil, cons, items}
use floppyguard.Result.{ok}
use floppyguard.SiteIsolation.{uniq_onto}
use floppyguard.WireGuard.Networks.{sanitize_network_array, ClaimMeta, find_link_network_conflicts}
use floppyguard.WireGuard.Networks.Accepted.{IsEntry, entry_nets, sanitize_network_array-ok}
use floppyguard.WireGuard.Networks.Conflicts.{IsClaimed, IsClash, find_link_network_conflicts-nil}
use floppyguard.WireGuard.Metadata.{Object}
use floppyguard.WireGuard.Metadata.Merge.{lookup, merge_metadata_entry}
use floppyguard.WireGuard.Metadata.Lookup.{defined, patched, merge_metadata_entry-lookup}
use floppyguard.WireGuard.Dump.{DumpIface, parse_dump}
use floppyguard.WireGuard.Dump.Totals.{IsTotal, parse_dump-IsTotal}

abbrev listed : Items
listed = cons (str (codes "192.168.10.1/24")) (cons null (cons (str (codes "192.168.10.0/24")) nil))

sanitize_network_array-ok_example :
    (sanitize_network_array (arr listed) ≡ ok (codes "192.168.10.0/24" ∷ [])) ↔ (
      All IsEntry (items listed)
      × ((codes "192.168.10.0/24" ∷ []) ≡ uniq_onto [] (flat_map entry_nets (items listed))))
sanitize_network_array-ok_example = sanitize_network_array-ok listed (codes "192.168.10.0/24" ∷ [])

abbrev site : Text → Text → ClaimMeta
site id net = record {
  id = id;
  name = id;
  type = codes "site-to-site";
  imported_networks = net ∷ [];
}

abbrev sites : List ClaimMeta
sites = site (codes "a") (codes "192.168.0.0/16") ∷ site (codes "b") (codes "192.168.20.0/24") ∷ []

find_link_network_conflicts-nil_example :
    (find_link_network_conflicts sites (some (codes "b" ∷ [])) ≡ []) ↔ (
      (m : ClaimMeta) (x : Text)
      → IsClaimed sites m x
      → (o : ClaimMeta) (y : Text) → IsClaimed sites o y
      → ¬ IsClash (some (codes "b" ∷ [])) m x o y)
find_link_network_conflicts-nil_example =
    find_link_network_conflicts-nil sites (some (codes "b" ∷ []))

abbrev stored : Object
stored = (codes "name", str (codes "office")) ∷ (codes "notes", arr nil) ∷ []

abbrev change : Object
change = (codes "notes", undefined) ∷ (codes "type", str (codes "client")) ∷ []

merge_metadata_entry-lookup_example :
    lookup (codes "notes") (merge_metadata_entry stored change)
    ≡ defined (patched (lookup (codes "notes") change) (lookup (codes "notes") stored))
merge_metadata_entry-lookup_example =
    merge_metadata_entry-lookup stored change (ground arith) (ground arith) (codes "notes")

abbrev dump : Text
dump =
    codes "wg0"
    ++ (9 ∷ codes "priv")
    ++ (9 ∷ codes "pub")
    ++ (9 ∷ codes "51820")
    ++ (9 ∷ codes "off")

parse_dump-IsTotal_example : All (λ (e : Text × DumpIface). IsTotal e.1) (parse_dump 1000 dump)
parse_dump-IsTotal_example = parse_dump-IsTotal 1000 dump
