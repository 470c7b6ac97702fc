-- ===== src/Tests/Pairs.antt =====
-- Runs of the check of a pair list.
use floppyguard.Base.{◌≡◌, refl, List, [], ◌∷◌, all, any}
use floppyguard.Base.Text.{Text, codes, text_eq, includes, trim, is_digit, is_number, decimal}
use floppyguard.Ingress.{strip}
use floppyguard.Json.{Json, str, arr, obj, nil, cons, end, field, get}
use floppyguard.Result.{ok}
use floppyguard.SiteIsolation.{Link, Pair, is_site_link, by_id, text_lt, normalize_pair}
use floppyguard.SiteIsolation.Pairs.{
  is_key_code, cut_colon, is_link_id, check_end, set_pair, check_pair, check_pairs, pair_before,
  insert_pair, sort_pairs, sanitize_pairs,
}
use floppyguard.SiteIsolation.Pairs.Sorted.{IsPairList, entries_of, sanitize_pairs-IsPairList}

run : Unit {0}
unfolding text_eq includes trim is_digit is_number decimal strip get is_site_link by_id text_lt
    normalize_pair is_key_code cut_colon is_link_id check_end set_pair check_pair check_pairs
    pair_before insert_pair sort_pairs sanitize_pairs all any
run = tt

abbrev link : Text → Link
link id = record {
  id = id;
  name = [];
  type = codes "site-to-site";
  imported_networks = [];
  tunnel_addresses = [];
}

abbrev links : List Link
links = link (codes "wg0:A=") ∷ link (codes "wg0:B=") ∷ []

abbrev entry : Text → Text → Json
entry a b = obj (field (codes "link_a") (str a) (field (codes "link_b") (str b) end))

-- The same pair twice, once reversed.
abbrev request : Json
request = arr (
    cons (entry (codes " wg0:B=") (codes "wg0:A="))
      (cons (entry (codes "wg0:A=") (codes "wg0:B=")) nil))

abbrev stored : List Pair
stored = (record { a = codes "wg0:A="; b = codes "wg0:B=" }) ∷ []

request_passes : sanitize_pairs request links ≡ ok stored
unfolding run
request_passes = refl

sanitize_pairs-IsPairList_example : IsPairList links (entries_of request) stored
sanitize_pairs-IsPairList_example = sanitize_pairs-IsPairList request links stored request_passes
