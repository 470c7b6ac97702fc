-- ===== src/Tests/Scripts.antt =====
-- Runs of the nftables script and of the foreign drop rules.
use floppyguard.Base.{
  ◌≤◌, ◌≡◌, ◌↔◌, refl, false, none, some, List, [], ◌∷◌, ◌++◌, In, any, flat_map, length, arith,
}
use floppyguard.Base.Text.{Text, codes, text_eq, split, trim, join, is_number, number_from, decimal}
use floppyguard.Result.{ok}
use floppyguard.Cidr.{
  ip_to_int, int_to_ip, masked, render, canonical_cidr, block_of, cidr_contains, cidr_overlaps,
}
use floppyguard.Ingress.{take}
use floppyguard.SiteIsolation.{Link, Pair}
use floppyguard.SiteIsolation.Plan.{plan_site_isolation}
use floppyguard.SiteIsolation.Script.{
  translit_all, blank_others, collapse, sanitize_comment_text, is_comment_code, sort_sites,
  script_head, set_lines, chain_head, build_site_isolation_nft,
}
use floppyguard.SiteIsolation.Script.Comment.{Safe, sanitize_comment_text-Safe}
use floppyguard.SiteIsolation.Script.Total.{pair_rules, build_site_isolation_nft-eq}
use floppyguard.SiteIsolation.Foreign.{
  Drop, DropRef, drop_ref, drops_all, any_overlap, manual_from, manual_drop_verdict,
}
use floppyguard.SiteIsolation.Foreign.Blocked.{DropsAll, manual_drop_verdict-DropsAll}

run : Unit {0}
unfolding canonical_cidr split trim ip_to_int is_number number_from int_to_ip decimal masked render
    block_of cidr_contains cidr_overlaps text_eq take translit_all blank_others collapse
    sanitize_comment_text is_comment_code any any_overlap manual_from manual_drop_verdict
run = tt

abbrev same : Text → Text
same t = t

-- "Büro "A"" and its end of line.
abbrev office_name : Text
office_name = codes "B" ++ (0xfc ∷ codes "ro \"A\"\n")

comment_text : sanitize_comment_text same 48 office_name ≡ codes "Buero A"
unfolding run
comment_text = refl

sanitize_comment_text-Safe_example :
    Safe (sanitize_comment_text same 48 office_name)
    × (length (sanitize_comment_text same 48 office_name) ≤ 48)
    × (1 ≤ length (sanitize_comment_text same 48 office_name))
sanitize_comment_text-Safe_example = sanitize_comment_text-Safe same 48 office_name (omega arith)

abbrev north : Link
north = record {
  id = codes "wg0:north";
  name = codes "North";
  type = codes "site-to-site";
  imported_networks = codes "192.168.7.0/24" ∷ [];
  tunnel_addresses = [];
}

abbrev south : Link
south = record {
  id = codes "wg0:south";
  name = codes "South";
  type = codes "site-to-site";
  imported_networks = codes "10.20.0.0/16" ∷ [];
  tunnel_addresses = [];
}

abbrev links : List Link
links = north ∷ south ∷ []

abbrev pairs : List Pair
pairs = (record { a = codes "wg0:north"; b = codes "wg0:south" }) ∷ []

build_site_isolation_nft-eq_example :
    build_site_isolation_nft same same links pairs
    ≡ ok (
        join (codes "\n") (
          script_head
          ++ flat_map (set_lines same) (sort_sites (plan_site_isolation same links pairs).sites)
          ++ chain_head
          ++ flat_map (pair_rules same same links) (plan_site_isolation same links pairs).pairs
          ++ codes "\t}" ∷ codes "}" ∷ [] ∷ []))
build_site_isolation_nft-eq_example = build_site_isolation_nft-eq same same links pairs

abbrev by_hand : Drop
by_hand = record {
  family = codes "inet";
  table = codes "filter";
  chain = codes "forward";
  comment = none;
  src = some (codes "192.168.7.0/24" ∷ []);
  dst = some (codes "10.20.0.0/16" ∷ []);
  extra = false;
}

hand_blocked :
    manual_drop_verdict (by_hand ∷ []) (codes "192.168.7.9") (codes "10.20.1.1")
    ≡ drops_all (drop_ref by_hand)
unfolding run
hand_blocked = refl

hand_src : canonical_cidr (codes "192.168.7.9") ≡ some (codes "192.168.7.9/32")
unfolding run
hand_src = refl

hand_dst : canonical_cidr (codes "10.20.1.1") ≡ some (codes "10.20.1.1/32")
unfolding run
hand_dst = refl

manual_drop_verdict-DropsAll_example :
    ((x : DropRef) × (manual_drop_verdict (by_hand ∷ []) (codes "192.168.7.9") (codes "10.20.1.1")
        ≡ drops_all x))
    ↔ ((r : Drop) × In r (by_hand ∷ [])
        × DropsAll r (codes "192.168.7.9/32") (codes "10.20.1.1/32"))
manual_drop_verdict-DropsAll_example =
    manual_drop_verdict-DropsAll (by_hand ∷ []) (codes "192.168.7.9") (codes "10.20.1.1")
      (codes "192.168.7.9/32") (codes "10.20.1.1/32") hand_src hand_dst
