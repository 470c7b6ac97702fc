-- ===== src/Tests/Sites.antt =====
-- Runs of the site isolation.
use floppyguard.Base.{
  ◌≡◌, ◌↔◌, refl, Bool, true, none, some, List, [], ◌∷◌, any, filter, In, inl, inr, flat_map, ℕ,
}
use floppyguard.Base.Text.{
  Text, codes, text_eq, includes, split, trim, is_number, number_from, decimal,
}
use floppyguard.Result.{Result, ok}
use floppyguard.Cidr.{
  ip_to_int, int_to_ip, masked, render, canonical_cidr, block_of, cidr_contains, cidr_overlaps,
}
use floppyguard.Cidr.Contains.{block, covers}
use floppyguard.Ingress.{echo_value, take}
use floppyguard.SiteIsolation.{
  Link, Pair, is_site_link, by_id, prefix_of, ip_int, has_code, ends_with, imported_round,
  tunnel_round, before, insert_net, sort_nets, uniq_onto, outermost, raw_networks, site_networks,
}
use floppyguard.SiteIsolation.Site.{
  IsIntervalSet, site_networks-IsIntervalSet, site_networks-covers,
}
use floppyguard.SiteIsolation.Raw.{Source}
use floppyguard.SiteIsolation.Plan.{
  site_at, site_for, join_sites, plan_links, plan_round, plan_rounds, plan_site_isolation,
}
use floppyguard.SiteIsolation.Plan.Effective.{
  usable, enforceable, Placed, plan_site_isolation-pairs, plan_site_isolation-sites,
}
use floppyguard.SiteIsolation.Verdict.{
  Ref, Verdict, blocked, in_set, touches, verdict_from, site_isolation_verdict,
}
use floppyguard.SiteIsolation.Verdict.Blocked.{Separates, site_isolation_verdict-blocked_iff}

run : Unit {0}
unfolding canonical_cidr split trim ip_to_int is_number number_from int_to_ip decimal masked render
    block_of cidr_contains cidr_overlaps text_eq includes echo_value take is_site_link by_id
    prefix_of ip_int has_code ends_with imported_round tunnel_round before insert_net sort_nets
    uniq_onto outermost raw_networks site_networks site_at site_for join_sites plan_links plan_round
    plan_rounds plan_site_isolation in_set touches verdict_from site_isolation_verdict any filter
    flat_map covers block usable enforceable
run = tt

abbrev home : Link
home = record {
  id = codes "wg0:home";
  name = codes "Home";
  type = codes "site-to-site";
  imported_networks =
      codes "192.168.7.0/24" ∷ codes "192.168.0.0/16" ∷ codes "fd00::/8" ∷ codes "0.0.0.0/0" ∷ [];
  tunnel_addresses = codes "10.8.0.2" ∷ [];
}

abbrev office : Link
office = record {
  id = codes "wg0:office";
  name = codes "Office";
  type = codes "hub-link";
  imported_networks = codes "10.20.0.0/16" ∷ [];
  tunnel_addresses = codes "10.8.0.3/32" ∷ [];
}

abbrev both : List Link
both = home ∷ office ∷ []

abbrev home_office : Pair
home_office = record { a = codes "wg0:home"; b = codes "wg0:office" }

abbrev gone : Pair
gone = record { a = codes "wg0:home"; b = codes "wg0:gone" }

abbrev asked : List Pair
asked = gone ∷ home_office ∷ []

abbrev digest : Text → Text
digest t = t

home_nets : (site_networks home).nets ≡ codes "10.8.0.2/32" ∷ codes "192.168.0.0/16" ∷ []
unfolding run
home_nets = refl

site_networks-IsIntervalSet_example : IsIntervalSet (site_networks home).nets
site_networks-IsIntervalSet_example = site_networks-IsIntervalSet home

site_networks-covers_example :
    (any (λ n. covers n 168427522) (site_networks home).nets ≡ true)
    ↔ ((c : Text) × Source home c × (covers c 168427522 ≡ true))
site_networks-covers_example = site_networks-covers home 168427522

kept : (plan_site_isolation digest both asked).pairs ≡ home_office ∷ []
unfolding run
kept = refl

plan_site_isolation-pairs_example :
    (plan_site_isolation digest both asked).pairs ≡ filter (enforceable both) asked
plan_site_isolation-pairs_example = plan_site_isolation-pairs digest both asked

home_office_kept : In home_office (plan_site_isolation digest both asked).pairs
home_office_kept = rw kept (inl refl)

plan_site_isolation-sites_example :
    Placed digest both (plan_site_isolation digest both asked).sites (codes "wg0:home")
    × Placed digest both (plan_site_isolation digest both asked).sites (codes "wg0:office")
plan_site_isolation-sites_example =
    plan_site_isolation-sites digest both asked home_office home_office_kept

src_canonical : canonical_cidr (codes "192.168.7.9") ≡ some (codes "192.168.7.9/32")
unfolding run
src_canonical = refl

dst_canonical : canonical_cidr (codes "10.20.1.1") ≡ some (codes "10.20.1.1/32")
unfolding run
dst_canonical = refl

site_isolation_verdict-blocked_iff_example :
    ((r : Ref) × (site_isolation_verdict digest both asked (codes "192.168.7.9") (codes "10.20.1.1")
        ≡ ok (blocked r)))
    ↔ ((p : Pair) × In p asked × Separates both p (codes "192.168.7.9/32") (codes "10.20.1.1/32"))
site_isolation_verdict-blocked_iff_example =
    site_isolation_verdict-blocked_iff digest both asked (codes "192.168.7.9") (codes "10.20.1.1")
      (codes "192.168.7.9/32") (codes "10.20.1.1/32") src_canonical dst_canonical

is_blocked : Result Verdict → Bool
is_blocked (ok (blocked _)) = true
is_blocked _ = floppyguard.Base.false

answer_blocked :
    is_blocked (site_isolation_verdict digest both asked (codes "10.20.1.1") (codes "192.168.7.9"))
    ≡ true
unfolding run is_blocked
answer_blocked = refl
