-- ===== src/Tests/Addresses.antt =====
-- Runs of the CIDR functions.
use floppyguard.Base.{ℕ, ◌≡◌, ◌↔◌, refl, true, false, none, some}
use floppyguard.Base.Text.{Text, codes, split, trim, is_number, number_from, decimal}
use floppyguard.Cidr.{
  ip_to_int, int_to_ip, masked, render, canonical_cidr, block_of, cidr_contains, cidr_overlaps,
}
use floppyguard.Cidr.Contains.{block, covers, cidr_contains_iff, cidr_overlaps_iff}

run : Unit {0}
unfolding canonical_cidr split trim ip_to_int is_number number_from int_to_ip decimal masked render
    block_of cidr_contains cidr_overlaps block covers
run = tt

abbrev typed : Text
typed = codes " 192.168.1.7/24 "

canonical_tests :
    (canonical_cidr typed ≡ some (codes "192.168.1.0/24"))
    × (canonical_cidr (codes "10.0.0.1") ≡ some (codes "10.0.0.1/32"))
    × (canonical_cidr (codes "10.0.0.256/8") ≡ none)
    × (canonical_cidr (codes "10.0.0.1/33") ≡ none)
    × (canonical_cidr (codes "1.2.3.4/5/6") ≡ none)
unfolding run
canonical_tests = (refl, refl, refl, refl, refl)

contains_tests :
    (cidr_contains (codes "10.0.0.0/8") (codes "10.3.0.0/16") ≡ true)
    × (cidr_contains (codes "10.3.0.0/16") (codes "10.0.0.0/8") ≡ false)
    × (cidr_overlaps (codes "10.3.0.0/16") (codes "10.0.0.0/8") ≡ true)
unfolding run
contains_tests = (refl, refl, refl)

cidr_contains_iff_example :
    (cidr_contains (codes "10.0.0.0/8") (codes "10.3.0.0/16") ≡ true)
    ↔ ((a : ℕ) → covers (codes "10.3.0.0/16") a ≡ true → covers (codes "10.0.0.0/8") a ≡ true)
unfolding run
cidr_contains_iff_example = cidr_contains_iff (codes "10.0.0.0/8") (codes "10.3.0.0/16") (λ e. cc)

cidr_overlaps_iff_example :
    (cidr_overlaps (codes "10.3.0.0/16") (codes "10.0.0.0/8") ≡ true)
    ↔ ((a : ℕ) × (covers (codes "10.3.0.0/16") a ≡ true) × (covers (codes "10.0.0.0/8") a ≡ true))
cidr_overlaps_iff_example = cidr_overlaps_iff (codes "10.3.0.0/16") (codes "10.0.0.0/8")
