-- ===== src/SiteIsolation/Site.antt =====
-- `siteNetworks` as a whole.
use floppyguard.Base.{
  ℕ, ◌≡◌, ◌↔◌, true, some, List, [], filter, any, any_find, any_of_In, All, All-of_In, In,
  In-filter, Distinct, inl, inr,
}
use floppyguard.Base.Text.{Text}
use floppyguard.Cidr.{canonical_cidr, cidr_overlaps}
use floppyguard.Cidr.Contains.{covers}
use floppyguard.SiteIsolation.{Link, uniq_onto, outermost, raw_networks, site_networks}
use floppyguard.SiteIsolation.Nets.{
  In-uniq_onto, Distinct-uniq_onto, In-sort_nets, Distinct-sort_nets, Distinct-filter, Sorted,
  Sorted-sort_nets,
}
use floppyguard.SiteIsolation.Raw.{Source, In-raw_networks, raw_networks-canonical}
use floppyguard.SiteIsolation.Outer.{outermost-apart, outermost-covers}

-- What an nft interval set asks for.
pub record IsIntervalSet (ns : List Text) : Type 0 where
  pub canonical : All (λ c. canonical_cidr c ≡ some c) ns
  pub apart : (x y : Text) → In x ns → In y ns → cidr_overlaps x y ≡ true → x ≡ y
  pub distinct : Distinct ns
  pub sorted : Sorted ns

module _ (l : Link) where
  In-entries : (c : Text) → In c (uniq_onto [] (raw_networks l).nets) ↔ In c (raw_networks l).nets
  In-entries c = (
    (λ m. elim ((In-uniq_onto c [] (raw_networks l).nets).0 m) [ inl z ↦ absurd z | inr i ↦ i ]),
    (λ m. (In-uniq_onto c [] (raw_networks l).nets).1 (inr m)),
  )

  entries-canonical : All (λ c. canonical_cidr c ≡ some c) (uniq_onto [] (raw_networks l).nets)
  entries-canonical =
      All-of_In (uniq_onto [] (raw_networks l).nets)
        (λ c m. raw_networks-canonical l c ((In-entries c).0 m))

  In-nets :
      (c : Text)
      → In c (site_networks l).nets
      → In c (
          filter
            (outermost (uniq_onto [] (raw_networks l).nets))
            (uniq_onto [] (raw_networks l).nets))
  unfolding site_networks
  In-nets c m = (In-sort_nets c _).0 m

  -- The networks of a site are canonical, each stands once, no two share an address, and they are
  -- sorted by address and prefix.
  pub site_networks-IsIntervalSet : IsIntervalSet (site_networks l).nets
  unfolding site_networks
  site_networks-IsIntervalSet =
      let entries : List Text = uniq_onto [] (raw_networks l).nets in
      let kept : List Text = filter (outermost entries) entries in
      record {
        canonical = All-of_In (site_networks l).nets (λ c m.
            raw_networks-canonical l c ((In-entries c).0 ((In-filter _ c _).0 (In-nets c m)).0));
        apart =
            λ x y mx my h. outermost-apart _ entries-canonical x y (In-nets x mx) (In-nets y my) h;
        distinct = Distinct-sort_nets kept (
            Distinct-filter (outermost entries) entries
              (Distinct-uniq_onto [] (raw_networks l).nets tt));
        sorted = Sorted-sort_nets kept;
      }

  -- The networks of a site hold exactly the addresses of its imported IPv4 networks, the ones
  -- with prefix 0 left out, and of its tunnel hosts.
  pub site_networks-covers :
      (a : ℕ)
      → (any (λ n. covers n a) (site_networks l).nets ≡ true)
        ↔ ((c : Text) × Source l c × (covers c a ≡ true))
  unfolding site_networks
  site_networks-covers a =
      let same = outermost-covers (uniq_onto [] (raw_networks l).nets) entries-canonical a in
      (
        (λ h.
            let (n, m, q) = any_find (λ n. covers n a) (site_networks l).nets h in
            (
              n,
              (In-raw_networks l n).0 ((In-entries n).0 ((In-filter _ n _).0 (In-nets n m)).0),
              q,
            )),
        (λ h.
            let (c, src, q) = h in
            let m = (In-entries c).1 ((In-raw_networks l c).1 src) in
            let (n, i, k) =
              any_find (λ n. covers n a) _ (same.1 (any_of_In (λ n. covers n a) c _ m q)) in
            any_of_In (λ n. covers n a) n (site_networks l).nets ((In-sort_nets n _).1 i) k),
      )
