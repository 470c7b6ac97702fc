-- ===== src/SiteIsolation/Verdict/Blocked.antt =====
-- The verdict is always given, and says "blocked" exactly for the traffic of an isolated pair.
use floppyguard.Base.{
  ◌≡◌, ◌↔◌, ◌⊎◌, refl, sym, ap, ◌∙◌, Bool, true, false, not, ◌&&◌, Option, none, some, List, [],
  ◌∷◌, any, All, All-of_In, In, In-filter, &&_iff, inl, inr, Bool-cases, Option-cases,
  if◌then◌else◌,
}
use floppyguard.Base.Text.{Text}
use floppyguard.Cidr.{canonical_cidr, cidr_contains}
use floppyguard.Result.{ok}
use floppyguard.SiteIsolation.{Link, Pair, by_id, is_site_link, site_networks}
use floppyguard.SiteIsolation.Plan.{Site, site_of, is_empty, plan_site_isolation}
use floppyguard.SiteIsolation.Plan.Effective.{
  usable_link, usable, enforceable, Placed, plan_site_isolation-pairs, plan_site_isolation-sites,
}
use floppyguard.SiteIsolation.Verdict.{
  a_to_b, b_to_a, Ref, Verdict, free, blocked, in_set, touches, ref_of, or_partial, no_block,
  verdict_from, site_isolation_verdict,
}

-- Some network of the link contains the block.
abbrev pub holds : Link → Text → Bool
holds l c = any (λ n. cidr_contains n c) (site_networks l).nets

-- The blocks lie in the networks of the two links of a pair, in one direction or the other.
abbrev pub Between : Link → Link → Text → Text → Type 0
Between la lb s d =
    ((holds la s ≡ true) × (holds lb d ≡ true)) ⊎ ((holds lb s ≡ true) × (holds la d ≡ true))

-- A pair of two site links that separates the blocks.
pub record Separates (links : List Link) (p : Pair) (s d : Text) : Type 0 where
  pub link_a : Link
  pub link_b : Link
  pub found_a : by_id links p.a ≡ some link_a
  pub found_b : by_id links p.b ≡ some link_b
  pub site_a : is_site_link link_a ≡ true
  pub site_b : is_site_link link_b ≡ true
  pub between : Between link_a link_b s d

link_inj : {a b : Link} → some a ≡ some b → a ≡ b
link_inj q = cc

module _ (sha256 : Text → Text) (links : List Link) (sites : List Site) (s d : Text) where
  abbrev Ready : Pair → Type 0
  Ready p = Placed sha256 links sites p.a × Placed sha256 links sites p.b

  verdict_from_total :
      (ps : List Pair) (part : Option Ref)
      → All Ready ps
      → (v : Verdict) × (verdict_from sites s d ps part ≡ ok v)
  unfolding verdict_from
  verdict_from_total [] part h = (no_block part, refl)
  verdict_from_total (p ∷ ps) part h =
      let ((la, _, xa), (lb, _, xb)) = h.0 in
      let x = site_of sha256 p.a la in
      let y = site_of sha256 p.b lb in
      let first = or_partial part (touches x s && touches y d) (ref_of p x y a_to_b) in
      let second = or_partial first (touches y s && touches x d) (ref_of p x y b_to_a) in
      let (v, e) = verdict_from_total ps second h.1 in
      (
        (if in_set x s && in_set y d
            then blocked (ref_of p x y a_to_b)
            else (if in_set y s && in_set x d then blocked (ref_of p x y b_to_a) else v)),
        rw (verdict_from, xa, xb, e)
            (push (in_set x s && in_set y d) (in_set y s && in_set x d)
              (blocked (ref_of p x y a_to_b)) (blocked (ref_of p x y b_to_a)) v),
      )
    where
      push :
          (b c : Bool) (u w v : Verdict)
          → (if b then ok u else (if c then ok w else ok v))
            ≡ ok (if b then u else (if c then w else v))
      push true c u w v = refl
      push false true u w v = refl
      push false false u w v = refl

  abbrev Blocks : Pair → Type 0
  Blocks p =
      (la : Link) × (lb : Link) × (by_id links p.a ≡ some la)
      × (by_id links p.b ≡ some lb)
      × Between la lb s d

  blocked_from :
      (ps : List Pair) (part : Option Ref)
      → All Ready ps
      → ((r : Ref) × (verdict_from sites s d ps part ≡ ok (blocked r)))
        ↔ ((p : Pair) × In p ps × Blocks p)
  unfolding verdict_from in_set
  blocked_from [] none h = ((λ b. absurd (cc (b.1))), (λ b. absurd b.1))
  blocked_from [] (some q) h = ((λ b. absurd (cc (b.1))), (λ b. absurd b.1))
  blocked_from (p ∷ ps) part h =
      let ((la, ea, xa), (lb, eb, xb)) = h.0 in
      let x = site_of sha256 p.a la in
      let y = site_of sha256 p.b lb in
      let first = or_partial part (touches x s && touches y d) (ref_of p x y a_to_b) in
      let second = or_partial first (touches y s && touches x d) (ref_of p x y b_to_a) in
      let rest = blocked_from ps second h.1 in
      elim (Bool-cases (holds la s && holds lb d)) [
        | inl e ↦
            rw (verdict_from, xa, xb, e)
              (
                (λ b.
                    (p, inl refl, (la, lb, ea, eb, inl ((&&_iff (holds la s) (holds lb d)).0 e)))),
                (λ b. (ref_of p x y a_to_b, refl)),
              )
        | inr e ↦ elim (Bool-cases (holds lb s && holds la d)) [
          | inl f ↦
              rw (verdict_from, xa, xb, e, f)
                (
                  (λ b. (
                    p,
                    inl refl,
                    (la, lb, ea, eb, inr ((&&_iff (holds lb s) (holds la d)).0 f)),
                  )),
                  (λ b. (ref_of p x y b_to_a, refl)),
                )
          | inr f ↦
              rw (verdict_from, xa, xb, e, f)
                (
                  (λ b. let (q, m, k) = rest.0 b in (q, inr m, k)),
                  (λ b. rest.1 (later p ps la lb ea eb e f b)),
                )
        ]
      ]
    where
      later :
          (p : Pair) (ps : List Pair) (la lb : Link)
          → by_id links p.a ≡ some la
          → by_id links p.b ≡ some lb
          → (holds la s && holds lb d) ≡ false
          → (holds lb s && holds la d) ≡ false
          → (q : Pair) × In q (p ∷ ps) × Blocks q
          → (q : Pair) × In q ps × Blocks q
      later p ps la lb ea eb e f (q, inr m, k) = (q, m, k)
      later p ps la lb ea eb e f (q, inl m, (ka, kb, ga, gb, w)) =
          let sa : ka ≡ la = link_inj (sym ga ∙ ap (λ (r : Pair). by_id links r.a) m ∙ ea) in
          let sb : kb ≡ lb = link_inj (sym gb ∙ ap (λ (r : Pair). by_id links r.b) m ∙ eb) in
          elim w [
            | inl t ↦ absurd (cc (sa, sb, (&&_iff (holds ka s) (holds kb d)).1 t))
            | inr t ↦ absurd (cc (sa, sb, (&&_iff (holds kb s) (holds ka d)).1 t))
          ]

full_of_holds : (l : Link) (c : Text) → holds l c ≡ true → is_empty (site_networks l).nets ≡ false
unfolding any
full_of_holds l c h = go (site_networks l).nets h
  where
    go : (ns : List Text) → any (λ n. cidr_contains n c) ns ≡ true → is_empty ns ≡ false
    go [] h = absurd (cc)
    go (n ∷ ns) h = refl

module _ (sha256 : Text → Text) (links : List Link) (pairs : List Pair) where
  ready :
      All
        (λ p.
          Placed sha256 links (plan_site_isolation sha256 links pairs).sites p.a
          × Placed sha256 links (plan_site_isolation sha256 links pairs).sites p.b)
        (plan_site_isolation sha256 links pairs).pairs
  ready =
      All-of_In (plan_site_isolation sha256 links pairs).pairs
        (λ p m. plan_site_isolation-sites sha256 links pairs p m)

  -- The verdict is always given: no lookup of a site fails.
  site_isolation_verdict_total :
      (src dst : Text) → (v : Verdict) × (site_isolation_verdict sha256 links pairs src dst ≡ ok v)
  unfolding site_isolation_verdict
  site_isolation_verdict_total src dst = elim (Option-cases (canonical_cidr src)) [
    | inl n ↦ (free, rw (site_isolation_verdict, n) refl)
    | inr (s, e) ↦ elim (Option-cases (canonical_cidr dst)) [
      | inl n ↦ (free, rw (site_isolation_verdict, e, n) refl)
      | inr (d, f) ↦
          let plan = plan_site_isolation sha256 links pairs in
          let (v, q) = verdict_from_total sha256 links plan.sites s d plan.pairs none ready in
          (v, rw (site_isolation_verdict, e, f) q)
    ]
  ]

  In-plan :
      (p : Pair)
      → In p (plan_site_isolation sha256 links pairs).pairs
        ↔ (In p pairs × (enforceable links p ≡ true))
  In-plan p =
      rw (plan_site_isolation-pairs sha256 links pairs) (In-filter (enforceable links) p pairs)

  enforceable-Separates :
      (p : Pair) (s d : Text)
      → (Blocks sha256 links (plan_site_isolation sha256 links pairs).sites s d p
          × (enforceable links p ≡ true))
        ↔ Separates links p s d
  unfolding enforceable usable
  enforceable-Separates p s d = (
    (λ h.
        let (la, lb, ea, eb, w) = h.0 in
        let ok_ab : (usable_link la && usable_link lb) ≡ true =
          rw (enforceable, usable, ea, eb) at h.1 in
        let ok_a : usable_link la ≡ true = ((&&_iff (usable_link la) (usable_link lb)).0 ok_ab).0 in
        let ok_b : usable_link lb ≡ true = ((&&_iff (usable_link la) (usable_link lb)).0 ok_ab).1 in
        record {
          link_a = la;
          link_b = lb;
          found_a = ea;
          found_b = eb;
          site_a = ((&&_iff (is_site_link la) (not (is_empty (site_networks la).nets))).0 ok_a).0;
          site_b = ((&&_iff (is_site_link lb) (not (is_empty (site_networks lb).nets))).0 ok_b).0;
          between = w;
        }),
    (λ k.
        let full : (is_empty (site_networks k.link_a).nets ≡ false)
            × (is_empty (site_networks k.link_b).nets ≡ false) =
          elim k.between [
            | inl t ↦ (full_of_holds k.link_a s t.0, full_of_holds k.link_b d t.1)
            | inr t ↦ (full_of_holds k.link_a d t.1, full_of_holds k.link_b s t.0)
          ] in
        (
          (k.link_a, k.link_b, k.found_a, k.found_b, k.between),
          rw (enforceable, usable, k.found_a, k.found_b, k.site_a, k.site_b, full.0, full.1) refl,
        )),
  )

  -- For two accepted texts the verdict is "blocked" exactly if some listed pair joins two site
  -- links of which one contains the source and the other the target.
  pub site_isolation_verdict-blocked_iff :
      (src dst s d : Text)
      → canonical_cidr src ≡ some s
      → canonical_cidr dst ≡ some d
      → ((r : Ref) × (site_isolation_verdict sha256 links pairs src dst ≡ ok (blocked r)))
        ↔ ((p : Pair) × In p pairs × Separates links p s d)
  unfolding site_isolation_verdict
  site_isolation_verdict-blocked_iff src dst s d e f =
      let plan = plan_site_isolation sha256 links pairs in
      let core = blocked_from sha256 links plan.sites s d plan.pairs none ready in
      rw (site_isolation_verdict, e, f)
        (
          (λ b.
              let (p, m, k) = core.0 b in
              let (i, q) = (In-plan p).0 m in (p, i, (enforceable-Separates p s d).0 (k, q))),
          (λ b.
              let (p, i, k) = b in
              let (w, q) = (enforceable-Separates p s d).1 k in
              core.1 (p, (In-plan p).1 (i, q), w)),
        )

  -- Isolation has no direction: traffic is blocked exactly if the answers to it are.
  site_isolation_verdict_symmetric :
      (src dst : Text)
      → ((r : Ref) × (site_isolation_verdict sha256 links pairs src dst ≡ ok (blocked r)))
        ↔ ((r : Ref) × (site_isolation_verdict sha256 links pairs dst src ≡ ok (blocked r)))
  unfolding site_isolation_verdict
  site_isolation_verdict_symmetric src dst = (half src dst, half dst src)
    where
      swap : (p : Pair) (s d : Text) → Separates links p s d → Separates links p d s
      swap p s d k = record {
        link_a = k.link_a;
        link_b = k.link_b;
        found_a = k.found_a;
        found_b = k.found_b;
        site_a = k.site_a;
        site_b = k.site_b;
        between = elim k.between [ inl t ↦ inr (t.1, t.0) | inr t ↦ inl (t.1, t.0) ];
      }

      half :
          (x y : Text)
          → ((r : Ref) × (site_isolation_verdict sha256 links pairs x y ≡ ok (blocked r)))
          → ((r : Ref) × (site_isolation_verdict sha256 links pairs y x ≡ ok (blocked r)))
      half x y b = elim (Option-cases (canonical_cidr x)) [
        | inl n ↦ absurd (cc (rw (site_isolation_verdict, n) at b.1))
        | inr (s, e) ↦ elim (Option-cases (canonical_cidr y)) [
          | inl n ↦ absurd (cc (rw (site_isolation_verdict, e, n) at b.1))
          | inr (d, f) ↦
              let (p, i, k) = (site_isolation_verdict-blocked_iff x y s d e f).0 b in
              (site_isolation_verdict-blocked_iff y x d s f e).1 (p, i, swap p s d k)
        ]
      ]
