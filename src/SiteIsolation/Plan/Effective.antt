-- ===== src/SiteIsolation/Plan/Effective.antt =====
-- The enforced pairs of a plan are the pairs of two site links that both have networks.
use mathlib.Core.Path.{subst}
use mathlib.Core.List.{append-nil, append_assoc}
use floppyguard.Base.{
  ◌≡◌, refl, sym, ap, ◌∙◌, Bool, true, false, not, ◌&&◌, ◌||◌, none, some, List, [], ◌∷◌, ◌++◌,
  filter, flat_map, All, All-append, All-map, All_at, In, In-flat_map, inl, inr, Bool-cases,
  Option-cases, if◌then◌else◌, arith,
}
use floppyguard.Base.Text.{Text, text_eq, includes}
use floppyguard.Base.Text.Laws.{text_eq_iff, includes_iff}
use floppyguard.SiteIsolation.{Link, Pair, by_id, is_site_link, site_networks}
use floppyguard.SiteIsolation.Plan.{
  Site, Plan, site_at, site_of, site_for, is_empty, join_sites, plan_links, plan_round, plan_rounds,
  plan_site_isolation,
}
use floppyguard.SiteIsolation.Plan.Known.{
  FromLink, Found, site_for-Found, join_sites-pairs, join_sites-sites,
}

-- A link that can take part: a site link with at least one network.
abbrev pub usable_link : Link → Bool
usable_link l = is_site_link l && not (is_empty (site_networks l).nets)

unfoldable pub usable : List Link → Text → Bool
usable links id = elim (by_id links id) [ none ↦ false | some l ↦ usable_link l ]

unfoldable pub enforceable : List Link → Pair → Bool
unfolding usable
enforceable links p = usable links p.a && usable links p.b

module _ (sha256 : Text → Text) (links : List Link) where
  -- The map has the site of an id.
  abbrev pub Placed : List Site → Text → Type 0
  Placed ss id =
      (l : Link) × (by_id links id ≡ some l) × (site_at ss id ≡ some (site_of sha256 id l))

  abbrev PlacedPair : List Site → Pair → Type 0
  PlacedPair ss p = Placed ss p.a × Placed ss p.b

  pub record Sound (st : Plan) : Type 0 where
    pub known : All (FromLink sha256 links) st.sites
    pub placed : All (PlacedPair st.sites) st.pairs

  -- A round that keeps what is there, and adds its pair if `adds` says so.
  record Round (p : Pair) (adds : Bool) (st st' : Plan) : Type 0 where
    pairs : st'.pairs ≡ (if adds then st.pairs ++ p ∷ [] else st.pairs)
    sound : Sound st'

  same_Round :
      (p : Pair) (adds : Bool) (st st' : Plan)
      → adds ≡ false
      → Sound st
      → st'.sites ≡ st.sites
      → st'.pairs ≡ st.pairs
      → Round p adds st st'
  same_Round p adds st st' no_add s es ep = record {
    pairs = rw no_add ep;
    sound = record {
      known = rw es s.known;
      placed =
          subst (λ (ss : List Site). All (PlacedPair ss) st'.pairs) (sym es)
            (subst (λ (ps : List Pair). All (PlacedPair st.sites) ps) (sym ep) s.placed);
    };
  }

  older_pairs :
      (ss ss' : List Site) (ps : List Pair)
      → ((i : Text) (s : Site) → site_at ss i ≡ some s → site_at ss' i ≡ some s)
      → All (PlacedPair ss) ps
      → All (PlacedPair ss') ps
  older_pairs ss ss' ps keep h =
      All-map
        (λ p q. (
          ((q.0).0, (q.0).1, keep p.a (site_of sha256 p.a (q.0).0) (q.0).2),
          ((q.1).0, (q.1).1, keep p.b (site_of sha256 p.b (q.1).0) (q.1).2),
        ))
        ps h

  -- The last part of a round, for the sites that the two calls of `siteFor` gave.
  joined :
      (p : Pair) (la lb : Link) (st : Plan) (first second : Site × Plan)
      → Sound st
      → by_id links p.a ≡ some la
      → by_id links p.b ≡ some lb
      → Found sha256 links p.a la st first
      → Found sha256 links p.b lb first.1 second
      → Round p
          (not (is_empty (site_networks la).nets) && not (is_empty (site_networks lb).nets))
          st
          (join_sites p first.0 second.0 second.1)
  joined p la lb st first second s ea eb fa fb =
      let x = first.0 in
      let y = second.0 in
      let end_pairs = join_sites-pairs p x y second.1 in
      let end_sites = join_sites-sites p x y second.1 in
      let kept : (second.1).pairs ≡ st.pairs = fb.pairs ∙ fa.pairs in
      let keep : (i : Text) (t : Site)
          → site_at st.sites i ≡ some t
          → site_at (second.1).sites i ≡ some t =
        λ i t q. fb.older i t (fa.older i t q) in
      let old : All (PlacedPair (second.1).sites) st.pairs =
        older_pairs st.sites (second.1).sites st.pairs keep s.placed in
      let new : PlacedPair (second.1).sites p =
        ((la, ea, fb.older p.a (site_of sha256 p.a la) fa.present), (lb, eb, fb.present)) in
      let known : All (FromLink sha256 links) (join_sites p x y second.1).sites =
        subst (λ (ss : List Site). All (FromLink sha256 links) ss) (sym end_sites) fb.known in
      let ex : x.nets ≡ (site_networks la).nets = ap (λ (t : Site). t.nets) fa.site in
      let ey : y.nets ≡ (site_networks lb).nets = ap (λ (t : Site). t.nets) fb.site in
      let all_old : All (PlacedPair (join_sites p x y second.1).sites) st.pairs =
        subst (λ (ss : List Site). All (PlacedPair ss) st.pairs) (sym end_sites) old in
      let all_new : All (PlacedPair (join_sites p x y second.1).sites) (st.pairs ++ p ∷ []) =
        subst (λ (ss : List Site). All (PlacedPair ss) (st.pairs ++ p ∷ [])) (sym end_sites)
          (All-append (PlacedPair (second.1).sites) st.pairs (p ∷ []) old (new, tt)) in
      chosen p st (join_sites p x y second.1) (is_empty (site_networks la).nets)
        (is_empty (site_networks lb).nets)
        (end_pairs ∙ choice (ap is_empty ex) (ap is_empty ey) kept) known all_old all_new
    where
      choice :
          {c d c' d' : Bool} {ps qs : List Pair}
          → c ≡ c'
          → d ≡ d'
          → ps ≡ qs
          → (if c || d then ps else ps ++ p ∷ []) ≡ (if c' || d' then qs else qs ++ p ∷ [])
      choice e f g = cc

      chosen :
          (p : Pair) (st st' : Plan) (c d : Bool)
          → st'.pairs ≡ (if c || d then st.pairs else st.pairs ++ p ∷ [])
          → All (FromLink sha256 links) st'.sites
          → All (PlacedPair st'.sites) st.pairs
          → All (PlacedPair st'.sites) (st.pairs ++ p ∷ [])
          → Round p (not c && not d) st st'
      chosen p st st' true d e k o n = record {
        pairs = e;
        sound = record {
          known = k;
          placed = subst (λ (ps : List Pair). All (PlacedPair st'.sites) ps) (sym e) o;
        };
      }
      chosen p st st' false true e k o n = record {
        pairs = e;
        sound = record {
          known = k;
          placed = subst (λ (ps : List Pair). All (PlacedPair st'.sites) ps) (sym e) o;
        };
      }
      chosen p st st' false false e k o n = record {
        pairs = e;
        sound = record {
          known = k;
          placed = subst (λ (ps : List Pair). All (PlacedPair st'.sites) ps) (sym e) n;
        };
      }

  plan_links-Round :
      (p : Pair) (la lb : Link) (st : Plan)
      → Sound st
      → by_id links p.a ≡ some la
      → by_id links p.b ≡ some lb
      → Round p (usable_link la && usable_link lb) st (plan_links sha256 p la lb st)
  unfolding plan_links
  plan_links-Round p la lb st s ea eb = elim (Bool-cases (is_site_link la)) [
    | inr n ↦ rw n (same_Round p _ st _ (ground arith) s refl refl)
    | inl m ↦ elim (Bool-cases (is_site_link lb)) [
      | inr n ↦ rw (m, n) (same_Round p _ st _ (ground arith) s refl refl)
      | inl n ↦
          let fa = site_for-Found sha256 links p.a la st s.known ea in
          let fb = site_for-Found sha256 links p.b lb (site_for sha256 p.a la st).1 fa.known eb in
          rw (m, n)
            (joined p la lb st (site_for sha256 p.a la st)
              (site_for sha256 p.b lb (site_for sha256 p.a la st).1) s ea eb fa fb)
    ]
  ]

  plan_round-Round :
      (p : Pair) (st : Plan)
      → Sound st
      → Round p (enforceable links p) st (plan_round sha256 links p st)
  unfolding plan_round enforceable usable
  plan_round-Round p st s = elim (Option-cases (by_id links p.a)) [
    | inl n ↦ rw (plan_round, enforceable, usable, n) (same_Round p _ st _ refl s refl refl)
    | inr (la, ea) ↦ elim (Option-cases (by_id links p.b)) [
      | inl n ↦
          rw (plan_round, enforceable, usable, ea, n)
            (same_Round p _ st _ (ground arith) s refl refl)
      | inr (lb, eb) ↦
          rw (plan_round, enforceable, usable, ea, eb) (plan_links-Round p la lb st s ea eb)
    ]
  ]

  rounds-filter :
      (ps : List Pair) (st : Plan)
      → Sound st
      → Sound (plan_rounds sha256 links ps st)
        × ((plan_rounds sha256 links ps st).pairs ≡ st.pairs ++ filter (enforceable links) ps)
  unfolding plan_rounds filter
  rounds-filter [] st s = (s, sym (append-nil st.pairs))
  rounds-filter (p ∷ ps) st s =
      let r = plan_round-Round p st s in
      let rest = rounds-filter ps (plan_round sha256 links p st) r.sound in
      (
        rest.0,
        rest.1
            ∙ ap (λ (q : List Pair). q ++ filter (enforceable links) ps) r.pairs
            ∙ shift (enforceable links p) st.pairs p (filter (enforceable links) ps),
      )
    where
      shift :
          (b : Bool) (xs : List Pair) (p : Pair) (ys : List Pair)
          → (if b then xs ++ p ∷ [] else xs) ++ ys ≡ xs ++ (if b then p ∷ ys else ys)
      shift true xs p ys = append_assoc xs (p ∷ []) ys
      shift false xs p ys = refl

  -- The enforced pairs are, in order, the requested pairs whose two ends are site links with at
  -- least one network.
  pub plan_site_isolation-pairs :
      (pairs : List Pair)
      → (plan_site_isolation sha256 links pairs).pairs ≡ filter (enforceable links) pairs
  unfolding plan_site_isolation
  plan_site_isolation-pairs pairs = (rounds-filter pairs start start-Sound).1
    where
      start : Plan
      start = record { sites = []; pairs = []; warnings = [] }

      start-Sound : Sound (record { sites = []; pairs = []; warnings = [] })
      start-Sound = record { known = tt; placed = tt }

  site_at-filter :
      (ids : List Text) (ss : List Site) (id : Text)
      → In id ids
      → site_at (filter (λ s. includes ids s.id) ss) id ≡ site_at ss id
  unfolding site_at filter
  site_at-filter ids [] id m = refl
  site_at-filter ids (s ∷ ss) id m = elim (Bool-cases (text_eq s.id id)) [
    | inl e ↦
        let used : includes ids s.id ≡ true =
          rw ((text_eq_iff s.id id).0 e) ((includes_iff ids id).1 m) in
        rw (used, e) refl
    | inr e ↦ elim (Bool-cases (includes ids s.id)) [
      | inl k ↦ rw (k, e) (site_at-filter ids ss id m)
      | inr k ↦ rw (k, e) (site_at-filter ids ss id m)
    ]
  ]

  -- Each enforced pair finds the sites of its two links in the plan, with the networks of these
  -- links.
  pub plan_site_isolation-sites :
      (pairs : List Pair) (p : Pair)
      → In p (plan_site_isolation sha256 links pairs).pairs
      → Placed (plan_site_isolation sha256 links pairs).sites p.a
        × Placed (plan_site_isolation sha256 links pairs).sites p.b
  unfolding plan_site_isolation
  plan_site_isolation-sites pairs p m =
      let start : Plan = record { sites = []; pairs = []; warnings = [] } in
      let last : Plan = plan_rounds sha256 links pairs start in
      let sound = (rounds-filter pairs start (record { known = tt; placed = tt })).0 in
      let at = All_at (PlacedPair last.sites) p last.pairs sound.placed m in
      let ids : List Text = flat_map (λ (q : Pair). q.a ∷ q.b ∷ []) last.pairs in
      let ma : In p.a ids =
        (In-flat_map (λ (q : Pair). q.a ∷ q.b ∷ []) p.a last.pairs).1 (p, m, inl refl) in
      let mb : In p.b ids =
        (In-flat_map (λ (q : Pair). q.a ∷ q.b ∷ []) p.b last.pairs).1 (p, m, inr (inl refl)) in
      (
        ((at.0).0, (at.0).1, site_at-filter ids last.sites p.a ma ∙ (at.0).2),
        ((at.1).0, (at.1).1, site_at-filter ids last.sites p.b mb ∙ (at.1).2),
      )

  All-kept :
      (q : Site → Bool) (ss : List Site)
      → All (FromLink sha256 links) ss
      → All (FromLink sha256 links) (filter q ss)
  unfolding filter
  All-kept q [] h = tt
  All-kept q (s ∷ ss) h = elim (Bool-cases (q s)) [
    | inl e ↦ rw e (h.0, All-kept q ss h.1)
    | inr e ↦ rw e (All-kept q ss h.1)
  ]

  pub plan_site_isolation-FromLink :
      (pairs : List Pair)
      → All (FromLink sha256 links) (plan_site_isolation sha256 links pairs).sites
  unfolding plan_site_isolation
  plan_site_isolation-FromLink pairs =
      let start : Plan = record { sites = []; pairs = []; warnings = [] } in
      let last : Plan = plan_rounds sha256 links pairs start in
      let sound = (rounds-filter pairs start (record { known = tt; placed = tt })).0 in
      All-kept (λ s. includes (flat_map (λ (p : Pair). p.a ∷ p.b ∷ []) last.pairs) s.id) last.sites
        sound.known
