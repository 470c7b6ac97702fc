-- ===== src/SiteIsolation/Plan/Known.antt =====
-- `siteFor`: the map holds, for each id, the site that the link of this id gives.
use floppyguard.Base.{
  ◌≡◌, refl, sym, ap, ◌∙◌, Bool, true, false, ◌||◌, none, some, List, [], ◌∷◌, ◌++◌, filter, any,
  All, All-append, inl, inr, Bool-cases, Option-cases, if◌then◌else◌,
}
use floppyguard.Base.Text.{Text, text_eq}
use floppyguard.Base.Text.Laws.{text_eq_iff, text_eq_refl}
use floppyguard.Cidr.{cidr_overlaps}
use floppyguard.SiteIsolation.{Link, Pair, by_id}
use floppyguard.SiteIsolation.Plan.{
  Site, Plan, Warning, overlap, site_at, site_of, site_for, warn, is_empty, join_sites,
}

pub site_at-append :
    (ss : List Site) (x s : Site) (id : Text)
    → site_at ss id ≡ some s
    → site_at (ss ++ x ∷ []) id ≡ some s
unfolding site_at
site_at-append [] x s id e = absurd (cc)
site_at-append (t ∷ ss) x s id e = elim (Bool-cases (text_eq t.id id)) [
  | inl h ↦ rw h (rw h at e)
  | inr h ↦ rw h (site_at-append ss x s id (rw h at e))
]

site_at-new :
    (ss : List Site) (x : Site) → site_at ss x.id ≡ none → site_at (ss ++ x ∷ []) x.id ≡ some x
unfolding site_at
site_at-new [] x e = rw (text_eq_refl x.id) refl
site_at-new (t ∷ ss) x e = elim (Bool-cases (text_eq t.id x.id)) [
  | inl h ↦ absurd (cc (rw h at e))
  | inr h ↦ rw h (site_at-new ss x (rw h at e))
]

module _ (sha256 : Text → Text) (links : List Link) where
  abbrev pub FromLink : Site → Type 0
  FromLink s = (l : Link) × (by_id links s.id ≡ some l) × (s ≡ site_of sha256 s.id l)

  pub site_at-FromLink :
      (ss : List Site) (id : Text) (l : Link) (s : Site)
      → All FromLink ss
      → by_id links id ≡ some l
      → site_at ss id ≡ some s
      → s ≡ site_of sha256 id l
  unfolding site_at
  site_at-FromLink [] id l s known e h = absurd (cc)
  site_at-FromLink (t ∷ ss) id l s known e h = elim (Bool-cases (text_eq t.id id)) [
    | inl here ↦
        let same : t ≡ s = some_inj (rw here at h) in
        let same_id : t.id ≡ id = (text_eq_iff t.id id).0 here in
        let (k, f, g) = known.0 in
        let same_link : k ≡ l = link_inj (sym f ∙ ap (by_id links) same_id ∙ e) in
        sym same
        ∙ g
        ∙ ap (λ (i : Text). site_of sha256 i k) same_id
        ∙ ap (site_of sha256 id) same_link
    | inr there ↦ site_at-FromLink ss id l s known.1 e (rw there at h)
  ]
    where
      some_inj : {a b : Site} → some a ≡ some b → a ≡ b
      some_inj q = cc

      link_inj : {a b : Link} → some a ≡ some b → a ≡ b
      link_inj q = cc

  -- What `siteFor` answers, and what it leaves.
  pub record Found (id : Text) (l : Link) (st : Plan) (r : Site × Plan) : Type 0 where
    pub site : r.0 ≡ site_of sha256 id l
    pub known : All FromLink (r.1).sites
    pub present : site_at (r.1).sites id ≡ some (site_of sha256 id l)
    pub older : (i : Text) (s : Site) → site_at st.sites i ≡ some s → site_at (r.1).sites i ≡ some s
    pub pairs : (r.1).pairs ≡ st.pairs

  pub site_for-Found :
      (id : Text) (l : Link) (st : Plan)
      → All FromLink st.sites
      → by_id links id ≡ some l
      → Found id l st (site_for sha256 id l st)
  unfolding site_for
  site_for-Found id l st known e = elim (Option-cases (site_at st.sites id)) [
    | inr (s, h) ↦
        let same = site_at-FromLink st.sites id l s known e h in
        rw (site_for, h)
          (record {
            site = same;
            known = known;
            present = h ∙ ap some same;
            older = λ i t q. q;
            pairs = refl;
          })
    | inl h ↦
        rw (site_for, h)
          (record {
            site = refl;
            known =
                All-append FromLink st.sites (site_of sha256 id l ∷ []) known ((l, e, refl), tt);
            present = site_at-new st.sites (site_of sha256 id l) h;
            older = λ i t q. site_at-append st.sites (site_of sha256 id l) t i q;
            pairs = refl;
          })
  ]

warned_pairs :
    (quiet : Bool) (ws : List Warning) (st : Plan)
    → (if quiet then st else warn ws st).pairs ≡ st.pairs
warned_pairs true ws st = refl
warned_pairs false ws st = refl

warned_sites :
    (quiet : Bool) (ws : List Warning) (st : Plan)
    → (if quiet then st else warn ws st).sites ≡ st.sites
warned_sites true ws st = refl
warned_sites false ws st = refl

pub join_sites-pairs :
    (p : Pair) (x y : Site) (st : Plan)
    → (join_sites p x y st).pairs
      ≡ (if is_empty x.nets || is_empty y.nets then st.pairs else st.pairs ++ p ∷ [])
unfolding join_sites
join_sites-pairs p x y st = elim (Bool-cases (is_empty x.nets || is_empty y.nets)) [
  | inl e ↦ rw e refl
  | inr e ↦
      let shared = filter (λ n. any (cidr_overlaps n) y.nets) x.nets in
      rw e (
        ap (λ (ps : List Pair). ps ++ p ∷ [])
          (warned_pairs (is_empty shared) (overlap x.name y.name p shared ∷ []) st))
]

pub join_sites-sites : (p : Pair) (x y : Site) (st : Plan) → (join_sites p x y st).sites ≡ st.sites
unfolding join_sites
join_sites-sites p x y st = elim (Bool-cases (is_empty x.nets || is_empty y.nets)) [
  | inl e ↦ rw e refl
  | inr e ↦
      let shared = filter (λ n. any (cidr_overlaps n) y.nets) x.nets in
      rw e (warned_sites (is_empty shared) (overlap x.name y.name p shared ∷ []) st)
]
