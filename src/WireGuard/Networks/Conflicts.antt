-- ===== src/WireGuard/Networks/Conflicts.antt =====
-- No conflict is reported exactly if no two claims meet, whichever stands first.
use floppyguard.Base.{
  ◌≢◌, ◌⊎◌, ◌||◌, true, ||_iff, false_iff, and3_iff, In-map, In-filter, In-flat_map, append-nil,
  ◌≡◌, ◌↔◌, inl, inr, refl, sym, ◌∙◌, Bool, false, not, ◌&&◌, Option, none, some, List, [], ◌∷◌,
  map, filter, In, Bool-cases, arith,
}
use mathlib.Core.Bool.{false≢true}
use floppyguard.Base.Text.{Text, codes, text_eq, includes}
use floppyguard.Base.Text.Laws.{text_eq_iff, text_eq_refl, includes_iff}
use floppyguard.Cidr.{cidr_contains}
use floppyguard.Cidr.Contains.{Shares, either_contains_iff}
use floppyguard.WireGuard.Networks.{
  networks_overlap, is_host_route, name_or_id, ClaimMeta, Claim, claims_of, claims, is_unrelated,
  in_conflict, conflict_text, claim_conflicts, find_link_network_conflicts,
}

text_eq_sym : (s t : Text) → text_eq s t ≡ text_eq t s
text_eq_sym s t = elim (Bool-cases (text_eq s t)) [
  | inl e ↦ let q = (text_eq_iff s t).0 e in e ∙ sym ((text_eq_iff t s).1 (sym q))
  | inr e ↦ elim (Bool-cases (text_eq t s)) [
    | inl k ↦ absurd (false≢true (sym e ∙ (text_eq_iff s t).1 (sym ((text_eq_iff t s).0 k))))
    | inr k ↦ e ∙ sym k
  ]
]

networks_overlap_sym : (a b : Text) → networks_overlap a b ≡ networks_overlap b a
unfolding networks_overlap
networks_overlap_sym a b = rw (text_eq_sym a b) (ground arith)

and_sym : (a b : Bool) → (a && b) ≡ (b && a)
and_sym a b = ground arith

is_unrelated_sym :
    (changed : Option (List Text)) (a b : Claim)
    → is_unrelated changed a b ≡ is_unrelated changed b a
is_unrelated_sym none a b = refl
is_unrelated_sym (some c) a b = and_sym (not (includes c a.id)) (not (includes c b.id))

in_conflict_sym :
    (changed : Option (List Text)) (a b : Claim) → in_conflict changed a b ≡ in_conflict changed b a
in_conflict_sym changed a b =
    rw (text_eq_sym a.id b.id, is_unrelated_sym changed a b, networks_overlap_sym a.net b.net) refl

in_conflict_self : (changed : Option (List Text)) (a : Claim) → in_conflict changed a a ≡ false
in_conflict_self changed a = rw (text_eq_refl a.id) refl

map-filter-nil :
    {A B : Type 0} (f : A → B) (p : A → Bool) (xs : List A)
    → (map f (filter p xs) ≡ []) ↔ ((x : A) → In x xs → p x ≡ false)
unfolding filter
map-filter-nil f p [] = ((λ _ x m. absurd m), (λ _. refl))
map-filter-nil f p (x ∷ xs) = elim (Bool-cases (p x)) [
  | inr e ↦ rw e (
    (λ h y m. elim m [ inl q ↦ rw (q, e) refl | inr i ↦ (map-filter-nil f p xs).0 h y i ]),
    (λ h. (map-filter-nil f p xs).1 (λ y m. h y (inr m))),
  )
  | inl e ↦ rw e ((λ h. absurd (cc)), (λ h. absurd (false≢true (sym (h x (inl refl)) ∙ e))))
]

claim_conflicts-nil :
    (changed : Option (List Text)) (cs : List Claim)
    → (claim_conflicts changed cs ≡ [])
      ↔ ((a : Claim) → In a cs → (b : Claim) → In b cs → in_conflict changed a b ≡ false)
unfolding claim_conflicts
claim_conflicts-nil changed [] = ((λ _ a m. absurd m), (λ _. refl))
claim_conflicts-nil changed (c ∷ cs) =
    let here = map-filter-nil (conflict_text c) (in_conflict changed c) cs in
    let later = claim_conflicts-nil changed cs in
    let both =
      append-nil (map (conflict_text c) (filter (in_conflict changed c) cs))
        (claim_conflicts changed cs) in
    (
      (λ h a m b n. elim m [
        | inl p ↦ elim n [
          | inl q ↦ rw (p, q) (in_conflict_self changed c)
          | inr j ↦ rw p (here.0 (both.0 h).0 b j)
        ]
        | inr i ↦ elim n [
          | inl q ↦ rw q (in_conflict_sym changed a c ∙ here.0 (both.0 h).0 a i)
          | inr j ↦ later.0 (both.0 h).1 a i b j
        ]
      ]),
      (λ h.
          both.1
            (here.1 (λ b j. h c (inl refl) b (inr j)), later.1 (λ a i b j. h a (inr i) b (inr j)))),
    )

-- Whether a save looks at a pair of links: every pair, or those with a link that has changed.
abbrev pub IsRelated : Option (List Text) → Text → Text → Type 0
IsRelated none id other = Unit
IsRelated (some changed) id other = In id changed ⊎ In other changed

-- Two networks are the same text or share an address.
abbrev pub Meets : Text → Text → Type 0
Meets x y = (x ≡ y) ⊎ Shares x y

-- A network `x` of the site `m` against a network `y` of the site `o`.
pub record IsClash (changed : Option (List Text)) (m : ClaimMeta) (x : Text) (o : ClaimMeta)
    (y : Text) : Type 0 where
  pub different : m.id ≢ o.id
  pub related : IsRelated changed m.id o.id
  pub meet : Meets x y

-- A network that a link claims: the link is no client, and the network no host route.
pub record IsClaimed (links : List ClaimMeta) (m : ClaimMeta) (x : Text) : Type 0 where
  pub listed : In m links
  pub site : ¬ (m.type ≡ codes "client")
  pub imported : In x m.imported_networks
  pub subnet : is_host_route x ≡ false

abbrev claim_of : ClaimMeta → Text → Claim
claim_of m x = record { id = m.id; name = name_or_id m.name m.id; net = x }

Meets-iff : (x y : Text) → (networks_overlap x y ≡ true) ↔ Meets x y
unfolding networks_overlap
Meets-iff x y =
    let both = ||_iff (text_eq x y) (cidr_contains x y || cidr_contains y x) in
    let share = either_contains_iff x y in
    let same = text_eq_iff x y in
    (
      (λ h. elim (both.0 h) [ inl e ↦ inl (same.0 e) | inr c ↦ inr (share.0 c) ]),
      (λ h. both.1 (elim h [ inl e ↦ inl (same.1 e) | inr c ↦ inr (share.1 c) ])),
    )

not-true_iff : (b : Bool) → (not b ≡ true) ↔ (b ≡ false)
not-true_iff true = ((λ h. absurd (cc)), (λ h. absurd (cc)))
not-true_iff false = ((λ h. refl), (λ h. refl))

IsRelated-iff :
    (changed : Option (List Text)) (a b : Claim)
    → (not (is_unrelated changed a b) ≡ true) ↔ IsRelated changed a.id b.id
IsRelated-iff none a b = ((λ _. tt), (λ _. refl))
IsRelated-iff (some c) a b = (
  (λ h. elim (one (includes c a.id) (includes c b.id) h) [
    | inl e ↦ inl ((includes_iff c a.id).0 e)
    | inr e ↦ inr ((includes_iff c b.id).0 e)
  ]),
  (λ h. two (includes c a.id) (includes c b.id) (elim h [
    | inl m ↦ inl ((includes_iff c a.id).1 m)
    | inr m ↦ inr ((includes_iff c b.id).1 m)
  ])),
)
  where
    one : (x y : Bool) → not (not x && not y) ≡ true → (x ≡ true) ⊎ (y ≡ true)
    one true y h = inl refl
    one false true h = inr refl
    one false false h = absurd (cc)

    two : (x y : Bool) → (x ≡ true) ⊎ (y ≡ true) → not (not x && not y) ≡ true
    two true y h = refl
    two false true h = refl
    two false false h = elim h [ inl e ↦ absurd (cc) | inr e ↦ absurd (cc) ]

in_conflict_iff :
    (changed : Option (List Text)) (m o : ClaimMeta) (x y : Text)
    → (in_conflict changed (claim_of m x) (claim_of o y) ≡ true) ↔ IsClash changed m x o y
in_conflict_iff changed m o x y =
    let three =
      and3_iff (not (text_eq m.id o.id)) (not (is_unrelated changed (claim_of m x) (claim_of o y)))
        (networks_overlap x y) in
    let differ = false_iff (text_eq m.id o.id) (text_eq_iff m.id o.id) in
    let flip = not-true_iff (text_eq m.id o.id) in
    let rel = IsRelated-iff changed (claim_of m x) (claim_of o y) in
    let meet = Meets-iff x y in
    (
      (λ h.
          let (a, b, c) = three.0 h in
          record { different = differ.0 (flip.0 a); related = rel.0 b; meet = meet.0 c }),
      (λ k. three.1 (flip.1 (differ.1 k.different), rel.1 k.related, meet.1 k.meet)),
    )

claims_of-In :
    (m : ClaimMeta) (c : Claim)
    → In c (claims_of m) ↔ (
        (¬ (m.type ≡ codes "client"))
        × ((x : Text) × In x m.imported_networks × (is_host_route x ≡ false) × (c ≡ claim_of m x)))
claims_of-In m c = elim (Bool-cases (text_eq m.type (codes "client"))) [
  | inl e ↦ rw e ((λ h. absurd h), (λ h. absurd (h.0 ((text_eq_iff m.type (codes "client")).0 e))))
  | inr e ↦ rw e (
      let kept = filter (λ n. not (is_host_route n)) m.imported_networks in
      let named = In-map (claim_of m) c kept in
      (
        (λ h.
            let (x, i, q) = named.0 h in
            let (j, r) = (In-filter (λ n. not (is_host_route n)) x m.imported_networks).0 i in
            (
              (false_iff (text_eq m.type (codes "client")) (text_eq_iff m.type (codes "client"))).0
                  e,
              (x, j, (not-true_iff (is_host_route x)).0 r, q),
            )),
        (λ (site, (x, j, r, q)). named.1 (
          x,
          (In-filter (λ n. not (is_host_route n)) x m.imported_networks).1
              (j, (not-true_iff (is_host_route x)).1 r),
          q,
        )),
      ))
]

claimed :
    (links : List ClaimMeta) (c : Claim)
    → In c (claims links)
      ↔ ((m : ClaimMeta) × (x : Text) × IsClaimed links m x × (c ≡ claim_of m x))
unfolding claims
claimed links c =
    let all_links = In-flat_map claims_of c links in
    (
      (λ h.
          let (m, i, k) = all_links.0 h in
          let (site, (x, j, r, q)) = (claims_of-In m c).0 k in
          (m, x, record { listed = i; site = site; imported = j; subnet = r }, q)),
      (λ (m, x, k, q).
          all_links.1 (m, k.listed, (claims_of-In m c).1 (k.site, (x, k.imported, k.subnet, q)))),
    )

-- A save is let through exactly if no two networks that links claim clash: a network of a link that
-- is no client, host routes aside, clashes with one of a link of another id if the two are the same
-- text or share an address, and, where the changed links are given, one of the two links is among
-- them. Which of the two stands first does not matter.
pub find_link_network_conflicts-nil :
    (links : List ClaimMeta) (changed : Option (List Text))
    → (find_link_network_conflicts links changed ≡ []) ↔ (
        (m : ClaimMeta) (x : Text)
        → IsClaimed links m x
        → (o : ClaimMeta) (y : Text) → IsClaimed links o y
        → ¬ IsClash changed m x o y)
unfolding find_link_network_conflicts
find_link_network_conflicts-nil links changed =
    let pairs = claim_conflicts-nil changed (claims links) in
    let refute = λ (m : ClaimMeta) (x : Text) (o : ClaimMeta) (y : Text).
      false_iff (in_conflict changed (claim_of m x) (claim_of o y))
        (in_conflict_iff changed m o x y) in
    (
      (λ h m x i o y j. (refute m x o y).0 (
          pairs.0 h (claim_of m x) ((claimed links (claim_of m x)).1 (m, x, i, refl)) (claim_of o y)
            ((claimed links (claim_of o y)).1 (o, y, j, refl)))),
      (λ h. pairs.1 (λ a i b j.
          let (m, x, k, p) = (claimed links a).0 i in
          let (o, y, l, q) = (claimed links b).0 j in
          rw (p, q) ((refute m x o y).1 (h m x k o y l)))),
    )
