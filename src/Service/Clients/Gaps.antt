-- ===== src/Service/Clients/Gaps.antt =====
-- What the list of VPN clients holds, and when the check finds no gap.
use floppyguard.Base.{
  ℕ, suc, length, ◌==◌, arith, ◌⊎◌, ◌||◌, false, any_find, any_of_In, and3_iff, append-nil, ◌≡◌,
  ◌↔◌, inl, inr, refl, sym, ◌∙◌, Bool, true, not, Option, none, some, List, [], ◌∷◌, In, any,
  filter, flat_map, map, Bool-cases,
}
use mathlib.Core.Bool.{false≢true}
use floppyguard.Base.Text.{Text}
use floppyguard.Cidr.{canonical_cidr, cidr_contains}
use floppyguard.Cidr.Contains.{Shares, either_contains_iff}
use floppyguard.Ingress.{Rule}
use floppyguard.Service.Clients.{
  VpnClient, Gap, gap_dst, gap_of, gaps_of_hosts, meets_dst, lets_client_in, client_ingress_gaps,
}

flat_map-nil :
    {A B : Type 0} (f : A → List B) (xs : List A)
    → (flat_map f xs ≡ []) ↔ ((x : A) → In x xs → f x ≡ [])
unfolding flat_map
flat_map-nil f [] = ((λ _ x m. absurd m), (λ _. refl))
flat_map-nil f (x ∷ xs) = (
  (λ h y m. elim m [
    | inl e ↦ rw e ((append-nil (f x) (flat_map f xs)).0 h).0
    | inr i ↦ (flat_map-nil f xs).0 ((append-nil (f x) (flat_map f xs)).0 h).1 y i
  ]),
  (λ h.
      (append-nil (f x) (flat_map f xs)).1
        (h x (inl refl), (flat_map-nil f xs).1 (λ y m. h y (inr m)))),
)

map-nil : {A B : Type 0} (f : A → B) (xs : List A) → (map f xs ≡ []) ↔ (xs ≡ [])
map-nil f [] = ((λ _. refl), (λ _. refl))
map-nil f (x ∷ xs) = ((λ h. absurd (cc)), (λ h. absurd (cc)))

filter-nil :
    {A : Type 0} (p : A → Bool) (xs : List A)
    → (filter (λ x. not (p x)) xs ≡ []) ↔ ((x : A) → In x xs → p x ≡ true)
unfolding filter
filter-nil p [] = ((λ _ x m. absurd m), (λ _. refl))
filter-nil p (x ∷ xs) = elim (Bool-cases (p x)) [
  | inl e ↦ rw e (
    (λ h y m. elim m [ inl q ↦ rw (q, e) refl | inr i ↦ (filter-nil p xs).0 h y i ]),
    (λ h. (filter-nil p xs).1 (λ y m. h y (inr m))),
  )
  | inr e ↦ rw e ((λ h. absurd (cc)), (λ h. absurd (false≢true (sym e ∙ h x (inl refl)))))
]

some_eq : {A : Type 0} {a b : A} → some a ≡ some b → a ≡ b
some_eq e = cc

gaps_of_hosts-nil :
    (rules : List Rule) (c : VpnClient) (o : Option Text)
    → (gaps_of_hosts rules c o ≡ []) ↔ (
        (dst : Text)
        → o ≡ some dst
        → (host : Text) → In host c.hosts
        → any (lets_client_in host dst) rules ≡ true)
gaps_of_hosts-nil rules c none = ((λ _ dst e. absurd (cc)), (λ _. refl))
gaps_of_hosts-nil rules c (some d) =
    let p : Text → Bool = λ h. any (lets_client_in h d) rules in
    let a = map-nil (gap_of c d) (filter (λ h. not (p h)) c.hosts) in
    let b = filter-nil p c.hosts in
    (
      (λ h dst e host m. rw (← some_eq e) (b.0 (a.0 h) host m)),
      (λ h. a.1 (b.1 (λ host m. h d refl host m))),
    )

-- A rule lets a host into a network, whatever its ports are.
pub record LetsIn (host dst : Text) (r : Rule) : Type 0 where
  pub enabled : r.enabled ≡ true
  pub source : (s : Text) × In s r.sources × (cidr_contains s host ≡ true)
  pub destination : (r.destinations ≡ []) ⊎ ((d : Text) × In d r.destinations × Shares d dst)

one_listed : (b : Bool) (n : ℕ) → (suc n == 0 || b) ≡ b
one_listed b n = let z : (suc n == 0) ≡ false = ground arith in rw z refl

meets_dst-any :
    (e : Text) (es : List Text) (dst : Text)
    → meets_dst (e ∷ es) dst ≡ any (λ d. cidr_contains d dst || cidr_contains dst d) (e ∷ es)
meets_dst-any e es dst =
    one_listed (any (λ d. cidr_contains d dst || cidr_contains dst d) (e ∷ es)) (length es)

meets_dst_iff :
    (ds : List Text) (dst : Text)
    → (meets_dst ds dst ≡ true) ↔ ((ds ≡ []) ⊎ ((d : Text) × In d ds × Shares d dst))
meets_dst_iff [] dst = ((λ _. inl refl), (λ _. refl))
meets_dst_iff (e ∷ es) dst =
    let meets : Text → Bool = λ d. cidr_contains d dst || cidr_contains dst d in
    (
      (λ h.
          let (d, m, c) = any_find meets (e ∷ es) (sym (meets_dst-any e es dst) ∙ h) in
          inr (d, m, (either_contains_iff d dst).0 c)),
      (λ h. elim h [
        | inl z ↦ absurd (cc)
        | inr (d, m, c) ↦
            meets_dst-any e es dst ∙ any_of_In meets d (e ∷ es) m ((either_contains_iff d dst).1 c)
      ]),
    )

lets_client_in_iff :
    (host dst : Text) (r : Rule) → (lets_client_in host dst r ≡ true) ↔ LetsIn host dst r
unfolding lets_client_in
lets_client_in_iff host dst r =
    let three =
      and3_iff r.enabled (any (λ s. cidr_contains s host) r.sources)
        (meets_dst r.destinations dst) in
    let meets = meets_dst_iff r.destinations dst in
    (
      (λ h.
          let (a, b, c) = three.0 h in
          record {
            enabled = a;
            source = any_find (λ s. cidr_contains s host) r.sources b;
            destination = meets.0 c;
          }),
      (λ k.
          let (s, m, e) = k.source in
          three.1 (
            k.enabled,
            any_of_In (λ s. cidr_contains s host) s r.sources m e,
            meets.1 k.destination,
          )),
    )

any-LetsIn :
    (host dst : Text) (rules : List Rule)
    → (any (lets_client_in host dst) rules ≡ true) ↔ ((r : Rule) × In r rules × LetsIn host dst r)
any-LetsIn host dst rules = (
  (λ h.
      let (r, m, e) = any_find (lets_client_in host dst) rules h in
      (r, m, (lets_client_in_iff host dst r).0 e)),
  (λ (r, m, k).
      any_of_In (lets_client_in host dst) r rules m ((lets_client_in_iff host dst r).1 k)),
)

-- The part of an agent's own network that a network of the reach shares: the inner one of the two.
abbrev pub IsPart : Text → Text → Text → Type 0
IsPart own net dst =
    ((cidr_contains own net ≡ true) × (canonical_cidr net ≡ some dst))
    ⊎ ((cidr_contains own net ≡ false)
        × (cidr_contains net own ≡ true)
        × (canonical_cidr own ≡ some dst))

gap_dst_iff : (own net dst : Text) → (gap_dst own net ≡ some dst) ↔ IsPart own net dst
unfolding gap_dst
gap_dst_iff own net dst = elim (Bool-cases (cidr_contains own net)) [
  | inl e ↦ rw e ((λ h. inl (refl, h)), (λ k. elim k [ inl p ↦ p.1 | inr p ↦ absurd (cc (p.0)) ]))
  | inr e ↦ elim (Bool-cases (cidr_contains net own)) [
    | inl f ↦
        rw (e, f)
          ((λ h. inr (refl, refl, h)), (λ k. elim k [ inl p ↦ absurd (cc (p.0)) | inr p ↦ p.2 ]))
    | inr f ↦
        rw (e, f)
          (
            (λ h. absurd (cc)),
            (λ k. elim k [ inl p ↦ absurd (cc (p.0)) | inr p ↦ absurd (cc (p.1)) ]),
          )
  ]
]

-- The check reports no gap exactly if for each network of a client's reach, each own network of the
-- agent and each host of the client, where one of the two networks contains the other, some enabled
-- rule has a source that contains the host, and has no destinations or one that shares an address
-- with the inner network. The ports of the rule are not looked at.
pub client_ingress_gaps-nil :
    (clients : List VpnClient) (own_nets : List Text) (rules : List Rule)
    → (client_ingress_gaps clients own_nets rules ≡ []) ↔ (
        (c : VpnClient)
        → In c clients
        → (net : Text) → In net c.nets
        → (own : Text) → In own own_nets
        → (dst : Text) → IsPart own net dst
        → (host : Text) → In host c.hosts
        → (r : Rule) × In r rules × LetsIn host dst r)
unfolding client_ingress_gaps
client_ingress_gaps-nil clients own_nets rules =
    let round : VpnClient → Text → Text → List Gap =
      λ c net own. gaps_of_hosts rules c (gap_dst own net) in
    let nets : VpnClient → Text → List Gap = λ c net. flat_map (round c net) own_nets in
    let all_of : VpnClient → List Gap = λ c. flat_map (nets c) c.nets in
    (
      (λ h c i net j own k dst e host m. (any-LetsIn host dst rules).0 (
          (gaps_of_hosts-nil rules c (gap_dst own net)).0
            ((flat_map-nil (round c net) own_nets).0
              ((flat_map-nil (nets c) c.nets).0 ((flat_map-nil all_of clients).0 h c i) net j) own
              k)
            dst ((gap_dst_iff own net dst).1 e) host m)),
      (λ h. (flat_map-nil all_of clients).1 (λ c i. (flat_map-nil (nets c) c.nets).1 (λ net j.
          (flat_map-nil (round c net) own_nets).1 (λ own k.
            (gaps_of_hosts-nil rules c (gap_dst own net)).1 (λ dst e host m.
              (any-LetsIn host dst rules).1
                (h c i net j own k dst ((gap_dst_iff own net dst).0 e) host m)))))),
    )
