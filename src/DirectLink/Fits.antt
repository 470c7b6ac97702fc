-- ===== src/DirectLink/Fits.antt =====
-- Which direct links are accepted.
use floppyguard.Base.{
  ◌≢◌, ◌⊎◌, ◌&&◌, ||_iff, &&_iff, ==_iff, false_iff, All-map, All-every, ◌≡◌, ◌↔◌, refl, Bool, true,
  false, none, some, List, [], ◌∷◌, ◌++◌, All, ◌==◌, inl, inr, Bool-cases, Option-cases,
  if◌then◌else◌, arith,
}
use floppyguard.Base.Text.{Text, codes, text_eq}
use floppyguard.Cidr.{cidr_contains}
use floppyguard.Cidr.Contains.{Shares, either_contains_iff}
use floppyguard.Result.{Result, ok, for_each, >>=-eq-ok, throw_if-eq-ok}
use floppyguard.DirectLink.{
  is_ipv4_literal, DirectLink, SideAgent, Context, nat_restricted_conflict, find_net, meets_subnet,
  holds_endpoint, direct_net_conflict, same_pair, same_port, clash_round, assert_no_link_clash,
  check_sites, check_agents, assert_direct_link_fits,
}

-- The two agents of a link, in either order.
abbrev pub SamePair : DirectLink → DirectLink → Type 0
SamePair o link =
    ((o.agent_a_id ≡ link.agent_a_id) × (o.agent_b_id ≡ link.agent_b_id))
    ⊎ ((o.agent_a_id ≡ link.agent_b_id) × (o.agent_b_id ≡ link.agent_a_id))

-- Two links that can stand side by side.
pub record Apart (link o : DirectLink) : Type 0 where
  pub subnets : ¬ Shares o.tunnel_subnet link.tunnel_subnet
  pub pairs : ¬ SamePair o link
  pub ports : ¬ ((o.agent_a_id ≡ link.agent_a_id) × (o.listen_port ≡ link.listen_port))

abbrev pub OtherApart : DirectLink → DirectLink → Type 0
OtherApart link o = (o.id ≢ link.id) → Apart link o

same_pair_iff : (o link : DirectLink) → (same_pair o link ≡ true) ↔ SamePair o link
same_pair_iff o link =
    let straight = &&_iff (o.agent_a_id == link.agent_a_id) (o.agent_b_id == link.agent_b_id) in
    let crossed = &&_iff (o.agent_a_id == link.agent_b_id) (o.agent_b_id == link.agent_a_id) in
    let either =
      ||_iff (o.agent_a_id == link.agent_a_id && o.agent_b_id == link.agent_b_id)
        (o.agent_a_id == link.agent_b_id && o.agent_b_id == link.agent_a_id) in
    (
      (λ h. elim (either.0 h) [
        | inl e ↦ let (x, y) = straight.0 e in inl ((==_iff _ _).0 x, (==_iff _ _).0 y)
        | inr e ↦ let (x, y) = crossed.0 e in inr ((==_iff _ _).0 x, (==_iff _ _).0 y)
      ]),
      (λ h. either.1 (elim h [
        | inl (x, y) ↦ inl (straight.1 ((==_iff _ _).1 x, (==_iff _ _).1 y))
        | inr (x, y) ↦ inr (crossed.1 ((==_iff _ _).1 x, (==_iff _ _).1 y))
      ])),
    )

same_port_iff :
    (o link : DirectLink)
    → (same_port o link ≡ true)
      ↔ ((o.agent_a_id ≡ link.agent_a_id) × (o.listen_port ≡ link.listen_port))
same_port_iff o link =
    let both = &&_iff (o.agent_a_id == link.agent_a_id) (o.listen_port == link.listen_port) in
    (
      (λ h. let (x, y) = both.0 h in ((==_iff _ _).0 x, (==_iff _ _).0 y)),
      (λ (x, y). both.1 ((==_iff _ _).1 x, (==_iff _ _).1 y)),
    )

Apart-iff :
    (link o : DirectLink)
    → ((meets_subnet link.tunnel_subnet o.tunnel_subnet ≡ false)
        × (same_pair o link ≡ false)
        × (same_port o link ≡ false))
      ↔ Apart link o
Apart-iff link o =
    let nets =
      false_iff (meets_subnet link.tunnel_subnet o.tunnel_subnet)
        (either_contains_iff o.tunnel_subnet link.tunnel_subnet) in
    let pairs = false_iff (same_pair o link) (same_pair_iff o link) in
    let ports = false_iff (same_port o link) (same_port_iff o link) in
    (
      (λ (a, b, c). record { subnets = nets.0 a; pairs = pairs.0 b; ports = ports.0 c }),
      (λ k. (nets.1 k.subnets, pairs.1 k.pairs, ports.1 k.ports)),
    )

clash_round-Apart : (link o : DirectLink) → (clash_round link o tt ≡ ok tt) ↔ OtherApart link o
unfolding clash_round
clash_round-Apart link o =
    let named = false_iff (o.id == link.id) (==_iff o.id link.id) in
    elim (Bool-cases (o.id == link.id)) [
      | inl e ↦ ((λ h n. absurd (n ((==_iff o.id link.id).0 e))), (λ h. rw (clash_round, e) refl))
      | inr e ↦ (
        (λ h n.
            let (a, h₁) =
              throw_if-eq-ok (meets_subnet link.tunnel_subnet o.tunnel_subnet) _ _ tt
                (rw (clash_round, e) at h) in
            let (b, h₂) = throw_if-eq-ok (same_pair o link) _ _ tt h₁ in
            (Apart-iff link o).0 (a, b, ground arith)),
        (λ h.
            let (a, b, c) = (Apart-iff link o).1 (h (named.0 e)) in
            rw (clash_round, e, a, b, c) refl),
      )
    ]

-- A link passes against the other links exactly if each of them, but a link of its own id, shares no
-- address of its subnet, joins another pair of agents, and has another port where side a is the same.
assert_no_link_clash-Apart :
    (link : DirectLink) (others : List DirectLink)
    → (assert_no_link_clash link others ≡ ok tt) ↔ All (OtherApart link) others
unfolding assert_no_link_clash for_each
assert_no_link_clash-Apart link [] = ((λ h. tt), (λ h. refl))
assert_no_link_clash-Apart link (o ∷ os) =
    let here = clash_round-Apart link o in
    let rest = assert_no_link_clash-Apart link os in
    (
      (λ h.
          let (u, a, b) = >>=-eq-ok (clash_round link o tt) (for_each (clash_round link) os) tt h in
          (here.0 a, rest.0 b)),
      (λ h. rw (here.1 h.0) (rest.1 h.1)),
    )

find_net-All :
    (test : Text → Bool) (ns : List Text) → (find_net test ns ≡ none) ↔ All (λ n. test n ≡ false) ns
unfolding find_net
find_net-All test [] = ((λ h. tt), (λ h. refl))
find_net-All test (n ∷ ns) = elim (Bool-cases (test n)) [
  | inl e ↦ ((λ h. absurd (cc (rw (find_net, e) at h))), (λ h. absurd (cc (h.0))))
  | inr e ↦
      let rest = find_net-All test ns in
      ((λ h. (e, rest.0 (rw (find_net, e) at h))), (λ h. rw (find_net, e) (rest.1 h.1)))
]

-- No network of the mesh shares an address with the tunnel subnet or holds the endpoint.
pub record Clear (link : DirectLink) (nets : List Text) : Type 0 where
  pub subnet : All (λ n. ¬ Shares n link.tunnel_subnet) nets
  pub endpoint :
      (is_ipv4_literal link.endpoint_host ≡ false)
      ⊎ All (λ n. cidr_contains n (link.endpoint_host ++ codes "/32") ≡ false) nets

endpoint_iff :
    (link : DirectLink) (nets : List Text)
    → All (λ n. holds_endpoint link n ≡ false) nets ↔ (
        (is_ipv4_literal link.endpoint_host ≡ false)
        ⊎ All (λ n. cidr_contains n (link.endpoint_host ++ codes "/32") ≡ false) nets)
endpoint_iff link nets = elim (Bool-cases (is_ipv4_literal link.endpoint_host)) [
  | inl e ↦ rw e ((λ h. inr h), (λ h. elim h [ inl f ↦ absurd (cc) | inr k ↦ k ]))
  | inr e ↦ rw e ((λ h. inl refl), (λ h. All-every nets (λ n. refl)))
]

subnet_iff :
    (link : DirectLink) (nets : List Text)
    → All (λ n. meets_subnet link.tunnel_subnet n ≡ false) nets
      ↔ All (λ n. ¬ Shares n link.tunnel_subnet) nets
subnet_iff link nets =
    let one = λ (n : Text).
      false_iff (meets_subnet link.tunnel_subnet n) (either_contains_iff n link.tunnel_subnet) in
    ((λ h. All-map (λ n e. (one n).0 e) nets h), (λ h. All-map (λ n e. (one n).1 e) nets h))

direct_net_conflict-Clear :
    (link : DirectLink) (nets : List Text)
    → (direct_net_conflict link nets ≡ none) ↔ Clear link nets
unfolding direct_net_conflict
direct_net_conflict-Clear link nets =
    let first = find_net-All (meets_subnet link.tunnel_subnet) nets in
    let second = find_net-All (holds_endpoint link) nets in
    let subnet = subnet_iff link nets in
    let endpoint = endpoint_iff link nets in
    elim (Option-cases (find_net (meets_subnet link.tunnel_subnet) nets)) [
      | inr (n, e) ↦ (
        (λ h. absurd (cc (rw (direct_net_conflict, e) at h))),
        (λ h. absurd (cc (first.1 (subnet.1 h.subnet)))),
      )
      | inl e ↦ elim (Option-cases (find_net (holds_endpoint link) nets)) [
        | inr (n, f) ↦ (
          (λ h. absurd (cc (rw (direct_net_conflict, e, f) at h))),
          (λ h. absurd (cc (second.1 (endpoint.1 h.endpoint)))),
        )
        | inl f ↦ (
          (λ h. record { subnet = subnet.0 (first.0 e); endpoint = endpoint.0 (second.0 f) }),
          (λ h. rw (direct_net_conflict, e, f) refl),
        )
      ]
    ]

-- An enabled link fits the rest of the mesh.
pub record Fits (link : DirectLink) (ctx : Context) : Type 0 where
  pub agent_a : SideAgent
  pub agent_b : SideAgent
  pub site_a : Text
  pub site_b : Text
  pub has_a : ctx.agents link.agent_a_id ≡ some agent_a
  pub has_b : ctx.agents link.agent_b_id ≡ some agent_b
  pub bound_a : ctx.site_link_id_of agent_a ≡ some site_a
  pub bound_b : ctx.site_link_id_of agent_b ≡ some site_b
  pub differ : text_eq site_a site_b ≡ false
  pub allowed : ctx.isolated site_a site_b ≡ false
  pub reachable : nat_restricted_conflict link agent_a agent_b ≡ false
  pub clear : Clear link (ctx.site_nets ++ ctx.agent_tunnel_subnets)

check_agents_sound :
    (link : DirectLink) (ctx : Context) → check_agents link ctx ≡ ok tt → Fits link ctx
unfolding check_agents check_sites
check_agents_sound link ctx h = elim (Option-cases (ctx.agents link.agent_a_id)) [
  | inl n ↦ absurd (cc (rw (check_agents, n) at h))
  | inr (a, ea) ↦ elim (Option-cases (ctx.agents link.agent_b_id)) [
    | inl n ↦ absurd (cc (rw (check_agents, ea, n) at h))
    | inr (b, eb) ↦ elim (Option-cases (ctx.site_link_id_of a)) [
      | inl n ↦ absurd (cc (rw (check_agents, ea, eb, n) at h))
      | inr (la, fa) ↦ elim (Option-cases (ctx.site_link_id_of b)) [
        | inl n ↦ absurd (cc (rw (check_agents, ea, eb, fa, n) at h))
        | inr (lb, fb) ↦
            let h₀ = rw (check_agents, ea, eb, fa, fb) at h in
            let (d, h₁) = throw_if-eq-ok (text_eq la lb) _ _ tt h₀ in
            let (i, h₂) = throw_if-eq-ok (ctx.isolated la lb) _ _ tt h₁ in
            let (r, h₃) = throw_if-eq-ok (nat_restricted_conflict link a b) _ _ tt h₂ in
            let nets = ctx.site_nets ++ ctx.agent_tunnel_subnets in
            elim (Option-cases (direct_net_conflict link nets)) [
              | inr (t, e) ↦ absurd (cc (rw e at h₃))
              | inl e ↦ record {
                agent_a = a;
                agent_b = b;
                site_a = la;
                site_b = lb;
                has_a = ea;
                has_b = eb;
                bound_a = fa;
                bound_b = fb;
                differ = d;
                allowed = i;
                reachable = r;
                clear = (direct_net_conflict-Clear link nets).0 e;
              }
            ]
      ]
    ]
  ]
]

check_agents_complete :
    (link : DirectLink) (ctx : Context) → Fits link ctx → check_agents link ctx ≡ ok tt
unfolding check_agents check_sites
check_agents_complete link ctx k =
    rw
      (
        check_agents,
        k.has_a,
        k.has_b,
        k.bound_a,
        k.bound_b,
        k.differ,
        k.allowed,
        k.reachable,
        (direct_net_conflict-Clear link (ctx.site_nets ++ ctx.agent_tunnel_subnets)).1 k.clear,
      )
      refl

-- A link, enabled or not, is accepted exactly if each other link of another id shares no address of
-- its subnet, joins another pair of agents in either order, and has another port where side a is the
-- same agent, and, where the link is enabled, it joins two existing agents of different sites that
-- are not separated, no restricted side takes a partner that masquerades, and no network of the mesh
-- shares an address with its subnet or holds its endpoint, where that is an IPv4 address.
pub assert_direct_link_fits-Fits :
    (link : DirectLink) (ctx : Context)
    → (assert_direct_link_fits link ctx ≡ ok tt)
      ↔ (All (OtherApart link) ctx.others × (link.enabled ≡ true → Fits link ctx))
unfolding assert_direct_link_fits
assert_direct_link_fits-Fits link ctx =
    let others = assert_no_link_clash-Apart link ctx.others in
    (
      (λ h.
          let (u, a, b) = >>=-eq-ok (assert_no_link_clash link ctx.others) _ tt h in
          (
            others.0 a,
            (λ on. check_agents_sound link ctx (taken link.enabled (check_agents link ctx) on b)),
          )),
      (λ h. rw (others.1 h.0) (
          either link.enabled (check_agents link ctx)
            (λ on. check_agents_complete link ctx (h.1 on)))),
    )
  where
    taken :
        (b : Bool) (m : Result (Unit {0})) → b ≡ true → (if b then m else ok tt) ≡ ok tt → m ≡ ok tt
    taken true m on h = h
    taken false m on h = absurd (cc)

    either :
        (b : Bool) (m : Result (Unit {0}))
        → (b ≡ true → m ≡ ok tt)
        → (if b then m else ok tt) ≡ ok tt
    either true m h = h refl
    either false m h = refl
