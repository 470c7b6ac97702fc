-- ===== src/Catalog/Prune/Safe.antt =====
-- What may be offered: rules that are enabled, stale and not needed, and never the last one.
use floppyguard.Base.{
  ℕ, zero, suc, ◌+◌, ◌*◌, ◌≤◌, ◌<◌, ◌≡◌, ◌≢◌, refl, sym, ap, ◌∙◌, Bool, true, false, not, ◌&&◌,
  ◌||◌, Option, List, [], ◌∷◌, filter, length, length-map, length-filter-le, In, In-map, In-filter,
  ltb, ◌==◌, inl, inr, Bool-cases, and4_iff, arith, ◌⊎◌, none, some, any, all_iff, any_find,
  any_of_In, All_at, &&_iff, In-left, In-right,
}
use mathlib.Core.Bool.{false≢true}
use floppyguard.Base.Text.{Text, codes, text_eq}
use floppyguard.Cidr.{cidr_contains}
use floppyguard.Ingress.{Rule}
use floppyguard.Ingress.Cover.{Upstream, rule_covers, is_hub_sourced}
use floppyguard.Catalog.{to_unix_seconds}
use floppyguard.Catalog.Prune.{
  DatedRule, Unused, Candidate, PruneQuery, rule_reference_time, armed_time, is_stale, is_needed,
  is_unused, unused_of, stamp_of, later, sources_of_upstream, newest_from, newest_index, remove_at,
  keep_one, candidate_of, is_applied, prune_candidates,
}

-- A time that is known lies more than 30 days back.
abbrev pub IsOld : ℕ → Option ℕ → Type 0
IsOld now none = Unit
IsOld now (some t) = t + 30 * 24 * 3600 < now

-- A rule that may be switched off: it is enabled, it has sources and each lies in one of the hub's
-- own, its last hit, its creation and its arming are all more than 30 days back where they are known,
-- one of the last two is known, and no upstream behind the agent is covered from a source of the hub
-- or from its own.
pub record IsPrunable (date_parse : Text → Option ℕ) (q : PruneQuery) (d : DatedRule) : Type 0 where
  pub listed : In d q.rules
  pub enabled : (d.rule).enabled ≡ true
  pub sourced : (d.rule).sources ≢ []
  pub hub_sourced :
      (s : Text) → In s (d.rule).sources → (h : Text) × In h q.hub_srcs × (cidr_contains h s ≡ true)
  pub hit : IsOld q.now (to_unix_seconds date_parse (stamp_of (d.rule).last_hit_at))
  pub created : IsOld q.now (to_unix_seconds date_parse d.created_on)
  pub armed : IsOld q.now (to_unix_seconds date_parse (stamp_of (d.rule).armed_on))
  pub dated :
      (t : ℕ) × ((to_unix_seconds date_parse (stamp_of (d.rule).armed_on) ≡ some t)
        ⊎ (to_unix_seconds date_parse d.created_on ≡ some t))
  pub unneeded :
      (u : Upstream)
      → In u q.behind
      → (h : Text) → In h q.hub_srcs ⊎ (u.source ≡ some h)
      → rule_covers d.rule (record { src = h; dst = u.host; port = u.port; proto = u.proto })
        ≡ false

is_old : (now : ℕ) (a : Option ℕ) → is_stale now a ≡ true → IsOld now a
is_old now none h = tt
is_old now (some a) h = ground arith

IsOld-later : (now : ℕ) (a b : Option ℕ) → IsOld now (later a b) → IsOld now a × IsOld now b
IsOld-later now none b h = (tt, h)
IsOld-later now (some a) none h = (h, tt)
IsOld-later now (some a) (some b) h = ground arith

two_times :
    (now : ℕ) (armed created : Option ℕ)
    → is_stale now (elim armed [ none ↦ created | some t ↦ some t ]) ≡ true
    → (t : ℕ) × ((armed ≡ some t) ⊎ (created ≡ some t))
two_times now (some t) created h = (t, inl refl)
two_times now none (some t) h = (t, inr refl)
two_times now none none h = absurd (cc)

-- The tests that the filter makes, taken apart.
module _ (date_parse : Text → Option ℕ) (now : ℕ) (d : DatedRule) where
  rule_reference_time-is_stale :
      is_stale now (rule_reference_time date_parse d) ≡ true
      → IsOld now (to_unix_seconds date_parse (stamp_of (d.rule).last_hit_at))
        × IsOld now (to_unix_seconds date_parse d.created_on)
        × IsOld now (to_unix_seconds date_parse (stamp_of (d.rule).armed_on))
  unfolding rule_reference_time
  rule_reference_time-is_stale h =
      let (a, rest) =
        IsOld-later now (to_unix_seconds date_parse (stamp_of (d.rule).last_hit_at))
          (later (to_unix_seconds date_parse d.created_on)
            (to_unix_seconds date_parse (stamp_of (d.rule).armed_on)))
          (is_old now _ h) in
      let (b, c) =
        IsOld-later now (to_unix_seconds date_parse d.created_on)
          (to_unix_seconds date_parse (stamp_of (d.rule).armed_on)) rest in
      (a, b, c)

  armed_time-is_stale :
      is_stale now (armed_time date_parse d) ≡ true
      → (t : ℕ) × ((to_unix_seconds date_parse (stamp_of (d.rule).armed_on) ≡ some t)
          ⊎ (to_unix_seconds date_parse d.created_on ≡ some t))
  unfolding armed_time
  armed_time-is_stale h =
      two_times now (to_unix_seconds date_parse (stamp_of (d.rule).armed_on))
        (to_unix_seconds date_parse d.created_on) h

is_hub_sourced-In :
    (r : Rule) (hub_srcs : List Text)
    → is_hub_sourced r hub_srcs ≡ true
    → (r.sources ≢ [])
      × ((s : Text) → In s r.sources → (h : Text) × In h hub_srcs × (cidr_contains h s ≡ true))
unfolding is_hub_sourced
is_hub_sourced-In r hub_srcs e =
    let (full, each) = (&&_iff (not (length r.sources == 0)) _).0 e in
    let inside = (all_iff (λ s. any (λ h. cidr_contains h s) hub_srcs) r.sources).0 each in
    (
      (λ z. absurd (cc (rw z at full))),
      (λ s m. any_find (λ h. cidr_contains h s) hub_srcs (All_at _ s r.sources inside m)),
    )

In-sources_of_upstream :
    (hub_srcs : List Text) (u : Upstream) (h : Text)
    → In h hub_srcs ⊎ (u.source ≡ some h)
    → In h (sources_of_upstream hub_srcs u)
In-sources_of_upstream hub_srcs u h (inl m) = In-left h hub_srcs _ m
In-sources_of_upstream hub_srcs u h (inr e) = In-right h hub_srcs _ (rw e (inl refl))

is_needed-rule_covers :
    (r : Rule) (behind : List Upstream) (hub_srcs : List Text)
    → is_needed r behind hub_srcs ≡ false
    → (u : Upstream) → In u behind
    → (h : Text) → In h hub_srcs ⊎ (u.source ≡ some h)
    → rule_covers r (record { src = h; dst = u.host; port = u.port; proto = u.proto }) ≡ false
unfolding is_needed
is_needed-rule_covers r behind hub_srcs e u i h m =
    let covers : Upstream → Text → Bool =
      λ u h. rule_covers r (record { src = h; dst = u.host; port = u.port; proto = u.proto }) in
    let some_source : Upstream → Bool = λ u. any (covers u) (sources_of_upstream hub_srcs u) in
    elim (Bool-cases (covers u h)) [
      | inr f ↦ f
      | inl t ↦
          let found =
            any_of_In (covers u) h (sources_of_upstream hub_srcs u)
              (In-sources_of_upstream hub_srcs u h m) t in
          absurd (false≢true (sym e ∙ any_of_In some_source u behind i found))
    ]

In-remove_at : (x : Unused) (i : ℕ) (xs : List Unused) → In x (remove_at i xs) → In x xs
unfolding remove_at
In-remove_at x i [] m = m
In-remove_at x zero (c ∷ cs) m = inr m
In-remove_at x (suc i) (c ∷ cs) (inl e) = inl e
In-remove_at x (suc i) (c ∷ cs) (inr m) = inr (In-remove_at x i cs m)

In-keep_one :
    (x : Unused) (mode : Text) (n : ℕ) (xs : List Unused) → In x (keep_one mode n xs) → In x xs
unfolding keep_one
In-keep_one x mode n xs m =
    elim (Bool-cases
      (text_eq mode (codes "restricted") && not (length xs == 0) && length xs == n)) [
        | inl e ↦ In-remove_at x (newest_index xs) xs (rw (keep_one, e) at m)
        | inr e ↦ rw (keep_one, e) at m
      ]

newest_from-lt :
    (i best at : ℕ) (cs : List Unused) → at < i → newest_from i best at cs < i + length cs
unfolding newest_from
newest_from-lt i best at [] h = omega (arith, h)
newest_from-lt i best at (c ∷ cs) h = elim (Bool-cases (ltb best c.ref)) [
  | inl e ↦ rw e (omega (arith, newest_from-lt (suc i) c.ref i cs (omega arith)))
  | inr e ↦ rw e (omega (arith, newest_from-lt (suc i) best at cs (omega (arith, h))))
]

length-remove_at :
    (i : ℕ) (cs : List Unused) → i < length cs → suc (length (remove_at i cs)) ≡ length cs
unfolding remove_at
length-remove_at i [] h = absurd (omega (arith, h))
length-remove_at zero (c ∷ cs) h = refl
length-remove_at (suc i) (c ∷ cs) h = ap suc (length-remove_at i cs (omega (arith, h)))

newest_index-lt : (cs : List Unused) → cs ≢ [] → newest_index cs < length cs
newest_index-lt [] h = absurd (h refl)
newest_index-lt (c ∷ cs) h = omega (arith, newest_from-lt 1 c.ref 0 cs (omega arith))

length-keep_one :
    (mode : Text) (n : ℕ) (cs : List Unused)
    → text_eq mode (codes "restricted") ≡ true
    → length cs ≤ n
    → 0 < n
    → length (keep_one mode n cs) < n
unfolding keep_one
length-keep_one mode n [] e h pos = rw (keep_one, e) (omega (arith, pos))
length-keep_one mode n (c ∷ cs) e h pos = elim (Bool-cases (length (c ∷ cs) == n)) [
  | inl f ↦
      let shorter =
        length-remove_at (newest_index (c ∷ cs)) (c ∷ cs) (newest_index-lt (c ∷ cs) (λ g. cc)) in
      let same : length (c ∷ cs) ≡ n = ground arith in
      rw (keep_one, e, f) (ground (arith, shorter, same))
  | inr f ↦ rw (keep_one, e, f) (ground arith)
]

module _ (date_parse : Text → Option ℕ) (q : PruneQuery) where
  -- Each rule that is offered has the id of a listed one that is enabled, that has sources which all
  -- lie in the hub's own, whose last hit, creation and arming are more than 30 days back where they
  -- are known, and that covers no upstream behind the agent from a source of the hub or from the
  -- upstream's own source.
  pub prune_candidates-IsPrunable :
      (c : Candidate)
      → In c (prune_candidates date_parse q)
      → (d : DatedRule) × IsPrunable date_parse q d × ((d.rule).id ≡ c.id)
  unfolding prune_candidates unused_of
  prune_candidates-IsPrunable c m =
      elim (Bool-cases (not q.link_found || not (is_applied q.applied_state))) [
        | inl e ↦ absurd (rw (prune_candidates, e) at m)
        | inr e ↦
            let enabled = filter (λ d. (d.rule).enabled) q.rules in
            let (u, i, f) =
              (In-map candidate_of c
                  (keep_one q.mode (length enabled) (unused_of date_parse q enabled))).0
                (rw (prune_candidates, e) at m) in
            let j = In-keep_one u q.mode (length enabled) (unused_of date_parse q enabled) i in
            let (d, k, g) = (In-map _ u (filter (is_unused date_parse q) enabled)).0 j in
            let (on, t) = (In-filter (is_unused date_parse q) d enabled).0 k in
            let (l, live) = (In-filter (λ d. (d.rule).enabled) d q.rules).0 on in
            let tests = (and4_iff _ _ _ _).0 t in
            let (full, inside) = is_hub_sourced-In d.rule q.hub_srcs tests.0 in
            let (hit, created, armed) = rule_reference_time-is_stale date_parse q.now d tests.1 in
            (
              d,
              record {
                listed = l;
                enabled = live;
                sourced = full;
                hub_sourced = inside;
                hit = hit;
                created = created;
                armed = armed;
                dated = armed_time-is_stale date_parse q.now d tests.2;
                unneeded =
                    is_needed-rule_covers d.rule q.behind q.hub_srcs
                      (flip (is_needed d.rule q.behind q.hub_srcs) tests.3);
              },
              sym (ap (λ (x : Unused). (x.rule).id) g) ∙ sym (ap (λ (x : Candidate). x.id) f),
            )
      ]
    where
      flip : (b : Bool) → not b ≡ true → b ≡ false
      flip true h = absurd (cc)
      flip false h = refl

  -- In restricted mode fewer rules are offered than are enabled: switching all of them off
  -- leaves one.
  pub prune_candidates-lt :
      text_eq q.mode (codes "restricted") ≡ true
      → 0 < length (filter (λ d. (d.rule).enabled) q.rules)
      → length (prune_candidates date_parse q) < length (filter (λ d. (d.rule).enabled) q.rules)
  unfolding prune_candidates unused_of
  prune_candidates-lt restricted some_on =
      let enabled = filter (λ d. (d.rule).enabled) q.rules in
      let few : length (unused_of date_parse q enabled) ≤ length enabled =
        rw (length-map _ (filter (is_unused date_parse q) enabled))
          (length-filter-le (is_unused date_parse q) enabled) in
      elim (Bool-cases (not q.link_found || not (is_applied q.applied_state))) [
        | inl e ↦ rw (prune_candidates, e) some_on
        | inr e ↦
            rw
              (
                prune_candidates,
                e,
                length-map candidate_of
                    (keep_one q.mode (length enabled) (unused_of date_parse q enabled)),
              )
              (length-keep_one q.mode (length enabled) (unused_of date_parse q enabled) restricted
                few some_on)
      ]
