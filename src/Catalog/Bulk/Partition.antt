-- ===== src/Catalog/Bulk/Partition.antt =====
-- `bulkDedupe`: each entry goes one way, and nothing is created twice.
use floppyguard.Base.{
  ℕ, suc, ◌+◌, ◌≡◌, ◌≢◌, ◌↔◌, refl, sym, ap, ◌∙◌, Bool, true, false, not, Option, none, some, List,
  [], ◌∷◌, ◌++◌, All, All-append, All-map, length, length-append, inl, inr, Bool-cases,
  Option-cases, and3_iff, if◌then◌else◌, arith,
}
use floppyguard.Base.Text.{Text}
use floppyguard.Base.Text.Laws.{text_eq_iff}
use floppyguard.Ingress.{Rule}
use floppyguard.Catalog.Bulk.{
  Target, target_of_rule, TargetKey, target_key, texts_eq, key_eq, KeyMap, id_at, index_rules,
  Dedupe, dedupe_entry, dedupe_from, bulk_dedupe,
}

texts_eq_iff : (ss ts : List Text) → (texts_eq ss ts ≡ true) ↔ (ss ≡ ts)
unfolding texts_eq
texts_eq_iff [] [] = ((λ h. refl), (λ h. refl))
texts_eq_iff [] (t ∷ ts) = ((λ h. cc), (λ h. cc))
texts_eq_iff (s ∷ ss) [] = ((λ h. cc), (λ h. cc))
texts_eq_iff (s ∷ ss) (t ∷ ts) = ground (arith, text_eq_iff s t, texts_eq_iff ss ts)

key_of_fields :
    {a b c a' b' c' : List Text}
    → a ≡ a'
    → b ≡ b'
    → c ≡ c'
    → Path TargetKey
        (record { sources = a; destinations = b; ports = c })
        (record { sources = a'; destinations = b'; ports = c' })
key_of_fields e f g = cc

key_eq_iff : (a b : TargetKey) → (key_eq a b ≡ true) ↔ (a ≡ b)
unfolding key_eq
key_eq_iff a b = (
  (λ h.
      let parts =
        (and3_iff (texts_eq a.sources b.sources) (texts_eq a.destinations b.destinations)
            (texts_eq a.ports b.ports)).0
          h in
      key_of_fields ((texts_eq_iff a.sources b.sources).0 parts.0)
        ((texts_eq_iff a.destinations b.destinations).0 parts.1)
        ((texts_eq_iff a.ports b.ports).0 parts.2)),
  (λ e.
      (and3_iff (texts_eq a.sources b.sources) (texts_eq a.destinations b.destinations)
          (texts_eq a.ports b.ports)).1
        (
          (texts_eq_iff a.sources b.sources).1 (ap (λ (k : TargetKey). k.sources) e),
          (texts_eq_iff a.destinations b.destinations).1 (ap (λ (k : TargetKey). k.destinations) e),
          (texts_eq_iff a.ports b.ports).1 (ap (λ (k : TargetKey). k.ports) e),
        )),
)

id_at-append :
    (m : KeyMap) (e : TargetKey × Option ℕ) (k : TargetKey)
    → id_at (m ++ e ∷ []) k ≡ none
    → (id_at m k ≡ none) × (key_eq e.0 k ≡ false)
unfolding id_at
id_at-append [] e k h = elim (Bool-cases (key_eq e.0 k)) [
  | inl y ↦ absurd (cc (rw y at h))
  | inr n ↦ (refl, n)
]
id_at-append (f ∷ m) e k h = elim (Bool-cases (key_eq f.0 k)) [
  | inl y ↦ absurd (cc (rw y at h))
  | inr n ↦ rw n (id_at-append m e k (rw n at h))
]

-- A key that the map of one state lacks belongs to no rule of that state.
index_rules-none :
    (on : Bool) (rs : List Rule) (m : KeyMap) (k : TargetKey)
    → id_at (index_rules on rs m) k ≡ none
    → (id_at m k ≡ none)
      × All (λ r. r.enabled ≡ on → key_eq (target_key (target_of_rule r)) k ≡ false) rs
unfolding index_rules
index_rules-none on [] m k h = (h, tt)
index_rules-none on (r ∷ rs) m k h = elim (Option-cases (id_at m (target_key (target_of_rule r)))) [
  | inr (i, e) ↦
      let rest = index_rules-none on rs m k (rw (index_rules, e) at h) in
      (
        rest.0,
        (
          (λ _. elim (Bool-cases (key_eq (target_key (target_of_rule r)) k)) [
            | inr n ↦ n
            | inl y ↦ absurd (
                cc (
                  sym e
                  ∙ ap (id_at m) ((key_eq_iff (target_key (target_of_rule r)) k).0 y)
                  ∙ rest.0))
          ]),
          rest.1,
        ),
      )
  | inl e ↦ elim (Bool-cases (if on then r.enabled else not r.enabled)) [
    | inl add ↦
        let rest =
          index_rules-none on rs (m ++ (target_key (target_of_rule r), some r.id) ∷ []) k
            (rw (index_rules, e, add) at h) in
        let back = id_at-append m (target_key (target_of_rule r), some r.id) k rest.0 in
        (back.0, ((λ _. back.1), rest.1))
    | inr skip ↦
        let rest = index_rules-none on rs m k (rw (index_rules, e, skip) at h) in
        (rest.0, ((λ f. absurd (wrong on r.enabled f skip)), rest.1))
  ]
]
  where
    wrong : (on b : Bool) → b ≡ on → (if on then b else not b) ≡ false → ⊥
    wrong true b e f = cc
    wrong false b e f = ground arith

-- The maps of the rules hold an id for each key.
append-full :
    (m : KeyMap) (j : TargetKey) (i : ℕ) (k : TargetKey)
    → id_at m k ≢ some none
    → id_at (m ++ (j, some i) ∷ []) k ≢ some none
unfolding id_at
append-full [] j i k h = elim (Bool-cases (key_eq j k)) [
  | inl y ↦ rw y (λ e. cc)
  | inr n ↦ rw n (λ e. cc)
]
append-full (f ∷ m) j i k h = elim (Bool-cases (key_eq f.0 k)) [
  | inl y ↦ rw y (rw y at h)
  | inr n ↦ rw n (append-full m j i k (rw n at h))
]

empty_full : (k : TargetKey) → id_at [] k ≢ some none
unfolding id_at
empty_full k e = cc

index_rules-full :
    (on : Bool) (rs : List Rule) (m : KeyMap) (k : TargetKey)
    → id_at m k ≢ some none
    → id_at (index_rules on rs m) k ≢ some none
unfolding index_rules
index_rules-full on [] m k h = h
index_rules-full on (r ∷ rs) m k h = elim (Option-cases (id_at m (target_key (target_of_rule r)))) [
  | inr (i, e) ↦ rw (index_rules, e) (index_rules-full on rs m k h)
  | inl e ↦ elim (Bool-cases (if on then r.enabled else not r.enabled)) [
    | inl add ↦
        rw (index_rules, e, add)
          (index_rules-full on rs (m ++ (target_key (target_of_rule r), some r.id) ∷ []) k
            (append-full m (target_key (target_of_rule r)) r.id k h))
    | inr skip ↦ rw (index_rules, e, skip) (index_rules-full on rs m k h)
  ]
]

cons-none :
    (j : TargetKey) (v : Option ℕ) (m : KeyMap) (k : TargetKey)
    → id_at ((j, v) ∷ m) k ≡ none
    → (id_at m k ≡ none) × (key_eq j k ≡ false)
unfolding id_at
cons-none j v m k h = elim (Bool-cases (key_eq j k)) [
  | inl y ↦ absurd (cc (rw y at h))
  | inr n ↦ (rw n at h, n)
]

cons_self : (j : TargetKey) (v : Option ℕ) (m : KeyMap) → id_at ((j, v) ∷ m) j ≡ none → ⊥
cons_self j v m h = cc ((cons-none j v m j h).1, (key_eq_iff j j).1 refl)

-- No two created entries have the same targets.
abbrev pub Apart : List (ℕ × Target) → Type 0
Apart [] = Unit
Apart (e ∷ es) =
    All (λ (f : ℕ × Target). key_eq (target_key e.1) (target_key f.1) ≡ false) es × Apart es

Apart-append_one :
    (es : List (ℕ × Target)) (f : ℕ × Target)
    → Apart es
    → All (λ (e : ℕ × Target). key_eq (target_key e.1) (target_key f.1) ≡ false) es
    → Apart (es ++ f ∷ [])
Apart-append_one [] f a h = (tt, tt)
Apart-append_one (e ∷ es) f a h = (
  All-append (λ (g : ℕ × Target). key_eq (target_key e.1) (target_key g.1) ≡ false) es (f ∷ []) a.0
      (h.0, tt),
  Apart-append_one es f a.1 h.1,
)

module _ (on_map disabled : KeyMap) (full : (k : TargetKey) → id_at disabled k ≢ some none) where
  record Fresh (d : Dedupe) : Type 0 where
    covers : (k : TargetKey) → id_at d.seen k ≡ none → id_at on_map k ≡ none
    made :
        All
          (λ (e : ℕ × Target).
            (id_at on_map (target_key e.1) ≡ none) × (id_at disabled (target_key e.1) ≡ none))
          d.create
    kept : All (λ (e : ℕ × Target). id_at d.seen (target_key e.1) ≢ none) d.create
    apart : Apart d.create

  apart_from_seen :
      (seen : KeyMap) (k : TargetKey) (es : List (ℕ × Target))
      → id_at seen k ≡ none
      → All (λ (e : ℕ × Target). id_at seen (target_key e.1) ≢ none) es
      → All (λ (e : ℕ × Target). key_eq (target_key e.1) k ≡ false) es
  apart_from_seen seen k es n h =
      All-map
        (λ e p. elim (Bool-cases (key_eq (target_key e.1) k)) [
          | inr q ↦ q
          | inl q ↦ absurd (p (ap (id_at seen) ((key_eq_iff (target_key e.1) k).0 q) ∙ n))
        ])
        es h

  still_kept :
      (j : TargetKey) (v : Option ℕ) (seen : KeyMap) (es : List (ℕ × Target))
      → All (λ (e : ℕ × Target). id_at seen (target_key e.1) ≢ none) es
      → All (λ (e : ℕ × Target). id_at ((j, v) ∷ seen) (target_key e.1) ≢ none) es
  still_kept j v seen es h = All-map (λ e p q. p (cons-none j v seen (target_key e.1) q).0) es h

  entry-Fresh : (i : ℕ) (t : Target) (d : Dedupe) → Fresh d → Fresh (dedupe_entry disabled i t d)
  unfolding dedupe_entry
  entry-Fresh i t d f =
      let k = target_key t in
      elim (Option-cases (id_at d.seen k)) [
        | inr (known, e) ↦
            rw (dedupe_entry, e)
              (record { covers = f.covers; made = f.made; kept = f.kept; apart = f.apart })
        | inl e ↦ elim (Option-cases (id_at disabled k)) [
          | inl n ↦
              rw (dedupe_entry, e, n)
                (record {
                  covers = λ j h. f.covers j (cons-none k none d.seen j h).0;
                  made =
                      All-append
                        (λ (x : ℕ × Target).
                          (id_at on_map (target_key x.1) ≡ none)
                          × (id_at disabled (target_key x.1) ≡ none))
                        d.create ((i, t) ∷ []) f.made ((f.covers k e, n), tt);
                  kept =
                      All-append
                        (λ (x : ℕ × Target). id_at ((k, none) ∷ d.seen) (target_key x.1) ≢ none)
                        d.create ((i, t) ∷ []) (still_kept k none d.seen d.create f.kept)
                        ((λ h. cons_self k none d.seen h), tt);
                  apart =
                      Apart-append_one d.create (i, t) f.apart
                        (apart_from_seen d.seen k d.create e f.kept);
                })
          | inr (o, n) ↦ elim (Option-cases o) [
            | inl z ↦ absurd (full k (n ∙ ap some z))
            | inr (id, z) ↦
                rw (dedupe_entry, e, n, z)
                  (record {
                    covers = λ j h. f.covers j (cons-none k (some id) d.seen j h).0;
                    made = f.made;
                    kept = still_kept k (some id) d.seen d.create f.kept;
                    apart = f.apart;
                  })
          ]
        ]
      ]

  from-Fresh :
      (i : ℕ) (ts : List Target) (d : Dedupe) → Fresh d → Fresh (dedupe_from disabled i ts d)
  unfolding dedupe_from
  from-Fresh i [] d f = f
  from-Fresh i (t ∷ ts) d f =
      from-Fresh (suc i) ts (dedupe_entry disabled i t d) (entry-Fresh i t d f)

abbrev pub total : Dedupe → ℕ
total d = length d.create + length d.reenable + length d.skipped

entry-total :
    (disabled : KeyMap) (i : ℕ) (t : Target) (d : Dedupe)
    → total (dedupe_entry disabled i t d) ≡ suc (total d)
unfolding dedupe_entry
entry-total disabled i t d =
    let k = target_key t in
    elim (Option-cases (id_at d.seen k)) [
      | inr (known, e) ↦
          rw (dedupe_entry, e) (omega (arith, length-append d.skipped ((i, known) ∷ [])))
      | inl e ↦ elim (Option-cases (id_at disabled k)) [
        | inl n ↦ rw (dedupe_entry, e, n) (omega (arith, length-append d.create ((i, t) ∷ [])))
        | inr (o, n) ↦ elim (Option-cases o) [
          | inl z ↦ rw (dedupe_entry, e, n, z) (omega (arith, length-append d.create ((i, t) ∷ [])))
          | inr (id, z) ↦
              rw (dedupe_entry, e, n, z) (omega (arith, length-append d.reenable ((i, id) ∷ [])))
        ]
      ]
    ]

from-total :
    (disabled : KeyMap) (i : ℕ) (ts : List Target) (d : Dedupe)
    → total (dedupe_from disabled i ts d) ≡ length ts + total d
unfolding dedupe_from
from-total disabled i [] d = omega arith
from-total disabled i (t ∷ ts) d = omega (
  arith,
  from-total disabled (suc i) ts (dedupe_entry disabled i t d),
  entry-total disabled i t d,
)

-- What the answer promises.
pub record IsPartition (existing : List Rule) (clean : List Target) (d : Dedupe) : Type 0 where
  pub counted : total d ≡ length clean
  pub new :
      All
        (λ (e : ℕ × Target).
          All (λ r. key_eq (target_key (target_of_rule r)) (target_key e.1) ≡ false) existing)
        d.create
  pub apart : Apart d.create

by_state :
    (k : TargetKey) (rs : List Rule)
    → All (λ r. r.enabled ≡ true → key_eq (target_key (target_of_rule r)) k ≡ false) rs
    → All (λ r. r.enabled ≡ false → key_eq (target_key (target_of_rule r)) k ≡ false) rs
    → All (λ r. key_eq (target_key (target_of_rule r)) k ≡ false) rs
by_state k [] a b = tt
by_state k (r ∷ rs) a b =
    (elim (Bool-cases r.enabled) [ inl e ↦ a.0 e | inr e ↦ b.0 e ], by_state k rs a.1 b.1)

-- Each entry of a bulk request is created, switches a rule back on or is skipped. No created entry
-- has the targets of an existing rule, and no two created entries have the same targets.
pub bulk_dedupe-IsPartition :
    (existing : List Rule) (clean : List Target)
    → IsPartition existing clean (bulk_dedupe existing clean)
unfolding bulk_dedupe
bulk_dedupe-IsPartition existing clean =
    let on_map = index_rules true existing [] in
    let disabled = index_rules false existing [] in
    let start : Dedupe = record { seen = on_map; create = []; reenable = []; skipped = [] } in
    let fresh =
      from-Fresh on_map disabled (λ k. index_rules-full false existing [] k (empty_full k)) 0 clean
        start (record { covers = λ k h. h; made = tt; kept = tt; apart = tt }) in
    record {
      counted = omega (arith, from-total disabled 0 clean start);
      new =
          All-map
            (λ e p.
              by_state (target_key e.1) existing
                (index_rules-none true existing [] (target_key e.1) p.0).1
                (index_rules-none false existing [] (target_key e.1) p.1).1)
            (bulk_dedupe existing clean).create fresh.made;
      apart = fresh.apart;
    }
