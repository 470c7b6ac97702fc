-- ===== src/SiteIsolation/Nets.antt =====
-- The networks of one site: no two of them meet, they are sorted, and together they hold the
-- addresses of the raw list.
use floppyguard.Base.{
  ◌≡◌, ◌↔◌, ◌⊎◌, sym, Bool, true, false, List, [], ◌∷◌, ◌++◌, filter, In, In-append, In-filter,
  Distinct, Distinct-append_one, inl, inr, Bool-cases, arith,
}
use floppyguard.Base.Text.{Text, includes}
use floppyguard.Base.Text.Laws.{includes_iff}
use floppyguard.SiteIsolation.{add_unique, uniq_onto, before, insert_net, sort_nets}

In-add_unique :
    (c : Text) (out : List Text) (t : Text) → In c (add_unique out t) ↔ (In c out ⊎ (c ≡ t))
unfolding add_unique
In-add_unique c out t = elim (Bool-cases (includes out t)) [
  | inl old ↦
      rw old ((λ m. inl m), (λ m. elim m [ inl a ↦ a | inr e ↦ rw e ((includes_iff out t).0 old) ]))
  | inr new ↦ rw new (
    (λ m. elim ((In-append c out (t ∷ [])).0 m) [
      | inl a ↦ inl a
      | inr b ↦ elim b [ inl e ↦ inr e | inr z ↦ absurd z ]
    ]),
    (λ m. (In-append c out (t ∷ [])).1 (elim m [ inl a ↦ inl a | inr e ↦ inr (inl e) ])),
  )
]

pub In-uniq_onto : (c : Text) (out ts : List Text) → In c (uniq_onto out ts) ↔ (In c out ⊎ In c ts)
unfolding uniq_onto
In-uniq_onto c out [] = ((λ m. inl m), (λ m. elim m [ inl a ↦ a | inr z ↦ absurd z ]))
In-uniq_onto c out (t ∷ ts) =
    let step = In-add_unique c out t in
    let rest = In-uniq_onto c (add_unique out t) ts in
    (
      (λ m. elim (rest.0 m) [
        | inl a ↦ elim (step.0 a) [ inl o ↦ inl o | inr e ↦ inr (inl e) ]
        | inr b ↦ inr (inr b)
      ]),
      (λ m. rest.1 (elim m [
        | inl a ↦ inl (step.1 (inl a))
        | inr b ↦ elim b [ inl e ↦ inl (step.1 (inr e)) | inr i ↦ inr i ]
      ])),
    )

pub Distinct-uniq_onto : (out ts : List Text) → Distinct out → Distinct (uniq_onto out ts)
unfolding uniq_onto add_unique
Distinct-uniq_onto out [] d = d
Distinct-uniq_onto out (t ∷ ts) d = elim (Bool-cases (includes out t)) [
  | inl old ↦ rw old (Distinct-uniq_onto out ts d)
  | inr new ↦ rw new (
      Distinct-uniq_onto (out ++ t ∷ []) ts
        (Distinct-append_one out t d (λ m. cc ((includes_iff out t).1 m))))
]

In-insert_net : (c n : Text) (ms : List Text) → In c (insert_net n ms) ↔ ((c ≡ n) ⊎ In c ms)
unfolding insert_net
In-insert_net c n [] = ((λ m. m), (λ m. m))
In-insert_net c n (m ∷ ms) = elim (Bool-cases (before n m)) [
  | inl e ↦ rw e ((λ i. i), (λ i. i))
  | inr e ↦ rw e (
    (λ i. elim i [
      | inl q ↦ inr (inl q)
      | inr r ↦ elim ((In-insert_net c n ms).0 r) [ inl a ↦ inl a | inr b ↦ inr (inr b) ]
    ]),
    (λ i. elim i [
      | inl q ↦ inr ((In-insert_net c n ms).1 (inl q))
      | inr r ↦ elim r [ inl a ↦ inl a | inr b ↦ inr ((In-insert_net c n ms).1 (inr b)) ]
    ]),
  )
]

pub In-sort_nets : (c : Text) (ns : List Text) → In c (sort_nets ns) ↔ In c ns
unfolding sort_nets
In-sort_nets c [] = ((λ m. m), (λ m. m))
In-sort_nets c (n ∷ ns) =
    let step = In-insert_net c n (sort_nets ns) in
    let rest = In-sort_nets c ns in
    (
      (λ m. elim (step.0 m) [ inl e ↦ inl e | inr i ↦ inr (rest.0 i) ]),
      (λ m. step.1 (elim m [ inl e ↦ inl e | inr i ↦ inr (rest.1 i) ])),
    )

Distinct-insert_net :
    (n : Text) (ms : List Text) → Distinct ms → ¬ In n ms → Distinct (insert_net n ms)
unfolding insert_net
Distinct-insert_net n [] d new = ((λ m. m), tt)
Distinct-insert_net n (m ∷ ms) d new = elim (Bool-cases (before n m)) [
  | inl e ↦ rw e (new, d)
  | inr e ↦ rw e (
    (λ i. elim ((In-insert_net m n ms).0 i) [ inl q ↦ new (inl (sym q)) | inr r ↦ d.0 r ]),
    Distinct-insert_net n ms d.1 (λ i. new (inr i)),
  )
]

pub Distinct-sort_nets : (ns : List Text) → Distinct ns → Distinct (sort_nets ns)
unfolding sort_nets
Distinct-sort_nets [] d = tt
Distinct-sort_nets (n ∷ ns) d =
    Distinct-insert_net n (sort_nets ns) (Distinct-sort_nets ns d.1)
      (λ m. d.0 ((In-sort_nets n ns).0 m))

pub Distinct-filter : (p : Text → Bool) (ns : List Text) → Distinct ns → Distinct (filter p ns)
unfolding filter
Distinct-filter p [] d = tt
Distinct-filter p (n ∷ ns) d = elim (Bool-cases (p n)) [
  | inl e ↦ rw e ((λ m. d.0 ((In-filter p n ns).0 m).0), Distinct-filter p ns d.1)
  | inr e ↦ rw e (Distinct-filter p ns d.1)
]

-- Each entry stands before the next in the order of the sort.
abbrev pub Sorted : List Text → Type 0
Sorted [] = Unit
Sorted (n ∷ []) = Unit
Sorted (n ∷ m ∷ ms) = (before n m ≡ true) × Sorted (m ∷ ms)

before_total : (x y : Text) → before x y ≡ false → before y x ≡ true
unfolding before
before_total x y h = ground arith

Sorted-insert_net : (n : Text) (ms : List Text) → Sorted ms → Sorted (insert_net n ms)
unfolding insert_net
Sorted-insert_net n [] s = tt
Sorted-insert_net n (m ∷ []) s = elim (Bool-cases (before n m)) [
  | inl e ↦ rw e (e, tt)
  | inr e ↦ rw e (before_total n m e, tt)
]
Sorted-insert_net n (m ∷ k ∷ ms) s = elim (Bool-cases (before n m)) [
  | inl e ↦ rw e (e, s)
  | inr e ↦
      let rest = Sorted-insert_net n (k ∷ ms) s.1 in
      elim (Bool-cases (before n k)) [
        | inl f ↦ rw (e, f) (before_total n m e, (f, s.1))
        | inr f ↦ rw (e, f) (s.0, rw f at rest)
      ]
]

pub Sorted-sort_nets : (ns : List Text) → Sorted (sort_nets ns)
unfolding sort_nets
Sorted-sort_nets [] = tt
Sorted-sort_nets (n ∷ ns) = Sorted-insert_net n (sort_nets ns) (Sorted-sort_nets ns)
