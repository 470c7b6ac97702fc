-- ===== src/DirectLink/Peers.antt =====
-- `directPeerNets`: the networks that go through a direct link.
pub mod Sorted
use floppyguard.Base.{
  ◌≡◌, ◌↔◌, refl, sym, Bool, true, false, not, ◌&&◌, List, [], ◌∷◌, filter, any, In, In-filter,
  Distinct, inl, inr, Bool-cases, &&_iff, if◌then◌else◌,
}
use floppyguard.Base.Text.{Text, includes}
use floppyguard.Base.Text.Laws.{includes_iff}
use floppyguard.SiteIsolation.{text_lt, uniq_onto}
use floppyguard.SiteIsolation.Nets.{In-uniq_onto, Distinct-uniq_onto}
use floppyguard.DirectLink.{meets_subnet}

-- `texts.sort()` compares code units.
unfoldable pub insert_text : Text → List Text → List Text
insert_text t [] = t ∷ []
insert_text t (u ∷ us) = let rest = insert_text t us in if text_lt u t then u ∷ rest else t ∷ u ∷ us

unfoldable pub sort_texts : List Text → List Text
unfolding insert_text
sort_texts [] = []
sort_texts (t ∷ ts) = insert_text t (sort_texts ts)

abbrev pub peer_net : List Text → List Text → Text → Bool
peer_net partner own n = includes partner n && not (any (meets_subnet n) own)

unfoldable pub direct_peer_nets : List Text → List Text → List Text → List Text
unfolding sort_texts uniq_onto filter
direct_peer_nets other_site partner own =
    sort_texts (uniq_onto [] (filter (peer_net partner own) other_site))

In-insert_text : (c t : Text) (us : List Text) → In c (insert_text t us) ↔ In c (t ∷ us)
unfolding insert_text
In-insert_text c t [] = ((λ m. m), (λ m. m))
In-insert_text c t (u ∷ us) = elim (Bool-cases (text_lt u t)) [
  | inr e ↦ rw e ((λ i. i), (λ i. i))
  | inl e ↦ rw e (
    (λ i. elim i [
      | inl f ↦ inr (inl f)
      | inr j ↦ elim ((In-insert_text c t us).0 j) [ inl a ↦ inl a | inr b ↦ inr (inr b) ]
    ]),
    (λ i. elim i [
      | inl f ↦ inr ((In-insert_text c t us).1 (inl f))
      | inr j ↦ elim j [ inl a ↦ inl a | inr b ↦ inr ((In-insert_text c t us).1 (inr b)) ]
    ]),
  )
]

pub In-sort_texts : (c : Text) (ts : List Text) → In c (sort_texts ts) ↔ In c ts
unfolding sort_texts
In-sort_texts c [] = ((λ m. m), (λ m. m))
In-sort_texts c (t ∷ ts) =
    let step = In-insert_text c t (sort_texts ts) in
    let rest = In-sort_texts c ts in
    (
      (λ m. elim (step.0 m) [ inl e ↦ inl e | inr i ↦ inr (rest.0 i) ]),
      (λ m. step.1 (elim m [ inl e ↦ inl e | inr i ↦ inr (rest.1 i) ])),
    )

Distinct-insert_text :
    (t : Text) (us : List Text) → Distinct us → ¬ In t us → Distinct (insert_text t us)
unfolding insert_text
Distinct-insert_text t [] d new = ((λ m. m), tt)
Distinct-insert_text t (u ∷ us) d new = elim (Bool-cases (text_lt u t)) [
  | inr e ↦ rw e (new, d)
  | inl e ↦ rw e (
    (λ i. elim ((In-insert_text u t us).0 i) [ inl f ↦ new (inl (sym f)) | inr j ↦ d.0 j ]),
    Distinct-insert_text t us d.1 (λ i. new (inr i)),
  )
]

Distinct-sort_texts : (ts : List Text) → Distinct ts → Distinct (sort_texts ts)
unfolding sort_texts
Distinct-sort_texts [] d = tt
Distinct-sort_texts (t ∷ ts) d =
    Distinct-insert_text t (sort_texts ts) (Distinct-sort_texts ts d.1)
      (λ m. d.0 ((In-sort_texts t ts).0 m))

-- Each network stands once in the list, and the list holds exactly the networks of the agent's
-- reach that the partner exports and that meet none of its own.
pub direct_peer_nets-In :
    (other_site partner own : List Text)
    → Distinct (direct_peer_nets other_site partner own)
      × ((n : Text)
          → In n (direct_peer_nets other_site partner own)
            ↔ (In n other_site × In n partner × (any (meets_subnet n) own ≡ false)))
unfolding direct_peer_nets
direct_peer_nets-In other_site partner own =
    let kept = filter (peer_net partner own) other_site in
    (
      Distinct-sort_texts (uniq_onto [] kept) (Distinct-uniq_onto [] kept tt),
      (λ n. (
        (λ m.
            let k : In n kept =
              elim ((In-uniq_onto n [] kept).0 ((In-sort_texts n (uniq_onto [] kept)).0 m)) [
                | inl z ↦ absurd z
                | inr i ↦ i
              ] in
            let (i, q) = (In-filter (peer_net partner own) n other_site).0 k in
            let (a, b) = (&&_iff (includes partner n) (not (any (meets_subnet n) own))).0 q in
            (i, (includes_iff partner n).0 a, flip (any (meets_subnet n) own) b)),
        (λ (i, p, f). (In-sort_texts n (uniq_onto [] kept)).1 (
            (In-uniq_onto n [] kept).1 (
              inr (
                (In-filter (peer_net partner own) n other_site).1 (
                  i,
                  both (includes partner n) (any (meets_subnet n) own)
                      ((includes_iff partner n).1 p) f,
                ))))),
      )),
    )
  where
    flip : (b : Bool) → not b ≡ true → b ≡ false
    flip true h = absurd (cc)
    flip false h = refl

    both : (b c : Bool) → b ≡ true → c ≡ false → (b && not c) ≡ true
    both true false h k = refl
    both true true h k = absurd (cc)
    both false c h k = absurd (cc)
