-- ===== src/SiteIsolation/Raw.antt =====
-- The entries that the two loops of `siteNetworks` collect.
use mathlib.Core.Path.{subst}
use floppyguard.Base.{
  ◌≡◌, ◌↔◌, ◌⊎◌, refl, sym, ap, ◌∙◌, true, false, some, List, [], ◌∷◌, In, In-append, length, ◌==◌,
  inl, inr, Bool-cases, Option-cases, if◌then◌else◌,
}
use floppyguard.Base.Text.{Text, codes}
use floppyguard.Cidr.{canonical_cidr}
use floppyguard.Cidr.Canonical.{canonical_cidr_idempotent}
use floppyguard.Ingress.{echo_value}
use floppyguard.SiteIsolation.{
  Link, Networks, invalid, skip, has_code, ends_with, prefix_of, host_text, imported_round,
  tunnel_round, each_text, raw_networks,
}

some_inj : {a b : Text} → some a ≡ some b → a ≡ b
some_inj e = cc

-- An imported network counts when it is no IPv6 network, is valid and has a prefix of 1 at least.
pub record Imported (v c : Text) : Type 0 where
  pub ipv4 : has_code b':' v ≡ false
  pub canonical : canonical_cidr v ≡ some c
  pub narrow : (prefix_of c == 0) ≡ false

-- A tunnel address counts when it is one host, with or without its prefix.
pub record Tunnel (s c : Text) : Type 0 where
  pub canonical : canonical_cidr (host_text s) ≡ some c
  pub host : ends_with (codes "/32") c ≡ true

-- A network of the site, from the fields of the link.
abbrev pub Source : Link → Text → Type 0
Source l c =
    ((v : Text) × In v l.imported_networks × Imported v c)
    ⊎ ((s : Text) × In s l.tunnel_addresses × Tunnel s c)

In-imported_round :
    (v c : Text) (n : Networks) → In c (imported_round v n).nets ↔ (In c n.nets ⊎ Imported v c)
unfolding imported_round
In-imported_round v c n = elim (Bool-cases (has_code b':' v)) [
  | inl six ↦ rw six ((λ m. inl m), (λ m. elim m [ inl a ↦ a | inr i ↦ absurd (cc (i.ipv4)) ]))
  | inr four ↦ rw four (elim (Option-cases (canonical_cidr v)) [
    | inl bad ↦
        rw bad ((λ m. inl m), (λ m. elim m [ inl a ↦ a | inr i ↦ absurd (cc (i.canonical)) ]))
    | inr (k, e) ↦ rw e (elim (Bool-cases (prefix_of k == 0)) [
      | inl wide ↦ rw wide (
        (λ m. inl m),
        (λ m. elim m [
          | inl a ↦ a
          | inr i ↦ let same : k ≡ c = some_inj (sym e ∙ i.canonical) in absurd (cc (i.narrow))
        ]),
      )
      | inr narrow ↦ rw narrow (
        (λ m. elim ((In-append c n.nets (k ∷ [])).0 m) [
          | inl a ↦ inl a
          | inr b ↦ elim b [
            | inl q ↦
                inr (record { ipv4 = four; canonical = e ∙ ap some (sym q); narrow = rw q narrow })
            | inr z ↦ absurd z
          ]
        ]),
        (λ m.
            (In-append c n.nets (k ∷ [])).1 (elim m [
              | inl a ↦ inl a
              | inr i ↦ inr (inl (sym (some_inj (sym e ∙ i.canonical))))
            ])),
      )
    ])
  ])
]

-- What a refused address leaves: the networks as they were.
unchanged :
    (c s : Text) (n : Networks)
    → ¬ Tunnel s c
    → In c (if length s == 0 then n else skip (echo_value s) invalid n).nets
      ↔ (In c n.nets ⊎ Tunnel s c)
unchanged c s n refuse = elim (Bool-cases (length s == 0)) [
  | inl e ↦ rw e ((λ m. inl m), (λ m. elim m [ inl a ↦ a | inr i ↦ absurd (refuse i) ]))
  | inr e ↦ rw e ((λ m. inl m), (λ m. elim m [ inl a ↦ a | inr i ↦ absurd (refuse i) ]))
]

In-tunnel_round :
    (s c : Text) (n : Networks) → In c (tunnel_round s n).nets ↔ (In c n.nets ⊎ Tunnel s c)
unfolding tunnel_round
In-tunnel_round s c n = elim (Option-cases (canonical_cidr (host_text s))) [
  | inl bad ↦ rw (tunnel_round, In, bad) (unchanged c s n (λ i. cc (i.canonical)))
  | inr (k, e) ↦
      rw (tunnel_round, In, e)
        (elim (Bool-cases (ends_with (codes "/32") k)) [
          | inr net ↦ rw net (
              unchanged c s n
                (λ i. let same : k ≡ c = some_inj (sym e ∙ i.canonical) in cc (i.host)))
          | inl host ↦ rw host (
            (λ m. elim ((In-append c n.nets (k ∷ [])).0 m) [
              | inl a ↦ inl a
              | inr b ↦ elim b [
                | inl q ↦ inr (record { canonical = e ∙ ap some (sym q); host = rw q host })
                | inr z ↦ absurd z
              ]
            ]),
            (λ m. (In-append c n.nets (k ∷ [])).1 (elim m [
              | inl a ↦ inl a
              | inr i ↦ inr (inl (sym (some_inj (sym e ∙ i.canonical))))
            ])),
          )
        ])
]

-- A loop whose rounds add the networks of their text.
In-each_text :
    (round : Text → Networks → Networks) (P : Text → Text → Type 0) (c : Text)
    → ((v : Text) (n : Networks) → In c (round v n).nets ↔ (In c n.nets ⊎ P v c))
    → (vs : List Text) (n : Networks)
    → In c (each_text round vs n).nets ↔ (In c n.nets ⊎ ((v : Text) × In v vs × P v c))
unfolding each_text
In-each_text round P c step [] n = ((λ m. inl m), (λ m. elim m [ inl a ↦ a | inr h ↦ absurd h.1 ]))
In-each_text round P c step (v ∷ vs) n =
    let here = step v n in
    let rest = In-each_text round P c step vs (round v n) in
    (
      (λ m. elim (rest.0 m) [
        | inl a ↦ elim (here.0 a) [ inl o ↦ inl o | inr q ↦ inr (v, inl refl, q) ]
        | inr h ↦ inr (h.0, inr h.1, h.2)
      ]),
      (λ m. rest.1 (elim m [
        | inl a ↦ inl (here.1 (inl a))
        | inr h ↦ elim h.1 [
          | inl e ↦ inl (here.1 (inr (subst (λ (w : Text). P w c) e h.2)))
          | inr i ↦ inr (h.0, i, h.2)
        ]
      ])),
    )

pub In-raw_networks : (l : Link) (c : Text) → In c (raw_networks l).nets ↔ Source l c
unfolding raw_networks
In-raw_networks l c =
    let none_yet : Networks = record { nets = []; skipped = [] } in
    let first = each_text imported_round l.imported_networks none_yet in
    let a =
      In-each_text imported_round Imported c (λ v n. In-imported_round v c n) l.imported_networks
        none_yet in
    let b =
      In-each_text tunnel_round Tunnel c (λ s n. In-tunnel_round s c n) l.tunnel_addresses first in
    (
      (λ m. elim (b.0 m) [
        | inl x ↦ elim (a.0 x) [ inl z ↦ absurd z | inr i ↦ inl i ]
        | inr t ↦ inr t
      ]),
      (λ m. b.1 (elim m [ inl i ↦ inl (a.1 (inr i)) | inr t ↦ inr t ])),
    )

Source-canonical : (l : Link) (c : Text) → Source l c → canonical_cidr c ≡ some c
Source-canonical l c (inl h) = canonical_cidr_idempotent h.0 c (h.2).canonical
Source-canonical l c (inr h) = canonical_cidr_idempotent (host_text h.0) c (h.2).canonical

pub raw_networks-canonical :
    (l : Link) (c : Text) → In c (raw_networks l).nets → canonical_cidr c ≡ some c
raw_networks-canonical l c m = Source-canonical l c ((In-raw_networks l c).0 m)
