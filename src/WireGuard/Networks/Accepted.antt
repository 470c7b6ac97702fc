-- ===== src/WireGuard/Networks/Accepted.antt =====
-- Which network lists of a metadata patch are accepted, and what is stored of them.
use floppyguard.Base.{
  append_assoc, append_none, ◌≡◌, ◌↔◌, ◌⊎◌, inl, inr, refl, sym, ap, ◌∙◌, true, Option, none, some,
  List, [], ◌∷◌, ◌++◌, All, flat_map, length, ◌==◌, if◌then◌else◌, Bool-cases, Option-cases,
}
use mathlib.Core.Bool.{false≢true}
use floppyguard.Base.Text.{Text, trim}
use floppyguard.Json.{Json, Items, arr, items, string_of}
use floppyguard.Result.{ok, ok-injective, >>=-eq-ok, for_each}
use floppyguard.SiteIsolation.{uniq_onto}
use floppyguard.WireGuard.Networks.{
  canonicalize_ipv4_network, is_acceptable_network_prefix, network_round, sanitize_network_array,
}

abbrev pub raw_of : Json → Text
raw_of v = trim (string_of v)

-- An entry that is empty, or an IPv4 network with a prefix of at least 8.
abbrev pub IsEntry : Json → Type 0
IsEntry v =
    ((length (raw_of v) == 0) ≡ true)
    ⊎ ((c : Text) × (canonicalize_ipv4_network (raw_of v) ≡ some c)
        × (is_acceptable_network_prefix c ≡ true))

abbrev to_list : Option Text → List Text
to_list none = []
to_list (some c) = c ∷ []

-- The network that an entry stands for.
abbrev pub entry_nets : Json → List Text
entry_nets v = if length (raw_of v) == 0 then [] else to_list (canonicalize_ipv4_network (raw_of v))

network_round-ok :
    (v : Json) (out out' : List Text)
    → (network_round v out ≡ ok out') ↔ (IsEntry v × (out' ≡ out ++ entry_nets v))
unfolding network_round
network_round-ok v out out' = elim (Bool-cases (length (raw_of v) == 0)) [
  | inl e ↦
      rw (network_round, e)
        (
          (λ h. (inl refl, sym (ok-injective h) ∙ sym (append_none out))),
          (λ h. ap ok (sym (h.1 ∙ append_none out))),
        )
  | inr e ↦ elim (Option-cases (canonicalize_ipv4_network (raw_of v))) [
    | inl n ↦
        rw (network_round, e, n)
          (
            (λ h. absurd (cc)),
            (λ h. elim h.0 [ inl q ↦ absurd (false≢true q) | inr q ↦ absurd (cc (q.1)) ]),
          )
    | inr (c, q) ↦ elim (Bool-cases (is_acceptable_network_prefix c)) [
      | inl a ↦
          rw (network_round, e, q, a)
            ((λ h. (inr (c, refl, a), sym (ok-injective h))), (λ h. ap ok (sym h.1)))
      | inr a ↦
          rw (network_round, e, q, a)
            (
              (λ h. absurd (cc)),
              (λ h. elim h.0 [
                | inl k ↦ absurd (false≢true k)
                | inr k ↦
                    absurd
                      (false≢true (sym a ∙ ap is_acceptable_network_prefix (some_eq k.1) ∙ k.2))
              ]),
            )
    ]
  ]
]
  where
    some_eq : {a b : Text} → some a ≡ some b → a ≡ b
    some_eq e = cc

networks-ok :
    (vs : List Json) (out out' : List Text)
    → (for_each network_round vs out ≡ ok out')
      ↔ (All IsEntry vs × (out' ≡ out ++ flat_map entry_nets vs))
unfolding for_each flat_map
networks-ok [] out out' = (
  (λ h. (tt, sym (ok-injective h) ∙ sym (append_none out))),
  (λ h. ap ok (sym (h.1 ∙ append_none out))),
)
networks-ok (v ∷ vs) out out' = (
  (λ h.
      let (mid, e₁, e₂) = >>=-eq-ok (network_round v out) (for_each network_round vs) out' h in
      let (a, p) = (network_round-ok v out mid).0 e₁ in
      let (b, q) = (networks-ok vs mid out').0 e₂ in
      (
        (a, b),
        q
            ∙ ap (λ m. m ++ flat_map entry_nets vs) p
            ∙ append_assoc out (entry_nets v) (flat_map entry_nets vs),
      )),
  (λ h.
      let mid = out ++ entry_nets v in
      rw ((network_round-ok v out mid).1 (h.0.0, refl)) (
        (networks-ok vs mid out').1
          (h.0.1, h.1 ∙ sym (append_assoc out (entry_nets v) (flat_map entry_nets vs))))),
)

-- A network list of a patch is stored as a list of networks exactly if each entry is empty or an
-- IPv4 network with a prefix of at least 8, so one bad entry refuses the list; what is stored is
-- the canonical form of each network in its order, the first of equal ones kept.
pub sanitize_network_array-ok :
    (vs : Items) (out : List Text)
    → (sanitize_network_array (arr vs) ≡ ok out)
      ↔ (All IsEntry (items vs) × (out ≡ uniq_onto [] (flat_map entry_nets (items vs))))
unfolding sanitize_network_array
sanitize_network_array-ok vs out = (
  (λ h.
      let (mid, e₁, e₂) =
        >>=-eq-ok (for_each network_round (items vs) []) (λ out. ok (uniq_onto [] out)) out h in
      let (a, p) = (networks-ok (items vs) [] mid).0 e₁ in
      (a, sym (ok-injective e₂) ∙ ap (uniq_onto []) p)),
  (λ h.
      rw ((networks-ok (items vs) [] (flat_map entry_nets (items vs))).1 (h.0, refl))
        (ap ok (sym h.1))),
)
