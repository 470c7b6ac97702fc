-- ===== src/Ingress/Sanitize/Ports.antt =====
-- What `sanitizePorts` returns: protocols that the filter knows, and ranges inside 1 to 65535.
use mathlib.Core.Path.{subst}
use floppyguard.Base.{
  ℕ, ◌≤◌, ◌≡◌, refl, true, not, ◌||◌, List, [], ◌∷◌, All, All-append, any, any_of_In, Distinct,
  Distinct-append_one, length, ltb, arith, inl, inr, Bool-cases, Option-cases,
}
use floppyguard.Base.Text.{codes, includes, trim}
use floppyguard.Base.Text.Laws.{text_eq_refl}
use floppyguard.Json.{
  Json, undefined, null, bool, num, str, obj, arr, is_nullish, items, string_of, get,
}
use floppyguard.Result.{ok, throw_if-eq-ok, for_each-inv, ok-injective}
use floppyguard.Ingress.{Port, max_list, ingress_protos}
use floppyguard.Ingress.Sanitize.Lists.{entries_of}
use floppyguard.Ingress.Sanitize.{
  add_port, sanitize_ports, port_range, port_text, equal_ports, lower, proto_of,
}

-- A port entry as the filter needs it.
pub record IsPort (p : Port) : Type 0 where
  pub proto_known : includes ingress_protos p.proto ≡ true
  pub from : ℕ
  pub to : ℕ
  pub from_pos : 1 ≤ from
  pub from_le : from ≤ to
  pub to_le : to ≤ 65535
  pub text : p.port ≡ port_text from to

abbrev Inv : List Port → Type 0
Inv out = All IsPort out × Distinct out

same_port_refl : (p : Port) → equal_ports p p ≡ true
unfolding equal_ports
same_port_refl p = rw (text_eq_refl p.proto, text_eq_refl p.port)

add_port-Inv : (v : Json) (out out' : List Port) → Inv out → add_port v out ≡ ok out' → Inv out'
unfolding add_port
add_port-Inv v out out' h e =
    let proto = lower (proto_of (get (codes "proto") v)) in
    let (known, e₁) = throw_if-eq-ok (not (includes ingress_protos proto)) _ _ out' e in
    elim (Option-cases (port_range (trim (string_of (get (codes "port") v))))) [
      | inl n ↦ absurd (cc (rw n at e₁))
      | inr ((from, to), q) ↦
          let (inside, e₂) =
            throw_if-eq-ok (ltb from 1 || ltb 65535 to || ltb to from) _ _ out' (rw q at e₁) in
          let p : Port = record { proto = proto; port = port_text from to } in
          let valid : IsPort p = record {
            proto_known = ground arith;
            from = from;
            to = to;
            from_pos = ground arith;
            from_le = ground arith;
            to_le = ground arith;
            text = refl;
          } in
          elim (Bool-cases (any (equal_ports p) out)) [
            | inl old ↦ subst Inv (ok-injective (rw old at e₂)) h
            | inr new ↦ subst Inv (ok-injective (rw new at e₂)) (
              All-append IsPort out (p ∷ []) h.0 (valid, tt),
              Distinct-append_one out p h.1
                  (λ m. cc (any_of_In (equal_ports p) p out m (same_port_refl p))),
            )
          ]
    ]

abbrev NoneOr : List Port → Type 0
NoneOr out = All IsPort out × Distinct out × (0 ≤ max_list)

-- A port list that passes holds known protocols and ranges `1 ≤ from ≤ to ≤ 65535` only, no entry
-- twice; it had at most 64 entries.
pub sanitize_ports-IsPort :
    (value : Json) (out : List Port)
    → sanitize_ports value ≡ ok out
    → All IsPort out × Distinct out × (length (entries_of value) ≤ max_list)
unfolding sanitize_ports is_nullish
sanitize_ports-IsPort (arr vs) out e =
    let (few, e₁) = throw_if-eq-ok (ltb max_list (length (items vs))) _ _ out e in
    let (good, dis) = for_each-inv Inv add_port add_port-Inv (items vs) [] out (tt, tt) e₁ in
    (good, dis, ground arith)
sanitize_ports-IsPort undefined out e = subst NoneOr (ok-injective e) (tt, tt, omega arith)
sanitize_ports-IsPort null out e = subst NoneOr (ok-injective e) (tt, tt, omega arith)
sanitize_ports-IsPort (bool b) out e = absurd (cc)
sanitize_ports-IsPort (num s) out e = absurd (cc)
sanitize_ports-IsPort (str s) out e = absurd (cc)
sanitize_ports-IsPort (obj fs) out e = absurd (cc)
