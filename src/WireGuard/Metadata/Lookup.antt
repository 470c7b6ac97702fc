-- ===== src/WireGuard/Metadata/Lookup.antt =====
-- What a merged metadata entry holds under each key.
use floppyguard.Base.{
  ◌≡◌, ◌⊎◌, refl, sym, ap, ◌∙◌, false, Option, none, some, List, [], ◌∷◌, filter, map,
  if◌then◌else◌, Bool-cases, In, Distinct, inl, inr,
}
use mathlib.Core.Bool.{false≢true}
use mathlib.Core.Path.{subst}
use floppyguard.Base.Text.{Text, text_eq}
use floppyguard.Base.Text.Laws.{text_eq_iff, text_eq_ne}
use floppyguard.Json.{Json, is_undefined}
use floppyguard.WireGuard.Metadata.{Object}
use floppyguard.WireGuard.Metadata.Merge.{lookup, put, spread, is_set, merge_metadata_entry}

abbrev pub keys : Object → List Text
keys o = map (λ (e : Text × Json). e.0) o

-- A value that is not undefined.
abbrev pub defined : Option Json → Option Json
defined none = none
defined (some v) = if is_undefined v then none else some v

-- The value of a key after a patch.
abbrev pub patched : Option Json → Option Json → Option Json
patched none old = old
patched (some v) old = some v

lookup-none : (key : Text) (o : Object) → ¬ In key (keys o) → lookup key o ≡ none
unfolding lookup
lookup-none key [] n = refl
lookup-none key (e ∷ es) n =
    rw (text_eq_ne e.0 key (λ q. n (inl (sym q)))) (lookup-none key es (λ m. n (inr m)))

lookup-put :
    (key name : Text) (v : Json) (o : Object)
    → lookup key (put name v o) ≡ (if text_eq name key then some v else lookup key o)
unfolding lookup put
lookup-put key name v [] = refl
lookup-put key name v (e ∷ es) = elim (Bool-cases (text_eq e.0 name)) [
  | inl q ↦ elim (Bool-cases (text_eq e.0 key)) [
    | inl k ↦ rw (q, k, ← (text_eq_iff e.0 name).0 q, k) refl
    | inr k ↦ rw (q, k, ← (text_eq_iff e.0 name).0 q, k) refl
  ]
  | inr q ↦ elim (Bool-cases (text_eq e.0 key)) [
    | inl k ↦
        let n : text_eq name key ≡ false = text_eq_ne name key (λ p.
          absurd
            (false≢true (sym q ∙ (text_eq_iff e.0 name).1 ((text_eq_iff e.0 key).0 k ∙ sym p)))) in
        rw (q, k, n) refl
    | inr k ↦ rw (q, k, lookup-put key name v es) refl
  ]
]

lookup-spread :
    (key : Text) (current patch : Object)
    → Distinct (keys patch)
    → lookup key (spread current patch) ≡ patched (lookup key patch) (lookup key current)
unfolding spread lookup
lookup-spread key current [] d = refl
lookup-spread key current (e ∷ es) d =
    lookup-spread key (put e.0 e.1 current) es d.1 ∙ elim (Bool-cases (text_eq e.0 key)) [
      | inl q ↦
          let gone =
            lookup-none key es (λ m.
              d.0 (subst (λ (t : Text). In t (keys es)) (sym ((text_eq_iff e.0 key).0 q)) m)) in
          rw (gone, lookup-put key e.0 e.1 current, q) refl
      | inr q ↦ rw (lookup-put key e.0 e.1 current, q) refl
    ]

lookup-filter :
    (key : Text) (o : Object)
    → Distinct (keys o)
    → lookup key (filter is_set o) ≡ defined (lookup key o)
unfolding lookup filter is_undefined
lookup-filter key [] d = refl
lookup-filter key (e ∷ es) d = elim (Bool-cases (is_undefined e.1)) [
  | inl u ↦ elim (Bool-cases (text_eq e.0 key)) [
    | inl q ↦
        let gone =
          lookup-none key es
            (λ m. d.0 (subst (λ (t : Text). In t (keys es)) (sym ((text_eq_iff e.0 key).0 q)) m)) in
        rw (u, q, u) (lookup-filter key es d.1 ∙ ap defined gone)
    | inr q ↦ rw (u, q) (lookup-filter key es d.1)
  ]
  | inr u ↦ elim (Bool-cases (text_eq e.0 key)) [
    | inl q ↦ rw (u, q, u) refl
    | inr q ↦ rw (u, q) (lookup-filter key es d.1)
  ]
]

In-put :
    (k name : Text) (v : Json) (o : Object)
    → In k (keys (put name v o))
    → (k ≡ name) ⊎ In k (keys o)
unfolding put
In-put k name v [] m = elim m [ inl e ↦ inl e | inr z ↦ absurd z ]
In-put k name v (e ∷ es) m = elim (Bool-cases (text_eq e.0 name)) [
  | inl q ↦ inr (rw (put, q) at m)
  | inr q ↦
      let n : (k ≡ e.0) ⊎ In k (keys (put name v es)) = rw (put, q) at m in
      elim n [
        | inl p ↦ inr (inl p)
        | inr i ↦ elim (In-put k name v es i) [ inl p ↦ inl p | inr j ↦ inr (inr j) ]
      ]
]

Distinct-put :
    (name : Text) (v : Json) (o : Object) → Distinct (keys o) → Distinct (keys (put name v o))
unfolding put
Distinct-put name v [] d = ((λ m. m), tt)
Distinct-put name v (e ∷ es) d = elim (Bool-cases (text_eq e.0 name)) [
  | inl q ↦ rw q d
  | inr q ↦ rw q (
    (λ m. elim (In-put e.0 name v es m) [
      | inl p ↦ false≢true (sym q ∙ (text_eq_iff e.0 name).1 p)
      | inr i ↦ d.0 i
    ]),
    Distinct-put name v es d.1,
  )
]

Distinct-spread :
    (current patch : Object) → Distinct (keys current) → Distinct (keys (spread current patch))
unfolding spread
Distinct-spread current [] d = d
Distinct-spread current (e ∷ es) d =
    Distinct-spread (put e.0 e.1 current) es (Distinct-put e.0 e.1 current d)

-- After a patch is merged into an entry, each key has the value of the patch, or the old one where
-- the patch does not name it; a key whose value is then undefined is gone. Both objects have each
-- key once.
pub merge_metadata_entry-lookup :
    (current patch : Object)
    → Distinct (keys current)
    → Distinct (keys patch)
    → (key : Text)
    → lookup key (merge_metadata_entry current patch)
      ≡ defined (patched (lookup key patch) (lookup key current))
unfolding merge_metadata_entry
merge_metadata_entry-lookup current patch c p key =
    lookup-filter key (spread current patch) (Distinct-spread current patch c)
    ∙ ap defined (lookup-spread key current patch p)
