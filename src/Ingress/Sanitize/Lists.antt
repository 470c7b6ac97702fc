-- ===== src/Ingress/Sanitize/Lists.antt =====
-- What `sanitizeCidrList` accepts, and what it returns.
use floppyguard.Base.{
  ◌≤◌, ◌≡◌, ◌≢◌, refl, Bool, false, not, ◌&&◌, none, some, List, [], ◌∷◌, ◌++◌, All, All-append, In,
  In-left, In-right, Distinct, Distinct-append_one, ne-nil_of_In, length, ltb, ◌==◌, arith, inl,
  inr, Bool-cases, Option-cases, if◌then◌else◌,
}
use floppyguard.Base.Text.{Text, includes}
use floppyguard.Base.Text.Laws.{includes_iff}
use floppyguard.Json.{Json, undefined, null, bool, num, str, obj, arr, Items, items, string_of}
use floppyguard.Result.{ok, throw_if-eq-ok, for_each, >>=-eq-ok, ok-injective, for_each_total}
use floppyguard.Cidr.{canonical_cidr}
use floppyguard.Cidr.Canonical.{canonical_cidr_idempotent}
use floppyguard.Ingress.{max_list}
use floppyguard.Ingress.Sanitize.{add_cidr, cidr_entries, sanitize_cidr_list}

-- The networks that a list of request values stands for, in canonical form and each once.
pub record IsClean (values : List Json) (out : List Text) : Type 0 where
  pub canonical : All (λ c. canonical_cidr c ≡ some c) out
  pub distinct : Distinct out
  pub complete : All (λ v. (c : Text) × (canonical_cidr (string_of v) ≡ some c) × In c out) values

abbrev Grown : List Json → List Text → List Text → Type 0
Grown values out out' =
    All (λ c. canonical_cidr c ≡ some c) out'
    × Distinct out'
    × ((c : Text) → In c out → In c out')
    × All (λ v. (c : Text) × (canonical_cidr (string_of v) ≡ some c) × In c out') values

add_cidr-Grown :
    (field : Text) (v : Json) (out out' : List Text)
    → All (λ c. canonical_cidr c ≡ some c) out
    → Distinct out
    → add_cidr field v out ≡ ok out'
    → Grown (v ∷ []) out out'
unfolding add_cidr
add_cidr-Grown field v out out' can dis e = elim (Option-cases (canonical_cidr (string_of v))) [
  | inl n ↦ absurd (ground arith)
  | inr (c, q) ↦ elim (Bool-cases (includes out c)) [
    | inl known ↦
        let same : out ≡ out' = ground arith in
        rw (← same) (can, dis, (λ d m. m), ((c, q, (includes_iff out c).0 known), tt))
    | inr new ↦
        let same : out ++ c ∷ [] ≡ out' = ground arith in
        rw (← same) (
          All-append (λ c. canonical_cidr c ≡ some c) out (c ∷ []) can
              (canonical_cidr_idempotent (string_of v) c q, tt),
          Distinct-append_one out c dis (λ m. cc ((includes_iff out c).1 m)),
          (λ d m. In-left d out (c ∷ []) m),
          ((c, q, In-right c out (c ∷ []) (inl refl)), tt),
        )
  ]
]

entries-Grown :
    (field : Text) (values : List Json) (out out' : List Text)
    → All (λ c. canonical_cidr c ≡ some c) out
    → Distinct out
    → for_each (add_cidr field) values out ≡ ok out'
    → Grown values out out'
unfolding for_each
entries-Grown field [] out out' can dis e =
    let same : out ≡ out' = ground arith in rw (← same) (can, dis, (λ c m. m), tt)
entries-Grown field (v ∷ vs) out out' can dis e =
    let (mid, e₁, e₂) = >>=-eq-ok (add_cidr field v out) (for_each (add_cidr field) vs) out' e in
    let (can₁, dis₁, keep₁, seen) = add_cidr-Grown field v out mid can dis e₁ in
    let (can₂, dis₂, keep₂, rest) = entries-Grown field vs mid out' can₁ dis₁ e₂ in
    let here = seen.0 in
    (can₂, dis₂, (λ c m. keep₂ c (keep₁ c m)), ((here.0, here.1, keep₂ here.0 here.2), rest))

add_cidr_total :
    (field : Text) (v : Json) (out : List Text)
    → canonical_cidr (string_of v) ≢ none
    → (out' : List Text) × (add_cidr field v out ≡ ok out')
unfolding add_cidr
add_cidr_total field v out h = elim (Option-cases (canonical_cidr (string_of v))) [
  | inl n ↦ absurd (h n)
  | inr (c, q) ↦ ((if includes out c then out else out ++ c ∷ []), rw (add_cidr, q))
]

-- The first value leaves its network in the result.
filled :
    (field : Text) (values : List Json) (out : List Text)
    → values ≢ []
    → for_each (add_cidr field) values [] ≡ ok out
    → out ≢ []
filled field [] out full e = absurd (full refl)
filled field (v ∷ vs) out full e =
    let (_, _, _, all_in) = entries-Grown field (v ∷ vs) [] out tt tt e in
    ne-nil_of_In all_in.0.0 out all_in.0.2

-- The entries of a request value: only an array has any.
abbrev pub entries_of : Json → List Json
entries_of (arr vs) = items vs
entries_of _ = []

cidr_entries-IsClean :
    (field : Text) (allow_empty : Bool) (values : List Json) (out : List Text)
    → cidr_entries field allow_empty values ≡ ok out
    → IsClean values out × (length values ≤ max_list) × (allow_empty ≡ false → out ≢ [])
unfolding cidr_entries
cidr_entries-IsClean field allow_empty values out e =
    let (few, e₁) = throw_if-eq-ok (ltb max_list (length values)) _ _ out e in
    let (mid, e₂, e₃) = >>=-eq-ok (for_each (add_cidr field) values []) _ out e₁ in
    let (some_left, e₄) = throw_if-eq-ok (not allow_empty && length mid == 0) _ _ out e₃ in
    let same : mid ≡ out = ok-injective e₄ in
    let (can, dis, _, all_in) = entries-Grown field values [] mid tt tt e₂ in
    rw (← same) (
      record { canonical = can; distinct = dis; complete = all_in },
      ground arith,
      (λ strict. ground arith),
    )

-- A list of CIDRs that passes is returned in canonical form, each network once and none lost; it
-- had at most 64 entries, and the result is empty only where that is allowed.
pub sanitize_cidr_list-IsClean :
    (input : Json) (field : Text) (allow_empty : Bool) (out : List Text)
    → sanitize_cidr_list input field allow_empty ≡ ok out
    → IsClean (entries_of input) out
      × (length (entries_of input) ≤ max_list)
      × (allow_empty ≡ false → out ≢ [])
unfolding sanitize_cidr_list
sanitize_cidr_list-IsClean (arr vs) field allow_empty out e =
    cidr_entries-IsClean field allow_empty (items vs) out e
sanitize_cidr_list-IsClean undefined field allow_empty out e =
    cidr_entries-IsClean field allow_empty [] out e
sanitize_cidr_list-IsClean null field allow_empty out e =
    cidr_entries-IsClean field allow_empty [] out e
sanitize_cidr_list-IsClean (bool b) field allow_empty out e = absurd (cc)
sanitize_cidr_list-IsClean (num s) field allow_empty out e = absurd (cc)
sanitize_cidr_list-IsClean (str s) field allow_empty out e = absurd (cc)
sanitize_cidr_list-IsClean (obj fs) field allow_empty out e = absurd (cc)

-- At most 64 valid networks, and one at least, are never refused.
sanitize_cidr_list_accepts :
    (vs : Items) (field : Text) (allow_empty : Bool)
    → length (items vs) ≤ max_list
    → items vs ≢ []
    → All (λ v. canonical_cidr (string_of v) ≢ none) (items vs)
    → (out : List Text) × (sanitize_cidr_list (arr vs) field allow_empty ≡ ok out)
unfolding sanitize_cidr_list cidr_entries
sanitize_cidr_list_accepts vs field allow_empty few full good =
    let (mid, e) =
      for_each_total (λ v. canonical_cidr (string_of v) ≢ none) (add_cidr field)
        (add_cidr_total field) (items vs) [] good in
    let fits : ltb max_list (length (items vs)) ≡ false = ground arith in
    let left = filled field (items vs) mid full e in
    let kept : (not allow_empty && length mid == 0) ≡ false = ground arith in
    (mid, rw (fits, e, kept))
