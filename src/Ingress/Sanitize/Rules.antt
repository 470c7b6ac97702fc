-- ===== src/Ingress/Sanitize/Rules.antt =====
-- What `sanitizeIngressRule` returns, for a new rule and for an update.
use mathlib.Core.Path.{subst}
use floppyguard.Base.{
  ℕ, zero, suc, ◌≤◌, ◌≡◌, ◌≢◌, refl, ap, Bool, true, false, Option, none, some, List, [], ◌∷◌, All,
  Distinct, length, ltb, ◌==◌, arith, inl, inr, Bool-cases,
}
use mathlib.Core.List.{reverse}
use floppyguard.Base.Text.{Text, codes, trim, trim_start, is_space}
use floppyguard.Json.{Json, get, string_of}
use floppyguard.Result.{Result, ok, >>=-eq-ok, ok-injective, throw_if-eq-ok}
use floppyguard.Cidr.{canonical_cidr}
use floppyguard.Ingress.{Port, max_lines_per_rule, name_max, note_max, take}
use floppyguard.Ingress.Sanitize.{
  Patch, patch_lines, patch_of, read_patch, check_lines, clean_text, optional, present, or_object,
  sanitize_name, sanitize_cidr_list, sanitize_ports, sanitize_ingress_rule, assert_rule_line_count,
  enabled_of, note_of, blank_controls,
}
use floppyguard.Ingress.Sanitize.Lists.{sanitize_cidr_list-IsClean}
use floppyguard.Ingress.Sanitize.Ports.{IsPort, sanitize_ports-IsPort}

-- A property of a field that may be absent.
abbrev pub IfPresent : {A : Type 0} → (A → Type 0) → Option A → Type 0
IfPresent P none = Unit
IfPresent P (some a) = P a

-- A code that is no control character.
abbrev pub IsPlain : ℕ → Type 0
IsPlain c = (0x20 ≤ c) × (c ≢ 0x7f)

-- A text of 1 to `max` code units without control characters.
abbrev pub IsClear : ℕ → Text → Type 0
IsClear max t = (1 ≤ length t) × (length t ≤ max) × All IsPlain t

abbrev pub IsCidrList : List Text → Type 0
IsCidrList nets = All (λ c. canonical_cidr c ≡ some c) nets × Distinct nets

abbrev pub IsPortList : List Port → Type 0
IsPortList ports = All IsPort ports × Distinct ports

-- Every field that a patch has is valid.
pub record IsPatch (p : Patch) : Type 0 where
  pub name : IfPresent (IsClear name_max) p.name
  pub sources : IfPresent (λ nets. IsCidrList nets × (nets ≢ [])) p.sources
  pub destinations : IfPresent IsCidrList p.destinations
  pub ports : IfPresent IsPortList p.ports
  pub note : IfPresent (IfPresent (IsClear note_max)) p.note

-- The patch of a new rule has every field, and its expansion is within the cap.
pub record IsComplete (p : Patch) : Type 0 where
  pub name : p.name ≢ none
  pub sources : p.sources ≢ none
  pub destinations : p.destinations ≢ none
  pub ports : p.ports ≢ none
  pub enabled : p.enabled ≢ none
  pub note : p.note ≢ none
  pub lines : patch_lines p ≤ max_lines_per_rule

length-take-le : (n : ℕ) (s : Text) → length (take n s) ≤ n
unfolding take
length-take-le zero s = omega arith
length-take-le (suc n) [] = omega arith
length-take-le (suc n) (c ∷ s) = omega (arith, length-take-le n s)

IsPlain-blank_controls : (s : Text) → All IsPlain (blank_controls s)
unfolding blank_controls
IsPlain-blank_controls [] = tt
IsPlain-blank_controls (c ∷ s) = (ground arith, IsPlain-blank_controls s)

-- What holds of each code of a text holds of each code of its parts.
module _ (P : ℕ → Type 0) where
  All-reverse : (s t : Text) → All P s → All P t → All P (mathlib.Core.List.reverse_aux s t)
  All-reverse [] t h k = k
  All-reverse (c ∷ s) t h k = All-reverse s (c ∷ t) h.1 (h.0, k)

  All-trim_start : (s : Text) → All P s → All P (trim_start s)
  unfolding trim_start
  All-trim_start [] h = tt
  All-trim_start (c ∷ s) h = elim (Bool-cases (is_space c)) [
    | inl e ↦ rw e (All-trim_start s h.1)
    | inr e ↦ rw e h
  ]

  All-trim : (s : Text) → All P s → All P (trim s)
  unfolding trim
  All-trim s h =
      let front = All-trim_start s h in
      let back = All-trim_start (reverse (trim_start s)) (All-reverse (trim_start s) [] front tt) in
      All-reverse (trim_start (reverse (trim_start s))) [] back tt

  All-take : (n : ℕ) (s : Text) → All P s → All P (take n s)
  unfolding take
  All-take zero s h = tt
  All-take (suc n) [] h = tt
  All-take (suc n) (c ∷ s) h = (h.0, All-take n s h.1)

clean_text-IsClear :
    (v : Json) (max : ℕ) → (length (clean_text v max) == 0) ≡ false → IsClear max (clean_text v max)
unfolding clean_text
clean_text-IsClear v max full =
    let blanked = blank_controls (string_of v) in
    (
      ground arith,
      length-take-le max (trim blanked),
      All-take IsPlain max (trim blanked)
          (All-trim IsPlain blanked (IsPlain-blank_controls (string_of v))),
    )

sanitize_name-IsClear : (v : Json) (name : Text) → sanitize_name v ≡ ok name → IsClear name_max name
unfolding sanitize_name
sanitize_name-IsClear v name e = elim (Bool-cases (length (clean_text v name_max) == 0)) [
  | inl empty ↦ absurd (cc (rw empty at e))
  | inr full ↦
      subst (IsClear name_max) (ok-injective (rw full at e)) (clean_text-IsClear v name_max full)
]

note_of-IsClear : (v : Json) → IfPresent (IsClear note_max) (note_of v)
unfolding note_of
note_of-IsClear v = elim (Bool-cases (length (clean_text v note_max) == 0)) [
  | inl empty ↦ rw empty tt
  | inr full ↦ rw full (clean_text-IsClear v note_max full)
]

module _ {A : Type 0} (P : A → Type 0) where
  optional-IfPresent :
      (b : Bool) (r : Result A) (o : Option A)
      → ((a : A) → r ≡ ok a → P a)
      → optional b r ≡ ok o
      → IfPresent P o
  unfolding optional
  optional-IfPresent false r o f e = subst (IfPresent P) (ok-injective e) tt
  optional-IfPresent true r o f e =
      let (a, q, q') = >>=-eq-ok r _ o e in subst (IfPresent P) (ok-injective q') (f a q)

optional_present :
    {A : Type 0} (b : Bool) (r : Result A) (o : Option A)
    → optional b r ≡ ok o
    → b ≡ true
    → o ≢ none
unfolding optional
optional_present false r o e t n = cc
optional_present true r o e t n = let (a, q, q') = >>=-eq-ok r _ o e in cc

present_lem : (partial : Bool) (v : Json) → partial ≡ false → present partial v ≡ true
unfolding present
present_lem partial v f = rw f

patch_of-eq-ok :
    (n : Result (Option Text)) (s d : Result (Option (List Text))) (o : Result (Option (List Port)))
    (e : Result (Option Bool)) (t : Result (Option (Option Text))) (p : Patch)
    → patch_of n s d o e t ≡ ok p
    → (n ≡ ok p.name)
      × (s ≡ ok p.sources)
      × (d ≡ ok p.destinations)
      × (o ≡ ok p.ports)
      × (e ≡ ok p.enabled)
      × (t ≡ ok p.note)
unfolding patch_of
patch_of-eq-ok (ok n) (ok s) (ok d) (ok o) (ok e) (ok t) p h =
    let q = ok-injective h in
    (
      ap (λ (r : Patch). ok r.name) q,
      ap (λ (r : Patch). ok r.sources) q,
      ap (λ (r : Patch). ok r.destinations) q,
      ap (λ (r : Patch). ok r.ports) q,
      ap (λ (r : Patch). ok r.enabled) q,
      ap (λ (r : Patch). ok r.note) q,
    )
patch_of-eq-ok _ _ _ _ _ _ p h = absurd (cc)

check_lines-eq-ok :
    (partial : Bool) (p q : Patch)
    → check_lines partial p ≡ ok q
    → (p ≡ q) × (partial ≡ false → patch_lines p ≤ max_lines_per_rule)
unfolding check_lines assert_rule_line_count
check_lines-eq-ok true p q h = (ok-injective h, λ e. absurd (cc))
check_lines-eq-ok false p q h =
    let (few, same) = throw_if-eq-ok (ltb max_lines_per_rule (patch_lines p)) _ _ q h in
    (ok-injective same, λ _. ground arith)

always :
    {A : Type 0} (partial : Bool) (v : Json) (r : Result A) (o : Option A)
    → optional (present partial v) r ≡ ok o
    → partial ≡ false
    → o ≢ none
always partial v r o q f = optional_present (present partial v) r o q (present_lem partial v f)

any_list :
    (field : Text) (v : Json) (nets : List Text)
    → sanitize_cidr_list v field true ≡ ok nets
    → IsCidrList nets
any_list field v nets q =
    let (c, _, _) = sanitize_cidr_list-IsClean v field true nets q in (c.canonical, c.distinct)

strict_list :
    (field : Text) (v : Json) (nets : List Text)
    → sanitize_cidr_list v field false ≡ ok nets
    → IsCidrList nets × (nets ≢ [])
strict_list field v nets q =
    let (c, _, ne) = sanitize_cidr_list-IsClean v field false nets q in
    ((c.canonical, c.distinct), ne refl)

port_list : (v : Json) (ports : List Port) → sanitize_ports v ≡ ok ports → IsPortList ports
port_list v ports q = let (g, u, _) = sanitize_ports-IsPort v ports q in (g, u)

-- The six fields, read from any six values.
module _ (partial : Bool) (name sources destinations ports enabled note : Json) where
  fields-IsPatch :
      (p : Patch)
      → (partial ≡ false → patch_lines p ≤ max_lines_per_rule)
      → patch_of
          (optional (present partial name) (sanitize_name name))
          (optional (present partial sources) (sanitize_cidr_list sources (codes "sources") false))
          (optional
            (present partial destinations)
            (sanitize_cidr_list destinations (codes "destinations") true))
          (optional (present partial ports) (sanitize_ports ports))
          (optional (present partial enabled) (ok (enabled_of enabled)))
          (optional (present partial note) (ok (note_of note)))
        ≡ ok p
      → IsPatch p × (partial ≡ false → IsComplete p)
  fields-IsPatch p few h =
      let (n, s, t, o, e, k) = patch_of-eq-ok _ _ _ _ _ _ p h in
      (
        record {
          name =
              optional-IfPresent (IsClear name_max) _ (sanitize_name name) p.name
                (sanitize_name-IsClear name) n;
          sources =
              optional-IfPresent (λ nets. IsCidrList nets × (nets ≢ [])) _ _ p.sources
                (strict_list (codes "sources") sources) s;
          destinations =
              optional-IfPresent IsCidrList _ _ p.destinations
                (any_list (codes "destinations") destinations) t;
          ports =
              optional-IfPresent IsPortList _ (sanitize_ports ports) p.ports (port_list ports) o;
          note =
              optional-IfPresent (IfPresent (IsClear note_max)) _ (ok (note_of note)) p.note
                (λ t e.
                  subst (IfPresent (IsClear note_max)) (ok-injective e) (note_of-IsClear note))
                k;
        },
        λ f. record {
          name = always partial name _ _ n f;
          sources = always partial sources _ _ s f;
          destinations = always partial destinations _ _ t f;
          ports = always partial ports _ _ o f;
          enabled = always partial enabled _ _ e f;
          note = always partial note _ _ k f;
          lines = few f;
        },
      )

read_patch-IsPatch :
    (d : Json) (partial : Bool) (p : Patch)
    → (partial ≡ false → patch_lines p ≤ max_lines_per_rule)
    → read_patch d partial ≡ ok p
    → IsPatch p × (partial ≡ false → IsComplete p)
unfolding read_patch
read_patch-IsPatch d partial p few h =
    fields-IsPatch partial (get (codes "name") d) (get (codes "sources") d)
      (get (codes "destinations") d) (get (codes "ports") d) (get (codes "enabled") d)
      (get (codes "note") d) p few h

-- A payload that passes gives a patch in which each field that is present is valid: a name of 1 to 100
-- code units and a note that is null or of 1 to 255, both without control characters, networks in
-- canonical form with none twice and one source at least, and ports inside 1 to 65535. Without
-- `partial` no field is missing, and the rule expands to 256 filter lines at most.
pub sanitize_ingress_rule-IsPatch :
    (payload : Json) (partial : Bool) (p : Patch)
    → sanitize_ingress_rule payload partial ≡ ok p
    → IsPatch p × (partial ≡ false → IsComplete p)
unfolding sanitize_ingress_rule
sanitize_ingress_rule-IsPatch payload partial p e =
    let (p', e₁, e₂) =
      >>=-eq-ok (read_patch (or_object payload) partial) (check_lines partial) p e in
    let (same, few) = check_lines-eq-ok partial p' p e₂ in
    subst (λ (q : Patch). IsPatch q × (partial ≡ false → IsComplete q)) same
      (read_patch-IsPatch (or_object payload) partial p' few e₁)
