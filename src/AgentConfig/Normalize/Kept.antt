-- ===== src/AgentConfig/Normalize/Kept.antt =====
-- `normalizeAgentConfig` of backend/internal/agent.js leaves the AllowedIPs of the hub peer alone.
use floppyguard.Base.{
  ℕ, ◌≡◌, ◌≢◌, refl, ap, ◌∙◌, sym, Bool, true, false, ◌&&◌, List, [], ◌∷◌, ◌++◌, All, inl, inr,
  Bool-cases, ◌==◌, &&_iff, not, append_none, arith,
}
use floppyguard.Base.Text.{Text, codes, trim, text_eq, is_space}
use floppyguard.Base.Text.Trim.{trim_end, trim_head}
use floppyguard.Ingress.{strip}
use floppyguard.AgentConfig.Sections.{
  starts, is_peer_head, Place, line_kind, is_allowed_line, nets_of_lines,
}
use floppyguard.AgentConfig.Sections.Lines.{read_line, nets_of_lines-cons, nets_of_lines-same}
use floppyguard.AgentConfig.Normalize.{
  in_interface, contains_text, hides_key, is_hook_line, kept_lines, insert_before_peer,
  insert_lines,
}

-- A trimmed line that is no head of a section and no list.
abbrev pub IsInert : Text → Type 0
IsInert t = (is_peer_head t ≡ false) × (starts (codes "[") t ≡ false) × (is_allowed_line t ≡ false)

inert_line :
    (p : Place) (t : Text) (rest : Place → List Text) → IsInert t → read_line p t rest ≡ rest p
unfolding line_kind
inert_line p t rest (a, b, c) = elim (Bool-cases (p.in_peer && p.peers == 1)) [
  | inl e ↦ rw (a, b, e, c) refl
  | inr e ↦ rw (a, b, e) refl
]

pub nets-inert :
    (p : Place) (raw : Text) (ls : List Text)
    → IsInert (trim raw)
    → nets_of_lines p (raw ∷ ls) ≡ nets_of_lines p ls
nets-inert p raw ls h =
    nets_of_lines-cons p raw ls ∙ inert_line p (trim raw) (λ q. nets_of_lines q ls) h

pub nets-prefix :
    (new : List Text) (p : Place) (ls : List Text)
    → All (λ l. IsInert (trim l)) new
    → nets_of_lines p (new ++ ls) ≡ nets_of_lines p ls
nets-prefix [] p ls h = refl
nets-prefix (l ∷ new) p ls h = nets-inert p l (new ++ ls) h.0 ∙ nets-prefix new p ls h.1

starts-other : (x : ℕ) (pre : Text) (c : ℕ) (s : Text) → x ≢ c → starts (x ∷ pre) (c ∷ s) ≡ false
unfolding starts strip
starts-other x pre c s n = elim (Bool-cases (x == c)) [
  | inl e ↦ absurd (n (ground arith))
  | inr e ↦ ground arith
]

starts_with_code : (c : ℕ) (pre t : Text) → starts (c ∷ pre) t ≡ true → (s : Text) × (t ≡ c ∷ s)
unfolding starts strip
starts_with_code c pre [] h = absurd (cc)
starts_with_code c pre (x ∷ t) h = elim (Bool-cases (c == x)) [
  | inl e ↦ (t, ap (λ (n : ℕ). n ∷ t) (ground arith))
  | inr e ↦ absurd (cc (starts-other c pre x t (λ z. ground arith)))
]

-- A line that starts with a character of neither a section nor a list.
IsInert-cons : (c : ℕ) (s : Text) → b'[' ≢ c → b'A' ≢ c → IsInert (c ∷ s)
unfolding text_eq
IsInert-cons c s a b = (
  elim (Bool-cases (c == b'[')) [ inl e ↦ absurd (a (ground arith)) | inr e ↦ ground arith ],
  starts-other b'[' [] c s a,
  starts-other b'A' (codes "llowedIPs") c s b,
)

pub IsInert-of_code :
    (c : ℕ) (pre t : Text) → b'[' ≢ c → b'A' ≢ c → starts (c ∷ pre) t ≡ true → IsInert t
IsInert-of_code c pre t a b h =
    let (s, e) = starts_with_code c pre t h in rw e (IsInert-cons c s a b)

IsInert-of_P : (pre t : Text) → starts (b'P' ∷ pre) t ≡ true → IsInert t
IsInert-of_P pre t h = IsInert-of_code b'P' pre t (λ z. omega arith) (λ z. omega arith) h

IsInert-hook : (t : Text) → is_hook_line t ≡ true → IsInert t
IsInert-hook t h = elim (Bool-cases (starts (codes "PostUp") t)) [
  | inl e ↦ IsInert-of_P (codes "ostUp") t e
  | inr e ↦ IsInert-of_P (codes "ostDown") t (rw e at h)
]

pub IsInert-trim_cons :
    (c : ℕ) (s : Text) → is_space c ≡ false → b'[' ≢ c → b'A' ≢ c → IsInert (trim (c ∷ s))
IsInert-trim_cons c s e a b = rw (trim_head c s e) (IsInert-cons c (trim_end s) a b)

-- The lines that are left out or masked are no lists, so what is kept is read alike.
pub nets-kept_lines :
    (now : Bool) (p : Place) (ls : List Text)
    → nets_of_lines p (kept_lines now ls) ≡ nets_of_lines p ls
unfolding kept_lines is_space
nets-kept_lines now p [] = refl
nets-kept_lines now p (raw ∷ ls) =
    let t = trim raw in
    let inside = in_interface now t in
    let rest = kept_lines inside ls in
    elim (Bool-cases (hides_key inside t)) [
      | inl e ↦ rw e (
          nets-inert p (codes "PrivateKey = (hidden)") rest (
            IsInert-trim_cons b'P' (codes "rivateKey = (hidden)") refl (λ z. omega arith)
              (λ z. omega arith))
          ∙ nets-kept_lines inside p ls
          ∙ sym (
              nets-inert p raw ls (
                IsInert-of_P (codes "rivateKey") t
                  ((&&_iff inside (starts (codes "PrivateKey") t)).0
                    ((&&_iff (inside && starts (codes "PrivateKey") t)
                        (not (contains_text (codes "(hidden)") t))).0
                      e).0).1)))
      | inr e ↦ elim (Bool-cases (is_hook_line t)) [
        | inl f ↦
            rw (e, f) (nets-kept_lines inside p ls ∙ sym (nets-inert p raw ls (IsInert-hook t f)))
        | inr f ↦
            rw (e, f) (nets_of_lines-same p raw raw rest ls refl (λ q. nets-kept_lines inside q ls))
      ]
    ]

nets-insert_before_peer :
    (new : List Text) (p : Place) (ls : List Text)
    → All (λ l. IsInert (trim l)) new
    → nets_of_lines p (insert_before_peer new ls) ≡ nets_of_lines p ls
unfolding insert_before_peer
nets-insert_before_peer new p [] h =
    ap (nets_of_lines p) (sym (append_none new)) ∙ nets-prefix new p [] h
nets-insert_before_peer new p (l ∷ ls) h = elim (Bool-cases (is_peer_head (trim l))) [
  | inl e ↦ rw e (nets-prefix new p (l ∷ ls) h)
  | inr e ↦ rw e (
      nets_of_lines-same p l l (insert_before_peer new ls) ls refl
        (λ q. nets-insert_before_peer new q ls h))
]

nets-suffix :
    (new : List Text) (p : Place) (ls : List Text)
    → All (λ l. IsInert (trim l)) new
    → nets_of_lines p (ls ++ new) ≡ nets_of_lines p ls
nets-suffix new p [] h = ap (nets_of_lines p) (sym (append_none new)) ∙ nets-prefix new p [] h
nets-suffix new p (l ∷ ls) h =
    nets_of_lines-same p l l (ls ++ new) ls refl (λ q. nets-suffix new q ls h)

-- Lines that are no lists may be put anywhere.
pub nets-insert_lines :
    (new : List Text) (p : Place) (ls : List Text)
    → All (λ l. IsInert (trim l)) new
    → nets_of_lines p (insert_lines new ls) ≡ nets_of_lines p ls
unfolding insert_lines
nets-insert_lines new p [] h = nets-suffix new p [] h
nets-insert_lines new p (l ∷ ls) h = elim (Bool-cases (is_peer_head (trim l))) [
  | inl e ↦ rw e (nets-suffix new p (l ∷ ls) h)
  | inr e ↦ rw e (
      nets_of_lines-same p l l (insert_before_peer new ls) ls refl
        (λ q. nets-insert_before_peer new q ls h))
]
