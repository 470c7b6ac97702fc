-- ===== src/AgentConfig/Sync/Blank.antt =====
-- A config of backend/internal/agent.js whose hub peer has an AllowedIPs line is not empty after it
-- was rewritten.
use floppyguard.Base.{
  ℕ, ◌≡◌, ◌≢◌, ◌⊎◌, refl, sym, ap, ◌∙◌, Bool, true, false, not, ◌&&◌, ◌||◌, Option, none, some,
  List, [], ◌∷◌, ◌++◌, length, All, inl, inr, Bool-cases, if◌then◌else◌, ◌==◌, &&_iff, arith,
}
use mathlib.Core.Path.{subst}
use floppyguard.Base.Text.{Text, codes, text_eq, split, join, trim, trim_start, is_space}
use floppyguard.Base.Text.Trim.{All-of_split, All-of_append}
use floppyguard.WireGuard.Dump.{drop_return, without_returns, lines_of}
use floppyguard.AgentConfig.Sections.{
  newline, starts, Place, at_start, line_kind, move_on, is_hub, is_allowed_line, rewrite_lines,
  rewrite_hub_peer_allowed_ips,
}
use floppyguard.AgentConfig.Sections.Lines.{returned}
use floppyguard.AgentConfig.Sections.Rewritten.{is_list_line, has_list_line, has_hub_list}
use floppyguard.AgentConfig.Endpoint.{
  EndpointParts, endpoint_parts, endpoint_lines, rewrite_hub_peer_endpoint,
}
use floppyguard.AgentConfig.Endpoint.Parsed.{either_line, with_parts}
use floppyguard.AgentConfig.Sync.{with_allowed, allowed_differs}

abbrev pub IsBlank : Text → Type 0
IsBlank s = All (λ c. is_space c ≡ true) s

IsBlank-join : (sep : Text) (ls : List Text) → IsBlank (join sep ls) → All IsBlank ls
unfolding join
IsBlank-join sep [] h = tt
IsBlank-join sep (l ∷ []) h = (h, tt)
IsBlank-join sep (l ∷ m ∷ ls) h =
    let (a, b) = All-of_append (λ c. is_space c ≡ true) l (sep ++ join sep (m ∷ ls)) h in
    let (c, d) = All-of_append (λ c. is_space c ≡ true) sep (join sep (m ∷ ls)) b in
    (a, IsBlank-join sep (m ∷ ls) d)

IsBlank-onto : (a b : Text) → IsBlank a → IsBlank b → IsBlank (a ++ b)
IsBlank-onto [] b h k = k
IsBlank-onto (x ∷ a) b h k = (h.0, IsBlank-onto a b h.1 k)

IsBlank-drop_return : (l : Text) → IsBlank (drop_return l) → IsBlank l
unfolding is_space
IsBlank-drop_return l h = elim (returned l) [
  | inl e ↦ subst IsBlank e h
  | inr e ↦ subst IsBlank (sym e) (IsBlank-onto (drop_return l) (13 ∷ []) h (refl, tt))
]

IsBlank-without_returns : (ls : List Text) → All IsBlank (without_returns ls) → All IsBlank ls
unfolding without_returns
IsBlank-without_returns [] h = tt
IsBlank-without_returns (l ∷ []) h = h
IsBlank-without_returns (l ∷ m ∷ ls) h =
    (IsBlank-drop_return l h.0, IsBlank-without_returns (m ∷ ls) h.1)

-- A text of blank lines is blank.
IsBlank-of_lines : (s : Text) → All IsBlank (lines_of s) → IsBlank s
unfolding lines_of is_space
IsBlank-of_lines s h =
    All-of_split (λ c. is_space c ≡ true) 10 s refl (IsBlank-without_returns (split 10 s) h)

trim_start-IsBlank : (s : Text) → IsBlank s → trim_start s ≡ []
unfolding trim_start
trim_start-IsBlank [] h = refl
trim_start-IsBlank (c ∷ s) h = rw (h.0) (trim_start-IsBlank s h.1)

trim-IsBlank : (s : Text) → IsBlank s → trim s ≡ []
unfolding trim trim_start
trim-IsBlank s h = rw (trim_start-IsBlank s h) refl

no_list : (p : Place) → is_list_line p [] ≡ false
unfolding line_kind text_eq starts floppyguard.Ingress.strip
no_list p = elim (Bool-cases (p.in_peer && p.peers == 1)) [ inl e ↦ rw e refl | inr e ↦ rw e refl ]

has_list_line-IsBlank : (p : Place) (ls : List Text) → All IsBlank ls → has_list_line p ls ≡ false
unfolding has_list_line
has_list_line-IsBlank p [] h = refl
has_list_line-IsBlank p (l ∷ ls) h =
    rw (trim-IsBlank l h.0, no_list p) (has_list_line-IsBlank (move_on (line_kind p []) p) ls h.1)

IsBlank-rewrite_lines :
    (nets : List Text) (p : Place) (ls : List Text)
    → All IsBlank (rewrite_lines nets p false ls)
    → All IsBlank ls
unfolding rewrite_lines is_space
IsBlank-rewrite_lines nets p [] h = tt
IsBlank-rewrite_lines nets p (raw ∷ ls) h =
    elim (Bool-cases (is_hub (line_kind p (trim raw)) && is_allowed_line (trim raw))) [
      | inl e ↦ absurd (cc ((rw e at h).0.0))
      | inr e ↦
          let k = rw e at h in
          (k.0, IsBlank-rewrite_lines nets (move_on (line_kind p (trim raw)) p) ls k.1)
    ]

module _ (lower : Text → Text) (host : Text) where
  IsBlank-with_parts :
      (raw : Text) (o : Option EndpointParts) (kept done ls : List Text)
      → (All IsBlank kept → All IsBlank ls)
      → (All IsBlank done → All IsBlank ls)
      → All IsBlank (with_parts lower host raw o kept done)
      → All IsBlank (raw ∷ ls)
  unfolding is_space
  IsBlank-with_parts raw none kept done ls f g h = (h.0, f h.1)
  IsBlank-with_parts raw (some e) kept done ls f g h = elim (either_line lower host raw e) [
    | inl k ↦ (subst IsBlank k h.0, g h.1)
    | inr k ↦ absurd (cc ((subst IsBlank k h.0).0))
  ]

  IsBlank-endpoint_lines :
      (p : Place) (b : Bool) (ls : List Text)
      → All IsBlank (endpoint_lines lower host p b ls)
      → All IsBlank ls
  unfolding endpoint_lines
  IsBlank-endpoint_lines p b [] h = tt
  IsBlank-endpoint_lines p b (raw ∷ ls) h =
      let t = trim raw in
      let next = move_on (line_kind p t) p in
      elim (Bool-cases (is_hub (line_kind p t) && not b && starts (codes "Endpoint") t)) [
        | inr f ↦ let k = rw f at h in (k.0, IsBlank-endpoint_lines next b ls k.1)
        | inl e ↦
            IsBlank-with_parts raw (endpoint_parts t) (endpoint_lines lower host next b ls)
              (endpoint_lines lower host next true ls) ls (IsBlank-endpoint_lines next b ls)
              (IsBlank-endpoint_lines next true ls) (rw e at h)
      ]

IsBlank-rewrite_hub_peer_endpoint :
    (lower : Text → Text) (config : Text) (host : Option Text)
    → IsBlank (rewrite_hub_peer_endpoint lower config host)
    → IsBlank config
unfolding rewrite_hub_peer_endpoint
IsBlank-rewrite_hub_peer_endpoint lower config none h = h
IsBlank-rewrite_hub_peer_endpoint lower config (some host) h =
    elim (Bool-cases (length config == 0 || length host == 0)) [
      | inl t ↦ rw t at h
      | inr f ↦ IsBlank-of_lines config (
          IsBlank-endpoint_lines lower host at_start false (lines_of config) (
            IsBlank-join newline (endpoint_lines lower host at_start false (lines_of config))
              (rw f at h)))
    ]

no_hub_list : (config : Text) → All IsBlank (lines_of config) → has_hub_list config ≡ false
no_hub_list config h = has_list_line-IsBlank at_start (lines_of config) h

IsBlank-split : (c : ℕ) (s : Text) → IsBlank s → All IsBlank (split c s)
unfolding split
IsBlank-split c [] h = (tt, tt)
IsBlank-split c (x ∷ s) h = elim (Bool-cases (x == c)) [
  | inl e ↦ rw e (tt, IsBlank-split c s h.1)
  | inr e ↦ rw e (onto (split c s) (IsBlank-split c s h.1))
]
  where
    onto : (ws : List Text) → All IsBlank ws → All IsBlank (floppyguard.Base.Text.onto_head x ws)
    onto [] k = ((h.0, tt), tt)
    onto (w ∷ ws) k = ((h.0, k.0), k.1)

pub IsBlank-rewrite_hub_peer_allowed_ips :
    (config : Text) (new : List Text)
    → IsBlank (rewrite_hub_peer_allowed_ips config new)
    → has_hub_list config ≡ false
unfolding rewrite_hub_peer_allowed_ips
IsBlank-rewrite_hub_peer_allowed_ips config new h = no_hub_list config (
    IsBlank-rewrite_lines new at_start (lines_of config)
      (IsBlank-join newline (rewrite_lines new at_start false (lines_of config)) h))

IsBlank-with_allowed :
    (config : Text) (new : List Text)
    → IsBlank (with_allowed config new)
    → has_hub_list config ≡ false
unfolding with_allowed lines_of without_returns
IsBlank-with_allowed config new h = elim (Bool-cases (allowed_differs config new)) [
  | inl e ↦ IsBlank-rewrite_hub_peer_allowed_ips config new (rw e at h)
  | inr e ↦ no_hub_list config (lines_of_blank (rw e at h))
]
  where
    dropped : (l : Text) → IsBlank l → IsBlank (drop_return l)
    dropped l k = elim (returned l) [
      | inl e ↦ subst IsBlank (sym e) k
      | inr e ↦
          (All-of_append (λ c. is_space c ≡ true) (drop_return l) (13 ∷ []) (subst IsBlank e k)).0
    ]

    all_dropped : (ls : List Text) → All IsBlank ls → All IsBlank (without_returns ls)
    all_dropped [] k = tt
    all_dropped (l ∷ []) k = k
    all_dropped (l ∷ m ∷ ls) k = (dropped l k.0, all_dropped (m ∷ ls) k.1)

    lines_of_blank : IsBlank config → All IsBlank (lines_of config)
    lines_of_blank k = all_dropped (split 10 config) (IsBlank-split 10 config k)

-- What is rewritten is not empty.
pub rewritten-ne :
    (lower : Text → Text) (config : Text) (new : List Text) (host : Option Text)
    → has_hub_list config ≡ true
    → rewrite_hub_peer_endpoint lower (with_allowed config new) host ≢ []
rewritten-ne lower config new host l e = cc (
  l,
  IsBlank-with_allowed config new (
      IsBlank-rewrite_hub_peer_endpoint lower (with_allowed config new) host
        (subst IsBlank (sym e) tt)),
)
