-- ===== src/AgentConfig/Sections/Lines.antt =====
-- `_parseHubPeerAllowedIPs` of backend/internal/agent.js reads lines by their trimmed text.
use floppyguard.Base.{
  ℕ, ◌≡◌, ◌≢◌, ◌⊎◌, refl, ap, ◌∙◌, sym, Bool, true, false, List, [], ◌∷◌, ◌++◌, All, inl, inr,
  Bool-cases, ◌==◌, arith,
}
use floppyguard.Base.Text.{Text, split, join, trim, is_space}
use floppyguard.Base.Text.Laws.{Free}
use floppyguard.Base.Text.Trim.{trim-space, split-join, Free-split}
use floppyguard.WireGuard.Dump.{drop_return, without_returns, lines_of}
use floppyguard.AgentConfig.Sections.{
  newline, Place, at_start, LineKind, peer_head, other_head, hub_line, other_line, line_kind,
  move_on, nets_at, nets_of_lines, parse_hub_peer_allowed_ips,
}

-- What one trimmed line adds.
abbrev pub read_line : Place → Text → (Place → List Text) → List Text
read_line p t rest = nets_at (line_kind p t) t ++ rest (move_on (line_kind p t) p)

pub nets_of_lines-cons :
    (p : Place) (raw : Text) (ls : List Text)
    → nets_of_lines p (raw ∷ ls) ≡ read_line p (trim raw) (λ q. nets_of_lines q ls)
unfolding nets_of_lines
nets_of_lines-cons p raw ls = refl

-- A line that has the trimmed text of another is read as the other.
pub nets_of_lines-same :
    (p : Place) (a b : Text) (ls ms : List Text)
    → trim a ≡ trim b
    → ((q : Place) → nets_of_lines q ls ≡ nets_of_lines q ms)
    → nets_of_lines p (a ∷ ls) ≡ nets_of_lines p (b ∷ ms)
nets_of_lines-same p a b ls ms e h =
    nets_of_lines-cons p a ls
    ∙ ap (λ (t : Text). read_line p t (λ q. nets_of_lines q ls)) e
    ∙ ap (λ (r : List Text). nets_at (line_kind p (trim b)) (trim b) ++ r)
        (h (move_on (line_kind p (trim b)) p))
    ∙ sym (nets_of_lines-cons p b ms)

Free-drop_return : (c : ℕ) (l : Text) → Free c l → Free c (drop_return l)
Free-drop_return c [] h = tt
Free-drop_return c (x ∷ []) h = elim (Bool-cases (x == 13)) [ inl e ↦ rw e tt | inr e ↦ rw e h ]
Free-drop_return c (x ∷ y ∷ l) h = (h.0, Free-drop_return c (y ∷ l) h.1)

pub returned : (l : Text) → (drop_return l ≡ l) ⊎ (l ≡ drop_return l ++ 13 ∷ [])
returned [] = inl refl
returned (x ∷ []) = elim (Bool-cases (x == 13)) [
  | inl e ↦ rw e (inr (ap (λ (n : ℕ). n ∷ []) (ground arith)))
  | inr e ↦ rw e (inl refl)
]
returned (x ∷ y ∷ l) = elim (returned (y ∷ l)) [
  | inl e ↦ inl (ap (λ (r : Text). x ∷ r) e)
  | inr e ↦ inr (ap (λ (r : Text). x ∷ r) e)
]

trim-drop_return : (l : Text) → trim (drop_return l) ≡ trim l
unfolding is_space
trim-drop_return l = elim (returned l) [
  | inl e ↦ ap trim e
  | inr e ↦ sym (ap trim e ∙ trim-space (drop_return l) 13 refl)
]

nets-without_returns :
    (p : Place) (ls : List Text) → nets_of_lines p (without_returns ls) ≡ nets_of_lines p ls
unfolding without_returns
nets-without_returns p [] = refl
nets-without_returns p (l ∷ []) = refl
nets-without_returns p (l ∷ m ∷ ls) =
    nets_of_lines-same p (drop_return l) l (without_returns (m ∷ ls)) (m ∷ ls) (trim-drop_return l)
      (λ q. nets-without_returns q (m ∷ ls))

-- A config that is put together from lines is read line by line.
pub parse-join :
    (ls : List Text)
    → All (Free 10) ls
    → parse_hub_peer_allowed_ips (join newline ls) ≡ nets_of_lines at_start ls
unfolding parse_hub_peer_allowed_ips lines_of join split without_returns nets_of_lines line_kind
    trim floppyguard.Base.Text.trim_start floppyguard.Base.Text.text_eq
    floppyguard.AgentConfig.Sections.starts floppyguard.Ingress.strip
parse-join [] h = refl
parse-join (l ∷ ls) h =
    nets-without_returns at_start (split 10 (join newline (l ∷ ls)))
    ∙ ap (nets_of_lines at_start) (split-join 10 l ls h)

Free-without_returns :
    (c : ℕ) (ls : List Text) → All (Free c) ls → All (Free c) (without_returns ls)
unfolding without_returns
Free-without_returns c [] h = tt
Free-without_returns c (l ∷ []) h = h
Free-without_returns c (l ∷ m ∷ ls) h =
    (Free-drop_return c l h.0, Free-without_returns c (m ∷ ls) h.1)

-- The lines of a text hold no line end.
pub Free-lines_of : (s : Text) → All (Free 10) (lines_of s)
unfolding lines_of
Free-lines_of s = Free-without_returns 10 (split 10 s) (Free-split 10 s)
