-- ===== src/AgentConfig/Sync/Joined.antt =====
-- Lists of AllowedIPs of backend/internal/agent.js are compared by their joined texts.
use floppyguard.Base.{
  ℕ, ◌≡◌, sym, ap, ◌∙◌, List, [], ◌∷◌, filter, map, All, All-map, All-append, inl, inr, Bool-cases,
}
use floppyguard.Base.Text.{Text, split, join, trim, trim_start, is_space}
use floppyguard.Base.Text.Laws.{Free}
use floppyguard.Base.Text.Trim.{split-join, Free-split}
use floppyguard.WireGuard.Dump.{lines_of}
use floppyguard.AgentConfig.Sections.{not_blank, listed_nets, parse_hub_peer_allowed_ips}
use floppyguard.AgentConfig.Sections.Entries.{IsEntry}
use floppyguard.AgentConfig.Sections.{
  LineKind, peer_head, other_head, hub_line, other_line, Place, at_start, line_kind, move_on,
  is_allowed_line, nets_at, nets_of_lines, value_text,
}
use floppyguard.AgentConfig.Sync.{joined_nets}

Free-trim_start : (c : ℕ) (s : Text) → Free c s → Free c (trim_start s)
unfolding trim_start
Free-trim_start c [] h = tt
Free-trim_start c (x ∷ s) h = elim (Bool-cases (is_space x)) [
  | inl e ↦ rw e (Free-trim_start c s h.1)
  | inr e ↦ rw e h
]

Free-reverse :
    (c : ℕ) (s t : Text) → Free c s → Free c t → Free c (mathlib.Core.List.reverse_aux s t)
Free-reverse c [] t h k = k
Free-reverse c (x ∷ s) t h k = Free-reverse c s (x ∷ t) h.1 (h.0, k)

Free-trim : (c : ℕ) (s : Text) → Free c s → Free c (trim s)
unfolding trim
Free-trim c s h =
    Free-reverse c (trim_start (mathlib.Core.List.reverse (trim_start s))) []
      (Free-trim_start c (mathlib.Core.List.reverse (trim_start s))
        (Free-reverse c (trim_start s) [] (Free-trim_start c s h) tt))
      tt

Free-kept : (ws : List Text) → All (Free b',') ws → All (Free b',') (filter not_blank (map trim ws))
unfolding filter
Free-kept [] h = tt
Free-kept (w ∷ ws) h = elim (Bool-cases (not_blank (trim w))) [
  | inl e ↦ rw e (Free-trim b',' w h.0, Free-kept ws h.1)
  | inr e ↦ rw e (Free-kept ws h.1)
]

Free-nets_at : (k : LineKind) (t : Text) → All (Free b',') (nets_at k t)
unfolding listed_nets
Free-nets_at peer_head t = tt
Free-nets_at other_head t = tt
Free-nets_at other_line t = tt
Free-nets_at hub_line t = elim (Bool-cases (is_allowed_line t)) [
  | inl e ↦
      rw e (Free-kept (split b',' (trim (value_text t))) (Free-split b',' (trim (value_text t))))
  | inr e ↦ rw e tt
]

Free-nets_of_lines : (p : Place) (ls : List Text) → All (Free b',') (nets_of_lines p ls)
unfolding nets_of_lines
Free-nets_of_lines p [] = tt
Free-nets_of_lines p (raw ∷ ls) =
    All-append (Free b',') (nets_at (line_kind p (trim raw)) (trim raw))
      (nets_of_lines (move_on (line_kind p (trim raw)) p) ls)
      (Free-nets_at (line_kind p (trim raw)) (trim raw))
      (Free-nets_of_lines (move_on (line_kind p (trim raw)) p) ls)

pub Free-parse : (config : Text) → All (Free b',') (parse_hub_peer_allowed_ips config)
unfolding parse_hub_peer_allowed_ips
Free-parse config = Free-nets_of_lines at_start (lines_of config)

-- Lists of entries are told apart by their joined texts.
pub joined_nets-injective :
    (w : Text) (ws vs : List Text)
    → All IsEntry (w ∷ ws)
    → All (Free b',') vs
    → joined_nets (w ∷ ws) ≡ joined_nets vs
    → w ∷ ws ≡ vs
unfolding join split
joined_nets-injective w ws [] h f e =
    let parts = sym (split-join b',' w ws (All-map (λ x k. k.2) (w ∷ ws) h)) ∙ ap (split b',') e in
    absurd (h.0.0 (cc parts))
joined_nets-injective w ws (v ∷ vs) h f e =
    sym (split-join b',' w ws (All-map (λ x k. k.2) (w ∷ ws) h))
    ∙ ap (split b',') e
    ∙ split-join b',' v vs f
