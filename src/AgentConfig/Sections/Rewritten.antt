-- ===== src/AgentConfig/Sections/Rewritten.antt =====
-- `_rewriteHubPeerAllowedIPs` of backend/internal/agent.js against `_parseHubPeerAllowedIPs`.
use floppyguard.Base.Text.Trim.{Free-NoSpace}
use floppyguard.Base.{
  ◌≡◌, ◌≢◌, refl, ap, ◌∙◌, sym, Bool, true, false, ◌&&◌, ◌||◌, List, [], ◌∷◌, ◌++◌, All, All-append,
  append_none, inl, inr, Bool-cases, if◌then◌else◌, ◌==◌, &&_iff, arith,
}
use mathlib.Core.Path.{subst}
use floppyguard.Base.Text.{Text, codes, join, trim, text_eq, is_space}
use floppyguard.Base.Text.Laws.{Free}
use floppyguard.Ingress.{strip}
use floppyguard.WireGuard.Dump.{lines_of}
use floppyguard.AgentConfig.Sections.{
  starts, Place, at_start, LineKind, peer_head, other_head, hub_line, other_line, line_kind,
  move_on, is_allowed_line, nets_at, nets_of_lines, parse_hub_peer_allowed_ips, allowed_line,
  is_hub, rewrite_lines, rewrite_hub_peer_allowed_ips,
}
use floppyguard.AgentConfig.Sections.Entries.{IsEntry, trim-allowed_line, listed_nets-allowed_line}
use floppyguard.AgentConfig.Sections.Lines.{nets_of_lines-cons, parse-join, Free-lines_of}

-- Whether a line is an AllowedIPs line of the hub peer.
abbrev pub is_list_line : Place → Text → Bool
is_list_line p t = is_hub (line_kind p t) && is_allowed_line t

unfoldable pub has_list_line : Place → List Text → Bool
unfolding line_kind starts trim
has_list_line p [] = false
has_list_line p (raw ∷ ls) =
    let t = trim raw in is_list_line p t || has_list_line (move_on (line_kind p t) p) ls

-- Whether the hub peer of a config has an AllowedIPs line.
abbrev pub has_hub_list : Text → Bool
has_hub_list config = has_list_line at_start (lines_of config)

hub_of : (k : LineKind) → is_hub k ≡ true → k ≡ hub_line
hub_of peer_head h = absurd (cc)
hub_of other_head h = absurd (cc)
hub_of hub_line h = refl
hub_of other_line h = absurd (cc)

at_hub : (p : Place) (t : Text) → line_kind p t ≡ hub_line → (p.in_peer && p.peers == 1) ≡ true
unfolding line_kind
at_hub p t h = ground arith

allowed_kind :
    (p : Place) (s : Text) → (p.in_peer && p.peers == 1) ≡ true → line_kind p (b'A' ∷ s) ≡ hub_line
unfolding line_kind text_eq starts strip
allowed_kind p s h = rw h refl

no_nets : (k : LineKind) (t : Text) → (is_hub k && is_allowed_line t) ≡ false → nets_at k t ≡ []
no_nets peer_head t h = refl
no_nets other_head t h = refl
no_nets hub_line t h = rw h refl
no_nets other_line t h = refl

-- A line that is no list of the hub peer adds nothing.
pub nets-other :
    (p : Place) (raw : Text) (ls : List Text)
    → is_list_line p (trim raw) ≡ false
    → nets_of_lines p (raw ∷ ls) ≡ nets_of_lines (move_on (line_kind p (trim raw)) p) ls
nets-other p raw ls h =
    nets_of_lines-cons p raw ls
    ∙ ap (λ (r : List Text). r ++ nets_of_lines (move_on (line_kind p (trim raw)) p) ls)
        (no_nets (line_kind p (trim raw)) (trim raw) h)

module _ (w : Text) (ws : List Text) where
  rewrite-keeps :
      (p : Place) (b : Bool) (raw : Text) (ls : List Text)
      → is_list_line p (trim raw) ≡ false
      → rewrite_lines (w ∷ ws) p b (raw ∷ ls)
        ≡ raw ∷ rewrite_lines (w ∷ ws) (move_on (line_kind p (trim raw)) p) b ls
  unfolding rewrite_lines
  rewrite-keeps p b raw ls h = rw h refl

  rewrite-list :
      (p : Place) (b : Bool) (raw : Text) (ls : List Text)
      → is_list_line p (trim raw) ≡ true
      → rewrite_lines (w ∷ ws) p b (raw ∷ ls) ≡ (
          if b
          then rewrite_lines (w ∷ ws) p true ls
          else allowed_line (w ∷ ws) ∷ rewrite_lines (w ∷ ws) p true ls)
  unfolding rewrite_lines
  rewrite-list p b raw ls h =
      let k =
        hub_of (line_kind p (trim raw))
          ((&&_iff (is_hub (line_kind p (trim raw))) (is_allowed_line (trim raw))).0 h).0 in
      rw h (
        ap
          (λ (j : LineKind).
            let rest = rewrite_lines (w ∷ ws) (move_on j p) true ls in
            if b then rest else allowed_line (w ∷ ws) ∷ rest)
          k)

  -- Behind the first list every list is dropped.
  nets-dropped :
      (p : Place) (ls : List Text) → nets_of_lines p (rewrite_lines (w ∷ ws) p true ls) ≡ []
  unfolding rewrite_lines nets_of_lines
  nets-dropped p [] = refl
  nets-dropped p (raw ∷ ls) = elim (Bool-cases (is_list_line p (trim raw))) [
    | inl e ↦ ap (nets_of_lines p) (rewrite-list p true raw ls e) ∙ nets-dropped p ls
    | inr e ↦
        ap (nets_of_lines p) (rewrite-keeps p true raw ls e)
        ∙ nets-other p raw (rewrite_lines (w ∷ ws) (move_on (line_kind p (trim raw)) p) true ls) e
        ∙ nets-dropped (move_on (line_kind p (trim raw)) p) ls
  ]

  nets-allowed :
      (p : Place) (raw : Text) (ls : List Text)
      → All IsEntry (w ∷ ws)
      → is_list_line p (trim raw) ≡ true
      → nets_of_lines p (allowed_line (w ∷ ws) ∷ rewrite_lines (w ∷ ws) p true ls) ≡ w ∷ ws
  unfolding starts strip
  nets-allowed p raw ls h e =
      let line = allowed_line (w ∷ ws) in
      let rest = rewrite_lines (w ∷ ws) p true ls in
      let k =
        hub_of (line_kind p (trim raw))
          ((&&_iff (is_hub (line_kind p (trim raw))) (is_allowed_line (trim raw))).0 e).0 in
      let a =
        allowed_kind p (codes "llowedIPs = " ++ join (codes ", ") (w ∷ ws))
          (at_hub p (trim raw) k) in
      nets_of_lines-cons p line rest
      ∙ ap
          (λ (t : Text).
            nets_at (line_kind p t) t ++ nets_of_lines (move_on (line_kind p t) p) rest)
          (trim-allowed_line w ws h)
      ∙ ap (λ (j : LineKind). nets_at j line ++ nets_of_lines (move_on j p) rest) a
      ∙ ap (λ (r : List Text). r ++ nets_of_lines p rest) (listed_nets-allowed_line w ws h)
      ∙ ap (λ (r : List Text). (w ∷ ws) ++ r) (nets-dropped p ls)
      ∙ append_none (w ∷ ws)

  nets-rewritten :
      (p : Place) (ls : List Text)
      → All IsEntry (w ∷ ws)
      → nets_of_lines p (rewrite_lines (w ∷ ws) p false ls)
        ≡ (if has_list_line p ls then w ∷ ws else [])
  unfolding rewrite_lines nets_of_lines has_list_line
  nets-rewritten p [] h = refl
  nets-rewritten p (raw ∷ ls) h = elim (Bool-cases (is_list_line p (trim raw))) [
    | inl e ↦
        ap (nets_of_lines p) (rewrite-list p false raw ls e)
        ∙ nets-allowed p raw ls h e
        ∙ sym (
            ap
              (λ (b : Bool).
                if b || has_list_line (move_on (line_kind p (trim raw)) p) ls then w ∷ ws else [])
              e)
    | inr e ↦
        let q = move_on (line_kind p (trim raw)) p in
        ap (nets_of_lines p) (rewrite-keeps p false raw ls e)
        ∙ nets-other p raw (rewrite_lines (w ∷ ws) q false ls) e
        ∙ nets-rewritten q ls h
        ∙ sym (ap (λ (b : Bool). if b || has_list_line q ls then w ∷ ws else []) e)
  ]

Free-entries :
    (w : Text) (ws : List Text) → All IsEntry (w ∷ ws) → Free 10 (join (codes ", ") (w ∷ ws))
unfolding join
Free-entries w [] h = Free-NoSpace w h.0.1
Free-entries w (v ∷ ws) h =
    All-append (λ x. x ≢ 10) w (codes ", " ++ join (codes ", ") (v ∷ ws)) (Free-NoSpace w h.0.1)
      ((λ z. omega arith), ((λ z. omega arith), Free-entries v ws h.1))

Free-allowed_line :
    (w : Text) (ws : List Text) → All IsEntry (w ∷ ws) → Free 10 (allowed_line (w ∷ ws))
unfolding is_space
Free-allowed_line w ws h =
    All-append (λ x. x ≢ 10) (codes "AllowedIPs = ") (join (codes ", ") (w ∷ ws)) (omega arith)
      (Free-entries w ws h)

Free-rewrite_lines :
    (w : Text) (ws : List Text) (p : Place) (b : Bool) (ls : List Text)
    → All IsEntry (w ∷ ws)
    → All (Free 10) ls
    → All (Free 10) (rewrite_lines (w ∷ ws) p b ls)
unfolding rewrite_lines
Free-rewrite_lines w ws p b [] h f = tt
Free-rewrite_lines w ws p b (raw ∷ ls) h f = elim (Bool-cases (is_list_line p (trim raw))) [
  | inr e ↦
      subst (All (Free 10)) (sym (rewrite-keeps w ws p b raw ls e))
        (f.0, Free-rewrite_lines w ws (move_on (line_kind p (trim raw)) p) b ls h f.1)
  | inl e ↦
      subst (All (Free 10)) (sym (rewrite-list w ws p b raw ls e))
        (replaced b (rewrite_lines (w ∷ ws) p true ls) (Free-rewrite_lines w ws p true ls h f.1))
]
  where
    replaced :
        (d : Bool) (r : List Text)
        → All (Free 10) r
        → All (Free 10) (if d then r else allowed_line (w ∷ ws) ∷ r)
    replaced true r a = a
    replaced false r a = (Free-allowed_line w ws h, a)

-- The rewritten config is read back: where the hub peer has an AllowedIPs line, its list is exactly
-- the new one, whatever lines it had before, and without such a line there is still no list. The new
-- list is not empty, and its entries are not empty and hold no white space and no comma.
pub parse-rewrite_hub_peer_allowed_ips :
    (config : Text) (w : Text) (ws : List Text)
    → All IsEntry (w ∷ ws)
    → parse_hub_peer_allowed_ips (rewrite_hub_peer_allowed_ips config (w ∷ ws))
      ≡ (if has_hub_list config then w ∷ ws else [])
unfolding rewrite_hub_peer_allowed_ips
parse-rewrite_hub_peer_allowed_ips config w ws h =
    parse-join (rewrite_lines (w ∷ ws) at_start false (lines_of config))
      (Free-rewrite_lines w ws at_start false (lines_of config) h (Free-lines_of config))
    ∙ nets-rewritten w ws at_start (lines_of config) h
