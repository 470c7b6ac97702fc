-- ===== src/AgentConfig/Sections/Entries.antt =====
-- The AllowedIPs line that `_rewriteHubPeerAllowedIPs` of backend/internal/agent.js writes is read
-- back by `_parseHubPeerAllowedIPs`.
use floppyguard.Base.{
  ◌≡◌, ◌≢◌, refl, ap, ◌∙◌, sym, List, [], ◌∷◌, ◌++◌, filter, map, All, append_assoc, arith,
}
use floppyguard.Base.Text.{Text, codes, split, join, trim, is_space}
use floppyguard.Base.Text.Laws.{Free, NoSpace, split-Free, split-append, trim_lem}
use floppyguard.Base.Text.Trim.{StartsBlack, EndsBlack, trim-Black, trim-cons}
use floppyguard.AgentConfig.Sections.{behind_equals, not_blank, listed_nets, allowed_line}

-- An entry without white space and commas.
abbrev pub IsEntry : Text → Type 0
IsEntry w = (w ≢ []) × NoSpace w × Free b',' w

EndsBlack-NoSpace : (w : Text) → w ≢ [] → NoSpace w → EndsBlack w
EndsBlack-NoSpace [] h b = absurd (h refl)
EndsBlack-NoSpace (c ∷ []) h b = ([], c, refl, b.0)
EndsBlack-NoSpace (c ∷ d ∷ w) h b =
    let (u, e, p, q) = EndsBlack-NoSpace (d ∷ w) (λ z. cc) b.1 in
    (c ∷ u, e, ap (λ (r : Text). c ∷ r) p, q)

EndsBlack-append : (s w : Text) → EndsBlack w → EndsBlack (s ++ w)
EndsBlack-append s w (u, d, e, b) =
    (s ++ u, d, ap (λ (r : Text). s ++ r) e ∙ sym (append_assoc s u (d ∷ [])), b)

StartsBlack-append : (s w : Text) → StartsBlack s → StartsBlack (s ++ w)
StartsBlack-append s w (c, u, e, b) = (c, u ++ w, ap (λ (r : Text). r ++ w) e, b)

StartsBlack-NoSpace : (w : Text) → w ≢ [] → NoSpace w → StartsBlack w
StartsBlack-NoSpace [] h b = absurd (h refl)
StartsBlack-NoSpace (c ∷ w) h b = (c, w, refl, b.0)

EndsBlack-join :
    (w : Text) (ws : List Text) → All IsEntry (w ∷ ws) → EndsBlack (join (codes ", ") (w ∷ ws))
unfolding join
EndsBlack-join w [] h = EndsBlack-NoSpace w h.0.0 h.0.1
EndsBlack-join w (v ∷ ws) h =
    EndsBlack-append w (codes ", " ++ join (codes ", ") (v ∷ ws))
      (EndsBlack-append (codes ", ") (join (codes ", ") (v ∷ ws)) (EndsBlack-join v ws h.1))

StartsBlack-join :
    (w : Text) (ws : List Text) → All IsEntry (w ∷ ws) → StartsBlack (join (codes ", ") (w ∷ ws))
unfolding join
StartsBlack-join w [] h = StartsBlack-NoSpace w h.0.0 h.0.1
StartsBlack-join w (v ∷ ws) h =
    StartsBlack-append w (codes ", " ++ join (codes ", ") (v ∷ ws))
      (StartsBlack-NoSpace w h.0.0 h.0.1)

trim-entry : (w : Text) → IsEntry w → trim (b' ' ∷ w) ≡ w
unfolding is_space
trim-entry w h = trim-cons b' ' w refl ∙ trim_lem w h.1

-- The entries behind a comma stand after a space.
spaced_entries :
    (w : Text) (ws : List Text)
    → All IsEntry (w ∷ ws)
    → map trim (split b',' (b' ' ∷ join (codes ", ") (w ∷ ws))) ≡ w ∷ ws
unfolding join
spaced_entries w [] h =
    ap (map trim) (split-Free b',' (b' ' ∷ w) ((λ z. omega arith), h.0.2))
    ∙ ap (λ (r : Text). r ∷ []) (trim-entry w h.0)
spaced_entries w (v ∷ ws) h =
    ap (map trim)
      (split-append b',' (b' ' ∷ w) (b' ' ∷ join (codes ", ") (v ∷ ws)) ((λ z. omega arith), h.0.2))
    ∙ ap (λ (r : Text). r ∷ map trim (split b',' (b' ' ∷ join (codes ", ") (v ∷ ws))))
        (trim-entry w h.0)
    ∙ ap (λ (r : List Text). w ∷ r) (spaced_entries v ws h.1)

entries :
    (w : Text) (ws : List Text)
    → All IsEntry (w ∷ ws)
    → map trim (split b',' (join (codes ", ") (w ∷ ws))) ≡ w ∷ ws
unfolding join
entries w [] h =
    ap (map trim) (split-Free b',' w h.0.2) ∙ ap (λ (r : Text). r ∷ []) (trim_lem w h.0.1)
entries w (v ∷ ws) h =
    ap (map trim) (split-append b',' w (b' ' ∷ join (codes ", ") (v ∷ ws)) h.0.2)
    ∙ ap (λ (r : Text). r ∷ map trim (split b',' (b' ' ∷ join (codes ", ") (v ∷ ws))))
        (trim_lem w h.0.1)
    ∙ ap (λ (r : List Text). w ∷ r) (spaced_entries v ws h.1)

filter-not_blank : (ws : List Text) → All IsEntry ws → filter not_blank ws ≡ ws
unfolding filter
filter-not_blank [] h = refl
filter-not_blank ([] ∷ ws) h = absurd (h.0.0 refl)
filter-not_blank ((c ∷ w) ∷ ws) h = ground (arith, filter-not_blank ws h.1)

-- The line is not changed by `trim`.
pub trim-allowed_line :
    (w : Text) (ws : List Text)
    → All IsEntry (w ∷ ws)
    → trim (allowed_line (w ∷ ws)) ≡ allowed_line (w ∷ ws)
unfolding is_space
trim-allowed_line w ws h =
    trim-Black (allowed_line (w ∷ ws))
      (b'A', codes "llowedIPs = " ++ join (codes ", ") (w ∷ ws), refl, refl)
      (EndsBlack-append (codes "AllowedIPs = ") (join (codes ", ") (w ∷ ws))
        (EndsBlack-join w ws h))

-- What the line lists is what was written.
pub listed_nets-allowed_line :
    (w : Text) (ws : List Text)
    → All IsEntry (w ∷ ws)
    → listed_nets (allowed_line (w ∷ ws)) ≡ w ∷ ws
unfolding listed_nets behind_equals is_space
listed_nets-allowed_line w ws h =
    let text = join (codes ", ") (w ∷ ws) in
    ap (λ (r : Text). filter not_blank (map trim (split b',' r)))
      (trim-cons b' ' text refl ∙ trim-Black text (StartsBlack-join w ws h) (EndsBlack-join w ws h))
    ∙ ap (filter not_blank) (entries w ws h)
    ∙ filter-not_blank (w ∷ ws) h
