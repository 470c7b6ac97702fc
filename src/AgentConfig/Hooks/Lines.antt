-- ===== src/AgentConfig/Hooks/Lines.antt =====
-- What makes a text of backend/internal/agent.js a single line.
use floppyguard.Base.Text.Trim.{Free-NoSpace, All-of_append}
use floppyguard.Base.{
  ℕ, ◌≡◌, ◌≢◌, refl, Bool, true, not, ◌&&◌, Option, none, some, List, [], ◌∷◌, ◌++◌, map, all,
  length, All, All-map, All-append, all_iff, inl, inr, Bool-cases, if◌then◌else◌, ◌==◌, &&_iff, leb,
  arith,
}
use mathlib.Core.Path.{subst}
use floppyguard.Base.Text.{Text, codes, join, is_digit, is_number}
use floppyguard.Base.Text.Laws.{Free}
use floppyguard.Result.{ok, err, validation, ok-injective}
use floppyguard.Ingress.{strip, numbered, is_wg_iface}
use floppyguard.AgentConfig.Sections.Entries.{IsEntry}
use floppyguard.AgentConfig.Hooks.{sanitize_wg_interface}

abbrev one_line : ℕ → Bool
one_line c = not (c == 10)

literal : (k : Text) → All (λ c. one_line c ≡ true) k → Free 10 k
literal k h = All-map (λ c e. ground arith) k h

-- A literal in front of a line.
pub Free-lit : (k s : Text) → all one_line k ≡ true → Free 10 s → Free 10 (k ++ s)
Free-lit k s h f = All-append (λ x. x ≢ 10) k s (literal k ((all_iff one_line k).0 h)) f

Free-onto : (a s : Text) → Free 10 a → Free 10 s → Free 10 (a ++ s)
Free-onto a s h f = All-append (λ x. x ≢ 10) a s h f

pub Free-join :
    (sep : Text) (ws : List Text) → Free 10 sep → All (Free 10) ws → Free 10 (join sep ws)
unfolding join
Free-join sep [] f h = tt
Free-join sep (w ∷ []) f h = h.0
Free-join sep (w ∷ v ∷ ws) f h =
    Free-onto w (sep ++ join sep (v ∷ ws)) h.0
      (Free-onto sep (join sep (v ∷ ws)) f (Free-join sep (v ∷ ws) f h.1))

pub Free-map :
    (f : Text → Text) (ns : List Text)
    → ((n : Text) → IsEntry n → Free 10 (f n))
    → All IsEntry ns
    → All (Free 10) (map f ns)
Free-map f [] k h = tt
Free-map f (n ∷ ns) k h = (k n h.0, Free-map f ns k h.1)

strip-eq : (pre s r : Text) → strip pre s ≡ some r → s ≡ pre ++ r
unfolding strip
strip-eq [] s r h = cc
strip-eq (p ∷ pre) [] r h = absurd (cc)
strip-eq (p ∷ pre) (c ∷ s) r h = elim (Bool-cases (p == c)) [
  | inl e ↦ ground (arith, strip-eq pre s r (rw e at h))
  | inr e ↦ absurd (cc (rw e at h))
]

digits_line : (most : ℕ) (s : Text) → is_number most s ≡ true → Free 10 s
unfolding is_number is_digit
digits_line most s h =
    All-map (λ c e. ground arith) s
      ((all_iff is_digit s).0
        ((&&_iff (leb 1 (length s) && leb (length s) most) (all is_digit s)).0 h).1)

Free-iface : (n : Text) → is_wg_iface n ≡ true → Free 10 n
unfolding is_wg_iface all
Free-iface n h = by_strip (strip (codes "wg") n) refl h
  where
    by_strip : (o : Option Text) → strip (codes "wg") n ≡ o → numbered 3 o ≡ true → Free 10 n
    by_strip none e k = absurd (cc)
    by_strip (some s) e k =
        rw (strip-eq (codes "wg") n s e) (Free-lit (codes "wg") s refl (digits_line 3 s k))

pub sanitize_wg_interface-Free : (name n : Text) → sanitize_wg_interface name ≡ ok n → Free 10 n
unfolding sanitize_wg_interface
sanitize_wg_interface-Free name n h = checked (if length name == 0 then codes "wg0" else name) h
  where
    checked :
        (m : Text)
        → (if is_wg_iface m
            then ok m
            else err (validation (codes "wg_interface must match wg<number>, e.g. \"wg0\"")))
          ≡ ok n
        → Free 10 n
    checked m e = elim (Bool-cases (is_wg_iface m)) [
      | inl t ↦ subst (Free 10) (ok-injective (rw t at e)) (Free-iface m t)
      | inr f ↦ absurd (cc (rw f at e))
    ]

pub Free-IsEntry : (n : Text) → IsEntry n → Free 10 n
Free-IsEntry n h = Free-NoSpace n h.1

-- Three texts between literals.
pub Free-pattern :
    (k f l x m y n : Text)
    → all one_line (k ++ (l ++ (m ++ n))) ≡ true
    → Free 10 f
    → Free 10 x
    → Free 10 y
    → Free 10 (k ++ (f ++ (l ++ (x ++ (m ++ (y ++ n))))))
Free-pattern k f l x m y n h a b c =
    let (p, pr) =
      All-of_append (λ c. one_line c ≡ true) k (l ++ (m ++ n))
        ((all_iff one_line (k ++ (l ++ (m ++ n)))).0 h) in
    let (q, qr) = All-of_append (λ c. one_line c ≡ true) l (m ++ n) pr in
    let (r, t) = All-of_append (λ c. one_line c ≡ true) m n qr in
    Free-onto k (f ++ (l ++ (x ++ (m ++ (y ++ n))))) (literal k p) (
      Free-onto f (l ++ (x ++ (m ++ (y ++ n)))) a (
        Free-onto l (x ++ (m ++ (y ++ n))) (literal l q) (
          Free-onto x (m ++ (y ++ n)) b
            (Free-onto m (y ++ n) (literal m r) (Free-onto y n c (literal n t))))))
