-- ===== src/SiteIsolation/Pairs/Ids.antt =====
-- A link id never holds the separator of `sanitizePairs`, so the keys of its map tell pairs apart.
use floppyguard.Base.{
  ℕ, ◌≡◌, ◌≢◌, refl, sym, ap, ◌∙◌, true, Option, none, some, [], ◌∷◌, ◌++◌, All-append, All-map,
  all, all_iff, length, leb, ◌==◌, and3_iff, and4_iff, arith, inl, inr, Bool-cases, Option-cases,
}
use floppyguard.Base.Text.{Text, codes, split, is_digit, is_number}
use floppyguard.Base.Text.Laws.{Free, split-Free, split-append}
use floppyguard.Ingress.{strip}
use floppyguard.SiteIsolation.{Pair}
use floppyguard.SiteIsolation.Pairs.{is_key_code, cut_colon, wg_number, is_link_id, pair_key}

cut_colon-append : (s : Text) (p : Text × Text) → cut_colon s ≡ some p → s ≡ p.0 ++ (b':' ∷ p.1)
unfolding cut_colon
cut_colon-append [] p e = absurd (cc)
cut_colon-append (c ∷ s) p e = elim (Bool-cases (c == b':')) [
  | inl h ↦ ground arith
  | inr h ↦ elim (Option-cases (cut_colon s)) [
    | inl n ↦ absurd (cc (rw (h, n) at e))
    | inr (q, f) ↦
        let same : some ((c ∷ q.0), q.1) ≡ some p = rw (h, f) at e in
        let rest = cut_colon-append s q f in cc (same, rest)
  ]
]

strip-append : (pre s r : Text) → strip pre s ≡ some r → s ≡ pre ++ r
unfolding strip
strip-append [] s r e = cc
strip-append (p ∷ pre) [] r e = absurd (cc)
strip-append (p ∷ pre) (c ∷ s) r e = elim (Bool-cases (p == c)) [
  | inl h ↦ ground (arith, strip-append pre s r (rw h at e))
  | inr h ↦ absurd (cc (rw h at e))
]

digit_is_no_bar : (c : ℕ) → is_digit c ≡ true → c ≢ b'|'
unfolding is_digit
digit_is_no_bar c h e = ground arith

key_code_is_no_bar : (c : ℕ) → is_key_code c ≡ true → c ≢ b'|'
unfolding is_key_code is_digit
key_code_is_no_bar c h e = ground arith

wg_number-Free : (o : Option Text) → wg_number o ≡ true → (n : Text) × (o ≡ some n) × Free b'|' n
unfolding is_number
wg_number-Free none h = absurd (cc)
wg_number-Free (some n) h =
    let parts = (and3_iff (leb 1 (length n)) (leb (length n) 3) (all is_digit n)).0 h in
    (n, refl, All-map digit_is_no_bar n ((all_iff is_digit n).0 parts.2))

pub Free-is_link_id : (id : Text) → is_link_id id ≡ true → Free b'|' id
unfolding is_link_id
Free-is_link_id id h = elim (Option-cases (cut_colon id)) [
  | inl n ↦ absurd (cc (rw (is_link_id, n) at h))
  | inr (p, e) ↦
      let parts =
        (and4_iff (wg_number (strip (codes "wg") p.0)) (leb 1 (length p.1)) (leb (length p.1) 64)
            (all is_key_code p.1)).0
          (rw (is_link_id, e) at h) in
      let (n, s, digits) = wg_number-Free (strip (codes "wg") p.0) parts.0 in
      let front : Free b'|' (codes "wg" ++ n) =
        ((λ q. ground arith), ((λ q. ground arith), digits)) in
      let keys : Free b'|' p.1 =
        All-map key_code_is_no_bar p.1 ((all_iff is_key_code p.1).0 parts.3) in
      let left : p.0 ≡ codes "wg" ++ n = strip-append (codes "wg") p.0 n s in
      let whole : id ≡ codes "wg" ++ n ++ (b':' ∷ p.1) =
        cut_colon-append id p e ∙ ap (λ (t : Text). t ++ (b':' ∷ p.1)) left in
      rw whole (
        All-append (λ (x : ℕ). x ≢ b'|') (codes "wg" ++ n) (b':' ∷ p.1) front
          ((λ q. ground arith), keys))
]

-- Pairs of link ids with the same key are the same pair.
pub pair_key-injective :
    (p q : Pair)
    → Free b'|' p.a
    → Free b'|' p.b
    → Free b'|' q.a
    → Free b'|' q.b
    → pair_key p ≡ pair_key q
    → p ≡ q
pair_key-injective p q pa pb qa qb e =
    let split_p = split-append b'|' p.a p.b pa ∙ ap (p.a ∷◌) (split-Free b'|' p.b pb) in
    let split_q = split-append b'|' q.a q.b qa ∙ ap (q.a ∷◌) (split-Free b'|' q.b qb) in
    let lists : p.a ∷ p.b ∷ [] ≡ q.a ∷ q.b ∷ [] = sym split_p ∙ ap (split b'|') e ∙ split_q in
    pair_eq (cc) (cc)
  where
    pair_eq : p.a ≡ q.a → p.b ≡ q.b → p ≡ q
    pair_eq e f = cc
