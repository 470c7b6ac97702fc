-- ===== src/DirectLink/Peers/Sorted.antt =====
-- What `sort()` gives stays as it is when it is sorted again.
use floppyguard.Base.{◌≡◌, refl, ap, ◌∙◌, true, false, List, [], ◌∷◌, inl, inr, Bool-cases, arith}
use floppyguard.Base.Text.{Text}
use floppyguard.SiteIsolation.{text_lt}
use floppyguard.DirectLink.Peers.{sort_texts, insert_text}

-- No entry is smaller than the one in front of it.
abbrev pub IsOrdered : List Text → Type 0
IsOrdered [] = Unit
IsOrdered (t ∷ []) = Unit
IsOrdered (t ∷ u ∷ us) = (text_lt u t ≡ false) × IsOrdered (u ∷ us)

text_lt-asym : (s t : Text) → text_lt s t ≡ true → text_lt t s ≡ false
unfolding text_lt
text_lt-asym [] [] h = refl
text_lt-asym [] (b ∷ t) h = refl
text_lt-asym (a ∷ s) [] h = absurd (cc)
text_lt-asym (a ∷ s) (b ∷ t) h = ground (arith, text_lt-asym s t)

IsOrdered-insert_text : (t : Text) (us : List Text) → IsOrdered us → IsOrdered (insert_text t us)
unfolding insert_text
IsOrdered-insert_text t [] o = tt
IsOrdered-insert_text t (u ∷ []) o = elim (Bool-cases (text_lt u t)) [
  | inl e ↦ rw e (text_lt-asym u t e, tt)
  | inr e ↦ rw e (e, tt)
]
IsOrdered-insert_text t (u ∷ v ∷ us) o = elim (Bool-cases (text_lt u t)) [
  | inr e ↦ rw e (e, o)
  | inl e ↦
      let rest = IsOrdered-insert_text t (v ∷ us) o.1 in
      elim (Bool-cases (text_lt v t)) [
        | inl f ↦ rw (e, f) (o.0, rw f at rest)
        | inr f ↦ rw (e, f) (text_lt-asym u t e, rw f at rest)
      ]
]

pub IsOrdered-sort_texts : (ts : List Text) → IsOrdered (sort_texts ts)
unfolding sort_texts
IsOrdered-sort_texts [] = tt
IsOrdered-sort_texts (t ∷ ts) = IsOrdered-insert_text t (sort_texts ts) (IsOrdered-sort_texts ts)

insert_text-IsOrdered : (t : Text) (us : List Text) → IsOrdered (t ∷ us) → insert_text t us ≡ t ∷ us
unfolding insert_text
insert_text-IsOrdered t [] o = refl
insert_text-IsOrdered t (u ∷ us) o = rw (o.0) refl

tail-IsOrdered : (t : Text) (us : List Text) → IsOrdered (t ∷ us) → IsOrdered us
tail-IsOrdered t [] o = tt
tail-IsOrdered t (u ∷ us) o = o.1

pub sort_texts-IsOrdered : (ts : List Text) → IsOrdered ts → sort_texts ts ≡ ts
unfolding sort_texts
sort_texts-IsOrdered [] o = refl
sort_texts-IsOrdered (t ∷ ts) o =
    ap (insert_text t) (sort_texts-IsOrdered ts (tail-IsOrdered t ts o))
    ∙ insert_text-IsOrdered t ts o
