-- ===== src/Cidr/Contains.antt =====
-- `cidrContains` and `cidrOverlaps` against the addresses that a block holds.
use floppyguard.Base.{
  ◌||◌, ℕ, ◌+◌, ◌-◌, ◌/◌, ◌^◌, ◌≤◌, ◌≡◌, ◌≢◌, ◌↔◌, ◌⊎◌, refl, sym, ap, ◌∙◌, Bool, true, false,
  Option, none, some, ltb, ◌==◌, ==_iff, arith, inl, inr, Bool-cases, Option-cases,
}
use floppyguard.Base.Text.{Text}
use floppyguard.Cidr.{
  masked, render, canonical_cidr, block_of, blocks_contain, cidr_contains, cidr_overlaps,
}
use floppyguard.Cidr.Canonical.{IsBlock, block_of-render, canonical_cidr-Canonical}
use floppyguard.Cidr.Blocks.{div_pow_le, masked_iff, next_block}

-- The base and the prefix that a text stands for, if it is accepted.
unfoldable pub block : Text → Option (ℕ × ℕ)
block t = elim (canonical_cidr t) [ none ↦ none | some c ↦ block_of c ]

abbrev same_block : Option (ℕ × ℕ) → ℕ → Bool
same_block none a = false
same_block (some (b, p)) a = a / 2 ^ (32 - p) == b / 2 ^ (32 - p)

-- Whether an address lies in the block that a text names.
unfoldable pub covers : Text → ℕ → Bool
covers t a = same_block (block t) a

-- An accepted text, with its block.
pub record Accepted (t : Text) : Type 0 where
  pub base : ℕ
  pub prefix : ℕ
  pub is_block : IsBlock base prefix
  pub canonical : canonical_cidr t ≡ some (render base prefix)
  pub named : block t ≡ some (base, prefix)

pub Accepted-of_canonical : (t c : Text) → canonical_cidr t ≡ some c → Accepted t
unfolding block
Accepted-of_canonical t c e =
    let k = canonical_cidr-Canonical t c e in
    let e' : canonical_cidr t ≡ some (render k.base k.prefix) = e ∙ ap some k.text in
    record {
      base = k.base;
      prefix = k.prefix;
      is_block = k.is_block;
      canonical = e';
      named = rw (block, e') (block_of-render k.base k.prefix k.is_block);
    }

pub block-cases : (t : Text) → ((canonical_cidr t ≡ none) × (block t ≡ none)) ⊎ Accepted t
unfolding block
block-cases t = elim (Option-cases (canonical_cidr t)) [
  | inl e ↦ inl (e, rw (block, e))
  | inr (c, e) ↦ inr (Accepted-of_canonical t c e)
]

-- The comparison of texts is the comparison of the blocks that they name.
pub cidr_contains-block : (o i : Text) → cidr_contains o i ≡ blocks_contain (block o) (block i)
unfolding cidr_contains
cidr_contains-block o i = elim (block-cases o) [
  | inl n ↦ rw (cidr_contains, n.0, n.1)
  | inr x ↦ elim (block-cases i) [
    | inl n ↦ rw (cidr_contains, x.canonical, n.0, x.named, n.1)
    | inr y ↦ rw (
      cidr_contains,
      x.canonical,
      y.canonical,
      x.named,
      y.named,
      block_of-render x.base x.prefix x.is_block,
      block_of-render y.base y.prefix y.is_block,
    )
  ]
]

module _ (o p i q : ℕ) where
  -- Of two blocks with clear host bits, when one holds every address of the other.
  blocks_contain_sound :
      (a : ℕ)
      → blocks_contain (some (o, p)) (some (i, q)) ≡ true
      → a / 2 ^ (32 - q) ≡ i / 2 ^ (32 - q)
      → a / 2 ^ (32 - p) ≡ o / 2 ^ (32 - p)
  blocks_contain_sound a c e =
      let le : p ≤ q = ground arith in
      let same : masked i p ≡ masked o p = ground arith in
      let down = div_pow_le a (32 - q) (32 - p) (omega arith) in
      let down' = div_pow_le i (32 - q) (32 - p) (omega arith) in
      down ∙ ap (λ (m : ℕ). m / 2 ^ (32 - p - (32 - q))) e ∙ sym down' ∙ (masked_iff i o p).0 same

  blocks_contain_complete :
      IsBlock i q
      → q ≤ 32
      → p ≤ 32
      → ((a : ℕ) → a / 2 ^ (32 - q) ≡ i / 2 ^ (32 - q) → a / 2 ^ (32 - p) ≡ o / 2 ^ (32 - p))
      → blocks_contain (some (o, p)) (some (i, q)) ≡ true
  blocks_contain_complete b lq lp f = elim (Bool-cases (ltb q p)) [
    | inl wider ↦
        let n = next_block i (32 - p) (32 - q) (ground arith) (unfold masked in b.aligned) in
        let here = f i refl in
        let there = f (i + 2 ^ (32 - p)) n.0 in absurd (omega (arith, n.1, here, there))
    | inr fits ↦ rw (fits, (masked_iff i o p).1 (f i refl)) (ground arith)
  ]

-- For an accepted `inner`, `cidrContains` answers true exactly when `outer` holds every address
-- of `inner`.
pub cidr_contains_iff :
    (outer inner : Text)
    → canonical_cidr inner ≢ none
    → (cidr_contains outer inner ≡ true) ↔ ((a : ℕ) → covers inner a ≡ true → covers outer a ≡ true)
unfolding covers
cidr_contains_iff outer inner valid = elim (block-cases inner) [
  | inl n ↦ absurd (valid n.0)
  | inr y ↦ elim (block-cases outer) [
    | inl n ↦
        rw (cidr_contains-block outer inner, n.1, y.named)
          ((λ c. absurd (cc)), (λ f. f y.base ((==_iff _ _).1 refl)))
    | inr x ↦
        rw (cidr_contains-block outer inner, x.named, y.named)
          (
            (λ c a e.
                (==_iff _ _).1
                  (blocks_contain_sound x.base x.prefix y.base y.prefix a c ((==_iff _ _).0 e))),
            (λ f.
                blocks_contain_complete x.base x.prefix y.base y.prefix y.is_block
                  y.is_block.prefix_le x.is_block.prefix_le
                  (λ a e. (==_iff _ _).0 (f a ((==_iff _ _).1 e)))),
          )
  ]
]

covers_base : (t : Text) (x : Accepted t) → covers t x.base ≡ true
unfolding covers
covers_base t x = rw x.named ((==_iff _ _).1 refl)

-- A text that contains another, and the other, are accepted.
pub Accepted-of_contains : (o i : Text) → cidr_contains o i ≡ true → Accepted o × Accepted i
Accepted-of_contains o i c = elim (block-cases o) [
  | inl n ↦ absurd (cc (rw (cidr_contains-block o i, n.1) at c))
  | inr x ↦ elim (block-cases i) [
    | inl n ↦ absurd (cc (rw (cidr_contains-block o i, x.named, n.1) at c))
    | inr y ↦ (x, y)
  ]
]

inner_address :
    (o i : Text) → cidr_contains o i ≡ true → (a : ℕ) × (covers o a ≡ true) × (covers i a ≡ true)
inner_address o i c =
    let (_, y) = Accepted-of_contains o i c in
    let here = covers_base i y in
    let valid : canonical_cidr i ≢ none = λ n. cc (y.canonical) in
    (y.base, (cidr_contains_iff o i valid).0 c y.base here, here)

overlap_address :
    (x y : Text) → cidr_overlaps x y ≡ true → (a : ℕ) × (covers x a ≡ true) × (covers y a ≡ true)
unfolding cidr_overlaps
overlap_address x y h = elim (Bool-cases (cidr_contains x y)) [
  | inl c ↦ inner_address x y c
  | inr c ↦ let (a, l, r) = inner_address y x (rw c at h) in (a, r, l)
]

-- Of two blocks that share an address, the one with the longer prefix lies in the other.
shared_contains :
    (x y : Text) (a : ℕ) (bx : Accepted x) (by : Accepted y)
    → bx.prefix ≤ by.prefix
    → covers x a ≡ true
    → covers y a ≡ true
    → cidr_contains x y ≡ true
unfolding covers
shared_contains x y a bx by le hx hy =
    let ex : a / 2 ^ (32 - bx.prefix) ≡ bx.base / 2 ^ (32 - bx.prefix) =
      (==_iff _ _).0 (rw bx.named at hx) in
    let ey : a / 2 ^ (32 - by.prefix) ≡ by.base / 2 ^ (32 - by.prefix) =
      (==_iff _ _).0 (rw by.named at hy) in
    let down = div_pow_le a (32 - by.prefix) (32 - bx.prefix) (omega arith) in
    let down' = div_pow_le by.base (32 - by.prefix) (32 - bx.prefix) (omega arith) in
    let e =
      down'
      ∙ ap (λ (m : ℕ). m / 2 ^ (32 - bx.prefix - (32 - by.prefix))) (sym ey)
      ∙ sym down
      ∙ ex in
    let fits : ltb by.prefix bx.prefix ≡ false = ground arith in
    rw
      (
        cidr_contains-block x y,
        bx.named,
        by.named,
        fits,
        (masked_iff by.base bx.base bx.prefix).1 e,
      )
      (ground arith)

covers-Accepted : (t : Text) (a : ℕ) → covers t a ≡ true → Accepted t
unfolding covers
covers-Accepted t a h = elim (block-cases t) [ inl n ↦ absurd (cc (rw n.1 at h)) | inr x ↦ x ]

address_overlap :
    (x y : Text) → (a : ℕ) × (covers x a ≡ true) × (covers y a ≡ true) → cidr_overlaps x y ≡ true
unfolding cidr_overlaps
address_overlap x y (a, hx, hy) =
    let bx = covers-Accepted x a hx in
    let by = covers-Accepted y a hy in
    elim (Bool-cases (ltb by.prefix bx.prefix)) [
      | inl l ↦ rw (shared_contains y x a by bx (ground arith) hy hx) (ground arith)
      | inr l ↦ rw (shared_contains x y a bx by (ground arith) hx hy)
    ]

-- Two texts overlap exactly when some address lies in both blocks.
pub cidr_overlaps_iff :
    (x y : Text)
    → (cidr_overlaps x y ≡ true) ↔ ((a : ℕ) × (covers x a ≡ true) × (covers y a ≡ true))
cidr_overlaps_iff x y = (overlap_address x y, address_overlap x y)

-- Some address lies in both networks.
abbrev pub Shares : Text → Text → Type 0
Shares x y = (a : ℕ) × (covers x a ≡ true) × (covers y a ≡ true)

-- One text contains the other one exactly if they share an address.
pub either_contains_iff :
    (x y : Text) → ((cidr_contains x y || cidr_contains y x) ≡ true) ↔ Shares x y
unfolding cidr_overlaps
either_contains_iff x y = cidr_overlaps_iff x y
