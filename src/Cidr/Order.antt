-- ===== src/Cidr/Order.antt =====
-- `cidrContains` as an order on the accepted texts.
use floppyguard.Base.{ℕ, ◌≤◌, ◌≡◌, ◌≢◌, sym, ap, ◌∙◌, true, none, some, arith}
use floppyguard.Base.Text.{Text}
use floppyguard.Cidr.{masked, render, canonical_cidr, cidr_contains}
use floppyguard.Cidr.Contains.{
  Accepted, Accepted-of_canonical, Accepted-of_contains, cidr_contains_iff, cidr_contains-block,
}

some_inj : {a b : Text} → some a ≡ some b → a ≡ b
some_inj e = cc

pub accepted_valid : (t : Text) → Accepted t → canonical_cidr t ≢ none
accepted_valid t x n = cc (x.canonical)

pub contains_refl : (t c : Text) → canonical_cidr t ≡ some c → cidr_contains t t ≡ true
contains_refl t c e =
    (cidr_contains_iff t t (accepted_valid t (Accepted-of_canonical t c e))).1 (λ a h. h)

pub contains_trans :
    (x y z : Text) → cidr_contains x y ≡ true → cidr_contains y z ≡ true → cidr_contains x z ≡ true
contains_trans x y z p q =
    let (_, by) = Accepted-of_contains x y p in
    let (_, bz) = Accepted-of_contains y z q in
    (cidr_contains_iff x z (accepted_valid z bz)).1 (λ a h.
      (cidr_contains_iff x y (accepted_valid y by)).0 p a
        ((cidr_contains_iff y z (accepted_valid z bz)).0 q a h))

blocks_of_contains :
    (x y : Text) (bx : Accepted x) (by : Accepted y)
    → cidr_contains x y ≡ true
    → (bx.prefix ≤ by.prefix) × (masked by.base bx.prefix ≡ masked bx.base bx.prefix)
blocks_of_contains x y bx by h =
    let e = rw (cidr_contains-block x y, bx.named, by.named) at h in (ground arith, ground arith)

-- Two canonical texts that contain each other are the same text; otherwise the outer one has the
-- shorter prefix.
pub contains_antisymm :
    (x y : Text) (bx : Accepted x) (by : Accepted y)
    → canonical_cidr x ≡ some x
    → canonical_cidr y ≡ some y
    → cidr_contains x y ≡ true
    → by.prefix ≤ bx.prefix
    → x ≡ y
contains_antisymm x y bx by cx cy h le =
    let (le', m) = blocks_of_contains x y bx by h in
    let same_prefix : bx.prefix ≡ by.prefix = omega arith in
    let m' : masked by.base by.prefix ≡ masked bx.base bx.prefix =
      ap (masked by.base) (sym same_prefix) ∙ m in
    let same_base : by.base ≡ bx.base = sym by.is_block.aligned ∙ m' ∙ bx.is_block.aligned in
    let same : render bx.base bx.prefix ≡ render by.base by.prefix =
      ap (λ (b : ℕ). render b bx.prefix) (sym same_base) ∙ ap (render by.base) same_prefix in
    some_inj (sym cx ∙ bx.canonical ∙ ap some same ∙ sym by.canonical ∙ cy)

pub prefix_le_of_contains :
    (x y : Text) (bx : Accepted x) (by : Accepted y)
    → cidr_contains x y ≡ true
    → bx.prefix ≤ by.prefix
prefix_le_of_contains x y bx by h = (blocks_of_contains x y bx by h).0
