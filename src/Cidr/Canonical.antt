-- ===== src/Cidr/Canonical.antt =====
-- The canonical form: what `canonicalCidr` accepts and prints, and that it is a fixed point.
use floppyguard.Base.{
  ℕ, ◌^◌, ◌≤◌, ◌<◌, ◌≡◌, refl, false, some, List, [], ◌∷◌, All-append, ltb, arith, inl, inr,
  Option-cases,
}
use floppyguard.Base.Text.{Text, split, trim, number, decimal, is_space}
use floppyguard.Base.Text.Laws.{NoSpace, split-Free, split-append, trim_lem}
use floppyguard.Base.Text.Decimal.{
  number-decimal, Digits-decimal, NoSpace-of_Digits, is_number-decimal,
}
use floppyguard.Cidr.{
  ip_to_int, int_to_ip, masked, render, with_prefix, canonical_parts, canonical_cidr, block_parts,
  block_of,
}
use floppyguard.Cidr.Address.{
  ip_to_int-int_to_ip, ip_to_int-lt, Free-int_to_ip, NoSpace-int_to_ip, Free-decimal_slash,
}
use floppyguard.Cidr.Blocks.{masked-masked, masked-le}

-- A block as a canonical text names it: the prefix is at most 32 and the host bits are clear.
pub record IsBlock (base prefix : ℕ) : Type 0 where
  pub prefix_le : prefix ≤ 32
  pub base_lt : base < 2 ^ 32
  pub aligned : masked base prefix ≡ base

split-render :
    (base prefix : ℕ) → split b'/' (render base prefix) ≡ int_to_ip base ∷ decimal prefix ∷ []
unfolding render
split-render base prefix = rw (
  split-append b'/' (int_to_ip base) (decimal prefix) (Free-int_to_ip base),
  split-Free b'/' (decimal prefix) (Free-decimal_slash prefix),
)

slash_is_no_space : is_space b'/' ≡ false
unfolding is_space
slash_is_no_space = refl

pub NoSpace-render : (base prefix : ℕ) → NoSpace (render base prefix)
unfolding render
NoSpace-render base prefix =
    All-append (λ (x : ℕ). is_space x ≡ false) (int_to_ip base) (b'/' ∷ decimal prefix)
      (NoSpace-int_to_ip base)
      (slash_is_no_space, NoSpace-of_Digits (decimal prefix) (Digits-decimal prefix))

-- The parts of a canonical text are read back.
pub block_of-render :
    (base prefix : ℕ) → IsBlock base prefix → block_of (render base prefix) ≡ some (base, prefix)
unfolding block_of
block_of-render base prefix b = rw (
  split-render base prefix,
  block_parts,
  ip_to_int-int_to_ip base b.base_lt,
  number-decimal prefix,
)

-- A canonical text is its own canonical form.
pub canonical_cidr-render :
    (base prefix : ℕ)
    → IsBlock base prefix
    → canonical_cidr (render base prefix) ≡ some (render base prefix)
unfolding canonical_cidr
canonical_cidr-render base prefix b =
    let le = b.prefix_le in
    let small : ltb 32 prefix ≡ false = ground arith in
    rw (
      trim_lem (render base prefix) (NoSpace-render base prefix),
      split-render base prefix,
      canonical_parts,
      ip_to_int-int_to_ip base b.base_lt,
      is_number-decimal 1 prefix (omega arith),
      number-decimal prefix,
      small,
      b.aligned,
    )

-- What a text stands for, once accepted.
pub record Canonical (c : Text) : Type 0 where
  pub base : ℕ
  pub prefix : ℕ
  pub is_block : IsBlock base prefix
  pub text : c ≡ render base prefix

with_prefix-Canonical :
    (ip prefix : ℕ) (c : Text) → ip < 2 ^ 32 → with_prefix (some ip) prefix ≡ some c → Canonical c
with_prefix-Canonical ip prefix c h e = record {
  base = masked ip prefix;
  prefix = prefix;
  is_block = record {
    prefix_le = ground arith;
    base_lt = omega (arith, masked-le ip prefix);
    aligned = masked-masked ip prefix;
  };
  text = ground arith;
}

canonical_parts-Canonical :
    (parts : List Text) (c : Text) → canonical_parts parts ≡ some c → Canonical c
canonical_parts-Canonical [] c e = absurd (ground arith)
canonical_parts-Canonical (a ∷ []) c e = elim (Option-cases (ip_to_int a)) [
  | inl n ↦ absurd (cc (rw n at e))
  | inr (ip, q) ↦ with_prefix-Canonical ip 32 c (ip_to_int-lt a ip q) (rw q at e)
]
canonical_parts-Canonical (a ∷ p ∷ []) c e = elim (Option-cases (ip_to_int a)) [
  | inl n ↦ absurd (ground arith)
  | inr (ip, q) ↦ with_prefix-Canonical ip (number p) c (ip_to_int-lt a ip q) (ground arith)
]
canonical_parts-Canonical (a ∷ p ∷ x ∷ r) c e = absurd (ground arith)

pub canonical_cidr-Canonical : (t c : Text) → canonical_cidr t ≡ some c → Canonical c
unfolding canonical_cidr
canonical_cidr-Canonical t c e = canonical_parts-Canonical (split b'/' (trim t)) c e

-- The canonical form of an accepted text is its own canonical form.
pub canonical_cidr_idempotent : (t c : Text) → canonical_cidr t ≡ some c → canonical_cidr c ≡ some c
canonical_cidr_idempotent t c e =
    let k = canonical_cidr-Canonical t c e in
    rw k.text (canonical_cidr-render k.base k.prefix k.is_block)
