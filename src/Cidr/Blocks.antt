-- ===== src/Cidr/Blocks.antt =====
-- Blocks as sets of addresses: a block with `h` host bits holds the addresses that agree with its
-- base above those bits.
use native.Mathlib.Nat.{div-div-eq-div-mul, pow-suc, one-le-pow, div-eq_of_lt-le, pow-le-pow_right}
use floppyguard.Base.{
  ℕ, zero, suc, ◌+◌, ◌-◌, ◌*◌, ◌/◌, ◌^◌, ◌≤◌, ◌<◌, ◌≡◌, sym, ap, ◌∙◌, arith, ◌↔◌,
}
use floppyguard.Cidr.{masked}

pub pow_pos : (k : ℕ) → 0 < 2 ^ k
pow_pos k = one-le-pow k 2 (omega arith)

pub pow_add : (j k : ℕ) → 2 ^ (j + k) ≡ 2 ^ j * 2 ^ k
pow_add zero k = omega (arith, ap (λ (m : ℕ). 2 ^ m) (Prim.Native.Nat.add.zero k))
pow_add (suc j) k =
    ap (λ (m : ℕ). 2 ^ m) (Prim.Native.Nat.add.suc j k)
    ∙ grind (arith, pow-suc 2 (j + k), pow-suc 2 j, pow_add j k)

-- Dropping more bits can be done after dropping fewer.
pub div_pow_le : (n j k : ℕ) → j ≤ k → n / 2 ^ k ≡ n / 2 ^ j / 2 ^ (k - j)
div_pow_le n j k h =
    ap (λ (m : ℕ). n / 2 ^ m) (omega arith)
    ∙ ap (λ (m : ℕ). n / m) (pow_add j (k - j))
    ∙ sym (div-div-eq-div-mul n (2 ^ j) (2 ^ (k - j)))

-- The masks of two addresses agree exactly if the bits above do.
pub masked_iff : (a b p : ℕ) → (masked a p ≡ masked b p) ↔ (a / 2 ^ (32 - p) ≡ b / 2 ^ (32 - p))
unfolding masked
masked_iff a b p = (
  (λ e. sym (q a) ∙ ap (λ (m : ℕ). m / 2 ^ (32 - p)) e ∙ q b),
  (λ e. ap (λ (m : ℕ). m * 2 ^ (32 - p)) e),
)
  where
    q : (n : ℕ) → n / 2 ^ (32 - p) * 2 ^ (32 - p) / 2 ^ (32 - p) ≡ n / 2 ^ (32 - p)
    q n = native.Mathlib.Nat.mul-div_left (n / 2 ^ (32 - p)) (pow_pos (32 - p))

pub masked-masked : (a p : ℕ) → masked (masked a p) p ≡ masked a p
unfolding masked
masked-masked a p =
    ap (λ (m : ℕ). m * 2 ^ (32 - p))
      (native.Mathlib.Nat.mul-div_left (a / 2 ^ (32 - p)) (pow_pos (32 - p)))

pub masked-le : (a p : ℕ) → masked a p ≤ a
unfolding masked
masked-le a p = native.Mathlib.Nat.div-mul-le_self a (2 ^ (32 - p))

-- A base with its host bits clear, and one more block of a smaller size, lie in the same block.
pub next_block :
    (b h k : ℕ)
    → h < k
    → b / 2 ^ k * 2 ^ k ≡ b
    → ((b + 2 ^ h) / 2 ^ k ≡ b / 2 ^ k) × ((b + 2 ^ h) / 2 ^ h ≡ b / 2 ^ h + 1)
next_block b h k l e = (
  div-eq_of_lt-le (2 ^ k) (omega (arith, e))
      (omega (arith, e, pow-le-pow_right {n = 2} (omega arith) l, pow-suc 2 h, pow_pos h)),
  native.Mathlib.Nat.add-div_right b (pow_pos h),
)
