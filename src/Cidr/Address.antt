-- ===== src/Cidr/Address.antt =====
-- Addresses: what `intToIp` prints, `ipToInt` reads back, and every accepted text is below 2 ^ 32.
use floppyguard.Base.{
  ℕ, ◌+◌, ◌*◌, ◌/◌, ◌%◌, ◌^◌, ◌<◌, ◌≡◌, refl, ap, ◌∙◌, false, some, List, [], ◌∷◌, ◌++◌, All-append,
  arith, ◌≢◌,
}
use floppyguard.Base.Text.{Text, split, decimal, is_digit, is_space}
use floppyguard.Base.Text.Laws.{Free, NoSpace, split-Free, split-append}
use floppyguard.Base.Text.Decimal.{
  number-decimal, Digits-decimal, Free-of_Digits, NoSpace-of_Digits, is_number-decimal,
}
use floppyguard.Cidr.{octets, ip_to_int, int_to_ip}

Free-decimal : (c n : ℕ) → is_digit c ≡ false → Free c (decimal n)
Free-decimal c n h = Free-of_Digits c (decimal n) h (Digits-decimal n)

dot_is_no_digit : is_digit b'.' ≡ false
unfolding is_digit
dot_is_no_digit = refl

slash_is_no_digit : is_digit b'/' ≡ false
unfolding is_digit
slash_is_no_digit = refl

octets-decimal :
    (a b c d : ℕ)
    → a < 256
    → b < 256
    → c < 256
    → d < 256
    → octets (decimal a ∷ decimal b ∷ decimal c ∷ decimal d ∷ [])
      ≡ some (a * 2 ^ 24 + b * 2 ^ 16 + c * 2 ^ 8 + d)
octets-decimal a b c d ha hb hc hd =
    rw
      (
        is_number-decimal 2 a (omega arith),
        is_number-decimal 2 b (omega arith),
        is_number-decimal 2 c (omega arith),
        is_number-decimal 2 d (omega arith),
        number-decimal a,
        number-decimal b,
        number-decimal c,
        number-decimal d,
      )
      (ground arith)

split_quad :
    (a b c d : ℕ)
    → split b'.' (decimal a ++ (b'.' ∷ (decimal b ++ (b'.' ∷ (decimal c ++ (b'.' ∷ decimal d))))))
      ≡ decimal a ∷ decimal b ∷ decimal c ∷ decimal d ∷ []
split_quad a b c d = rw (
  split-append b'.' (decimal a) _ (Free-decimal b'.' a dot_is_no_digit),
  split-append b'.' (decimal b) _ (Free-decimal b'.' b dot_is_no_digit),
  split-append b'.' (decimal c) _ (Free-decimal b'.' c dot_is_no_digit),
  split-Free b'.' (decimal d) (Free-decimal b'.' d dot_is_no_digit),
)

pub ip_to_int-int_to_ip : (n : ℕ) → n < 2 ^ 32 → ip_to_int (int_to_ip n) ≡ some n
unfolding ip_to_int int_to_ip
ip_to_int-int_to_ip n h =
    ap octets (split_quad (n / 2 ^ 24 % 256) (n / 2 ^ 16 % 256) (n / 2 ^ 8 % 256) (n % 256))
    ∙ octets-decimal _ _ _ _ (omega arith) (omega arith) (omega arith) (omega arith)
    ∙ ap some (omega arith)

octets-lt : (parts : List Text) (n : ℕ) → octets parts ≡ some n → n < 2 ^ 32
octets-lt [] n h = ground arith
octets-lt (a ∷ []) n h = ground arith
octets-lt (a ∷ b ∷ []) n h = ground arith
octets-lt (a ∷ b ∷ c ∷ []) n h = ground arith
octets-lt (a ∷ b ∷ c ∷ d ∷ []) n h = ground arith
octets-lt (a ∷ b ∷ c ∷ d ∷ e ∷ r) n h = ground arith

pub ip_to_int-lt : (ip : Text) (n : ℕ) → ip_to_int ip ≡ some n → n < 2 ^ 32
unfolding ip_to_int
ip_to_int-lt ip n h = octets-lt (split b'.' ip) n h

-- The text of an address holds no slash.
pub Free-int_to_ip : (n : ℕ) → Free b'/' (int_to_ip n)
unfolding int_to_ip
Free-int_to_ip n =
    let free = λ (m : ℕ). Free-decimal b'/' m slash_is_no_digit in
    let dot : (s : Text) → Free b'/' s → Free b'/' (b'.' ∷ s) = λ s h. (omega arith, h) in
    let P = λ (x : ℕ). x ≢ b'/' in
    All-append P _ _ (free (n / 2 ^ 24 % 256)) (
      dot _ (
        All-append P _ _ (free (n / 2 ^ 16 % 256))
          (dot _ (All-append P _ _ (free (n / 2 ^ 8 % 256)) (dot _ (free (n % 256)))))))

pub Free-decimal_slash : (n : ℕ) → Free b'/' (decimal n)
Free-decimal_slash n = Free-decimal b'/' n slash_is_no_digit

-- Nor white space.
pub NoSpace-int_to_ip : (n : ℕ) → NoSpace (int_to_ip n)
unfolding int_to_ip is_space
NoSpace-int_to_ip n =
    let free = λ (m : ℕ). NoSpace-of_Digits (decimal m) (Digits-decimal m) in
    let P = λ (x : ℕ). is_space x ≡ false in
    All-append P _ _ (free (n / 2 ^ 24 % 256)) (
      refl,
      All-append P _ _ (free (n / 2 ^ 16 % 256))
          (refl, All-append P _ _ (free (n / 2 ^ 8 % 256)) (refl, free (n % 256))),
    )
