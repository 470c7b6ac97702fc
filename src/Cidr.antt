-- ===== src/Cidr.antt =====
-- IPv4 addresses and CIDR blocks of backend/internal/agent-ingress-rules.js: `ipToInt`, `intToIp`,
-- `canonicalCidr`, `cidrContains`, and `cidrOverlaps` of backend/internal/site-isolation-rules.js.
pub mod Address
pub mod Canonical
pub mod Blocks
pub mod Contains
pub mod Order
use floppyguard.Base.{
  ℕ, ◌+◌, ◌-◌, ◌*◌, ◌/◌, ◌%◌, ◌^◌, ◌≡◌, Bool, true, false, not, ◌&&◌, ◌||◌, Option, none, some,
  List, [], ◌∷◌, ◌++◌, if◌then◌else◌, ltb, leb, ◌==◌, all,
}
use floppyguard.Base.Text.{Text, codes, split, trim, is_number, number, decimal}

-- `IPV4_RE`: four groups of one to three digits between dots, each at most 255.
abbrev octets : List Text → Option ℕ
octets (a ∷ b ∷ c ∷ d ∷ []) =
    if is_number 3 a && is_number 3 b && is_number 3 c && is_number 3 d
    then (if ltb 255 (number a) || ltb 255 (number b) || ltb 255 (number c) || ltb 255 (number d)
        then none
        else some (number a * 2 ^ 24 + number b * 2 ^ 16 + number c * 2 ^ 8 + number d))
    else none
octets _ = none

unfoldable pub ip_to_int : Text → Option ℕ
ip_to_int ip = octets (split b'.' ip)

-- `(n >>> 24) & 255` and so on, joined by dots.
unfoldable pub int_to_ip : ℕ → Text
int_to_ip n =
    decimal (n / 2 ^ 24 % 256)
    ++ (b'.'
        ∷ (decimal (n / 2 ^ 16 % 256)
            ++ (b'.' ∷ (decimal (n / 2 ^ 8 % 256) ++ (b'.' ∷ decimal (n % 256))))))

-- `ip & mask` for `mask = prefix === 0 ? 0 : 0xffffffff << (32 - prefix)`: the bits below
-- `32 - prefix` are cleared.
unfoldable pub masked : ℕ → ℕ → ℕ
masked ip prefix = ip / 2 ^ (32 - prefix) * 2 ^ (32 - prefix)

-- The text of the block that starts at an address: "a.b.c.d/p".
unfoldable pub render : ℕ → ℕ → Text
render base prefix = int_to_ip base ++ (b'/' ∷ decimal prefix)

abbrev with_prefix : Option ℕ → ℕ → Option Text
with_prefix none prefix = none
with_prefix (some ip) prefix =
    if ltb 32 prefix then none else some (render (masked ip prefix) prefix)

-- The parts of `s.split("/")`; `extra !== undefined` is a third part.
abbrev canonical_parts : List Text → Option Text
canonical_parts (addr ∷ []) = with_prefix (ip_to_int addr) 32
canonical_parts (addr ∷ prefix ∷ []) = elim (ip_to_int addr) [
  | none ↦ none
  | some ip ↦ if is_number 2 prefix then with_prefix (some ip) (number prefix) else none
]
canonical_parts _ = none

-- `canonicalCidr` of `String(value ?? "")`; an empty text is no address.
unfoldable pub canonical_cidr : Text → Option Text
canonical_cidr value = canonical_parts (split b'/' (trim value))

-- `const [addr, p] = c.split("/")` of a canonical text, as the numbers that the comparison uses.
abbrev block_parts : List Text → Option (ℕ × ℕ)
block_parts (addr ∷ prefix ∷ _) = elim (ip_to_int addr) [
  | none ↦ none
  | some ip ↦ some (ip, number prefix)
]
block_parts _ = none

unfoldable pub block_of : Text → Option (ℕ × ℕ)
block_of cidr = block_parts (split b'/' cidr)

abbrev blocks_contain : Option (ℕ × ℕ) → Option (ℕ × ℕ) → Bool
blocks_contain (some (o, p)) (some (i, q)) = if ltb q p then false else masked i p == masked o p
blocks_contain _ _ = false

unfoldable pub cidr_contains : Text → Text → Bool
cidr_contains outer inner = elim (canonical_cidr outer) [
  | none ↦ false
  | some o ↦ elim (canonical_cidr inner) [
    | none ↦ false
    | some i ↦ blocks_contain (block_of o) (block_of i)
  ]
]

unfoldable pub cidr_overlaps : Text → Text → Bool
unfolding cidr_contains
cidr_overlaps x y = cidr_contains x y || cidr_contains y x
