-- ===== src/AgentConfig/Tunnel/Entry.antt =====
-- `deriveTunnelSubnet` of backend/internal/agent.js always gives one network.
use floppyguard.Base.{
  ℕ, ◌+◌, ◌/◌, ◌%◌, ◌^◌, all, all_iff, ◌≡◌, ◌≢◌, ◌↔◌, ◌⊎◌, refl, sym, ap, ◌∙◌, Bool, true, false,
  not, ◌&&◌, ◌||◌, Option, none, some, List, [], ◌∷◌, ◌++◌, filter, map, length, In, All, All-map,
  All-append, All-of_In, All_at, append-nil, inl, inr, Bool-cases, if◌then◌else◌, ◌==◌, leb, ltb,
  arith,
}
use floppyguard.Base.Text.{Text, codes, split, trim, decimal, number, is_number, is_digit, is_space}
use floppyguard.Base.Text.Laws.{Free, NoSpace}
use floppyguard.Base.Text.Decimal.{Digits-decimal, Free-of_Digits}
use floppyguard.Cidr.{ip_to_int, int_to_ip, masked, render}
use floppyguard.Cidr.Canonical.{NoSpace-render}
use floppyguard.WireGuard.Networks.{network_parts, canonicalize_ipv4_network}
use floppyguard.AgentConfig.Sections.Entries.{IsEntry}
use floppyguard.AgentConfig.Tunnel.{
  default_subnet, or_default, subnet_of, find_address, derive_tunnel_subnet,
}

Free-int_to_ip : (n : ℕ) → Free b',' (int_to_ip n)
unfolding int_to_ip is_digit
Free-int_to_ip n =
    let part = λ (m : ℕ). Free-of_Digits b',' (decimal m) refl (Digits-decimal m) in
    let dot = λ (a s : Text) (p : Free b',' a) (q : Free b',' s).
      All-append (λ x. x ≢ b',') a (b'.' ∷ s) p ((λ z. omega arith), q) in
    dot (decimal (n / 2 ^ 24 % 256))
      (decimal (n / 2 ^ 16 % 256)
        ++ (b'.' ∷ (decimal (n / 2 ^ 8 % 256) ++ (b'.' ∷ decimal (n % 256)))))
      (part (n / 2 ^ 24 % 256))
      (dot (decimal (n / 2 ^ 16 % 256)) (decimal (n / 2 ^ 8 % 256) ++ (b'.' ∷ decimal (n % 256)))
        (part (n / 2 ^ 16 % 256))
        (dot (decimal (n / 2 ^ 8 % 256)) (decimal (n % 256)) (part (n / 2 ^ 8 % 256))
          (part (n % 256))))

IsEntry-render : (base prefix : ℕ) → IsEntry (render base prefix)
unfolding render is_digit
IsEntry-render base prefix = (
  (λ e. cc ((append-nil (int_to_ip base) (b'/' ∷ decimal prefix)).0 e).1),
  NoSpace-render base prefix,
  All-append (λ x. x ≢ b',') (int_to_ip base) (b'/' ∷ decimal prefix) (Free-int_to_ip base)
      ((λ z. omega arith), Free-of_Digits b',' (decimal prefix) refl (Digits-decimal prefix)),
)

black : (s : Text) → all (λ c. not (is_space c)) s ≡ true → NoSpace s
black s h = All-map (λ c e. ground arith) s ((all_iff (λ c. not (is_space c)) s).0 h)

IsEntry-default : IsEntry default_subnet
unfolding is_space floppyguard.Base.all
IsEntry-default = ((λ e. cc), black default_subnet refl, omega arith)

IsEntry-network_parts : (ws : List Text) → IsEntry (or_default (network_parts ws))
IsEntry-network_parts [] = IsEntry-default
IsEntry-network_parts (a ∷ []) = IsEntry-default
IsEntry-network_parts (addr ∷ prefix ∷ []) = with_address (ip_to_int addr)
  where
    with_address :
        (o : Option ℕ)
        → IsEntry (
            or_default (elim o [
              | none ↦ none
              | some ip ↦
                  if is_number 2 prefix && leb (number prefix) 32
                  then some (render (masked ip (number prefix)) (number prefix))
                  else none
            ]))
    with_address none = IsEntry-default
    with_address (some ip) = elim (Bool-cases (is_number 2 prefix && leb (number prefix) 32)) [
      | inl e ↦ rw e (IsEntry-render (masked ip (number prefix)) (number prefix))
      | inr e ↦ rw e IsEntry-default
    ]
IsEntry-network_parts (a ∷ b ∷ c ∷ ws) = IsEntry-default

IsEntry-canonical : (t : Text) → IsEntry (or_default (canonicalize_ipv4_network t))
unfolding canonicalize_ipv4_network
IsEntry-canonical t = IsEntry-network_parts (split b'/' (trim t))

IsEntry-subnet_of : (addr mask : Text) → IsEntry (subnet_of addr mask)
IsEntry-subnet_of addr mask = elim (Bool-cases (number mask == 32)) [
  | inl e ↦ rw e (IsEntry-canonical (addr ++ codes "/24"))
  | inr e ↦ rw e (IsEntry-canonical (addr ++ (b'/' ∷ decimal (number mask))))
]

-- The tunnel subnet is a network of one entry, whatever the config holds.
pub IsEntry-derive_tunnel_subnet : (config : Text) → IsEntry (derive_tunnel_subnet config)
unfolding derive_tunnel_subnet
IsEntry-derive_tunnel_subnet config = found (find_address true config)
  where
    found :
        (o : Option (Text × Text))
        → IsEntry (elim o [
          | none ↦ default_subnet
          | some (addr, mask) ↦
              if ltb (number mask) 1 || ltb 32 (number mask)
              then default_subnet
              else subnet_of addr mask
        ])
    found none = IsEntry-default
    found (some (addr, mask)) = elim (Bool-cases (ltb (number mask) 1 || ltb 32 (number mask))) [
      | inl e ↦ rw e IsEntry-default
      | inr e ↦ rw e (IsEntry-subnet_of addr mask)
    ]
