-- ===== src/WireGuard/Dump/Totals.antt =====
-- The counters of each interface are those of its peers.
use floppyguard.Base.{
  ℕ, ◌+◌, ◌≡◌, refl, inl, inr, Option, none, List, [], ◌∷◌, ◌++◌, All, length, length-append, ◌==◌,
  if◌then◌else◌, Bool-cases, arith,
}
use floppyguard.Base.Text.{Text, text_eq, trim, split}
use floppyguard.WireGuard.Metadata.Merge.{lookup, put}
use floppyguard.WireGuard.Dump.{
  DumpPeer, DumpIface, Ifaces, empty_iface, add_peer, iface_or_new, column, dump_peer, text_or_null,
  positive, parse_count, dump_line, dump_round, dump_rounds, lines_of, parse_dump,
}

abbrev pub sum_of : (DumpPeer → ℕ) → List DumpPeer → ℕ
sum_of f [] = 0
sum_of f (p ∷ ps) = f p + sum_of f ps

sum_of-append :
    (f : DumpPeer → ℕ) (ps : List DumpPeer) (p : DumpPeer)
    → sum_of f (ps ++ p ∷ []) ≡ sum_of f ps + f p
sum_of-append f [] p = omega arith
sum_of-append f (q ∷ ps) p = omega (arith, sum_of-append f ps p)

-- The counters of an interface.
pub record IsTotal (i : DumpIface) : Type 0 where
  pub counted : i.peer_count ≡ length i.peers
  pub active : i.active_peer_count ≡ sum_of (λ (p : DumpPeer). if p.is_active then 1 else 0) i.peers
  pub received : i.rx_bytes ≡ sum_of (λ (p : DumpPeer). p.rx_bytes) i.peers
  pub sent : i.tx_bytes ≡ sum_of (λ (p : DumpPeer). p.tx_bytes) i.peers

empty_iface-IsTotal :
    (name : Text) (key : Option Text) (port : Option ℕ) → IsTotal (empty_iface name key port)
empty_iface-IsTotal name key port = record {
  counted = refl;
  active = refl;
  received = refl;
  sent = refl;
}

add_peer-IsTotal : (p : DumpPeer) (i : DumpIface) → IsTotal i → IsTotal (add_peer p i)
add_peer-IsTotal p i h = record {
  counted = omega (arith, h.counted, length-append i.peers (p ∷ []));
  active =
      omega
        (arith, h.active, sum_of-append (λ (p : DumpPeer). if p.is_active then 1 else 0) i.peers p);
  received = omega (arith, h.received, sum_of-append (λ (p : DumpPeer). p.rx_bytes) i.peers p);
  sent = omega (arith, h.sent, sum_of-append (λ (p : DumpPeer). p.tx_bytes) i.peers p);
}

abbrev AllTotal : Ifaces → Type 0
AllTotal is = All (λ (e : Text × DumpIface). IsTotal e.1) is

put-AllTotal :
    (name : Text) (i : DumpIface) (is : Ifaces) → IsTotal i → AllTotal is → AllTotal (put name i is)
unfolding put
put-AllTotal name i [] h k = (h, tt)
put-AllTotal name i (e ∷ es) h k = elim (Bool-cases (text_eq e.0 name)) [
  | inl q ↦ rw q (h, k.1)
  | inr q ↦ rw q (k.0, put-AllTotal name i es h k.1)
]

lookup-IsTotal :
    (name n : Text) (is : Ifaces) → AllTotal is → IsTotal (iface_or_new n (lookup name is))
unfolding lookup
lookup-IsTotal name n [] k = empty_iface-IsTotal n none none
lookup-IsTotal name n (e ∷ es) k = elim (Bool-cases (text_eq e.0 name)) [
  | inl q ↦ rw q (k.0)
  | inr q ↦ rw q (lookup-IsTotal name n es k.1)
]

dump_line-AllTotal :
    (now : ℕ) (parts : List Text) (is : Ifaces) → AllTotal is → AllTotal (dump_line now parts is)
unfolding dump_line
dump_line-AllTotal now parts is k = elim (Bool-cases (length (column 0 parts) == 0)) [
  | inl e ↦ rw (dump_line, e) k
  | inr e ↦ elim (Bool-cases (length parts == 5)) [
    | inl f ↦
        rw (dump_line, e, f)
          (put-AllTotal (column 0 parts) _ is
            (empty_iface-IsTotal (column 0 parts) (text_or_null (column 2 parts))
              (positive (parse_count (column 3 parts))))
            k)
    | inr f ↦
        rw (dump_line, e, f)
          (put-AllTotal (column 0 parts) _ is
            (add_peer-IsTotal (dump_peer now parts)
              (iface_or_new (column 0 parts) (lookup (column 0 parts) is))
              (lookup-IsTotal (column 0 parts) (column 0 parts) is k))
            k)
  ]
]

dump_round-AllTotal :
    (now : ℕ) (raw : Text) (is : Ifaces) → AllTotal is → AllTotal (dump_round now raw is)
unfolding dump_round
dump_round-AllTotal now raw is k = elim (Bool-cases (length (trim raw) == 0)) [
  | inl e ↦ rw (dump_round, e) k
  | inr e ↦ rw (dump_round, e) (dump_line-AllTotal now (split 9 (trim raw)) is k)
]

dump_rounds-AllTotal :
    (now : ℕ) (ls : List Text) (is : Ifaces) → AllTotal is → AllTotal (dump_rounds now ls is)
unfolding dump_rounds
dump_rounds-AllTotal now [] is k = k
dump_rounds-AllTotal now (l ∷ ls) is k =
    dump_rounds-AllTotal now ls (dump_round now l is) (dump_round-AllTotal now l is k)

-- Whatever `wg` prints, the counters of each interface are the number of its peers, the number of
-- active ones, and the sums of the bytes that they received and sent.
pub parse_dump-IsTotal :
    (now : ℕ) (stdout : Text) → All (λ (e : Text × DumpIface). IsTotal e.1) (parse_dump now stdout)
unfolding parse_dump
parse_dump-IsTotal now stdout = dump_rounds-AllTotal now (lines_of stdout) [] tt
