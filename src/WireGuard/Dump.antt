-- ===== src/WireGuard/Dump.antt =====
-- backend/internal/wireguard.js: `parseDump`, which reads the output of `wg show all dump`.
pub mod Totals
use floppyguard.Base.{
  ℕ, zero, suc, ◌+◌, ◌-◌, ◌*◌, Bool, true, false, not, ◌&&◌, ◌||◌, Option, none, some, List, [],
  ◌∷◌, ◌++◌, filter, length, ltb, ◌==◌, if◌then◌else◌, map,
}
use floppyguard.Base.Text.{Text, codes, text_eq, split, trim, is_digit, is_space, trim_start}
use floppyguard.SiteIsolation.{has_code}
use floppyguard.WireGuard.Metadata.Merge.{lookup, put}

abbrev pub active_handshake_window : ℕ
active_handshake_window = 180

-- `text.split(/\r?\n/)`: a carriage return in front of the line end belongs to it.
abbrev pub drop_return : Text → Text
drop_return [] = []
drop_return (c ∷ []) = if c == 13 then [] else c ∷ []
drop_return (c ∷ d ∷ s) = c ∷ drop_return (d ∷ s)

unfoldable pub without_returns : List Text → List Text
without_returns [] = []
without_returns (l ∷ []) = l ∷ []
without_returns (l ∷ m ∷ ls) = drop_return l ∷ without_returns (m ∷ ls)

unfoldable pub lines_of : Text → List Text
unfolding split without_returns
lines_of text = without_returns (split 10 text)

-- `Number.parseInt(s, 10) || 0` of a text without a sign: the digits in front, behind white space.
unfoldable pub leading_number : ℕ → Text → ℕ
unfolding is_digit
leading_number acc [] = acc
leading_number acc (c ∷ s) =
    let rest = leading_number (acc * 10 + (c - b'0')) s in if is_digit c then rest else acc

-- A negative number is not read apart: `wg` prints none in these columns.
unfoldable pub parse_count : Text → ℕ
unfolding leading_number trim_start is_space
parse_count s = leading_number 0 (trim_start s)

pub record DumpPeer : Type 0 where
  pub public_key : Option Text
  pub endpoint : Option Text
  pub allowed_ips : List Text
  pub latest_handshake : ℕ
  pub rx_bytes : ℕ
  pub tx_bytes : ℕ
  pub is_active : Bool

pub record DumpIface : Type 0 where
  pub name : Text
  pub public_key : Option Text
  pub listen_port : Option ℕ
  pub peers : List DumpPeer
  pub peer_count : ℕ
  pub active_peer_count : ℕ
  pub rx_bytes : ℕ
  pub tx_bytes : ℕ

-- `text || null`, and the number of a text where it is not 0.
abbrev pub text_or_null : Text → Option Text
text_or_null [] = none
text_or_null (c ∷ s) = some (c ∷ s)

abbrev pub positive : ℕ → Option ℕ
positive zero = none
positive (suc n) = some (suc n)

abbrev pub empty_iface : Text → Option Text → Option ℕ → DumpIface
empty_iface name key port = record {
  name = name;
  public_key = key;
  listen_port = port;
  peers = [];
  peer_count = 0;
  active_peer_count = 0;
  rx_bytes = 0;
  tx_bytes = 0;
}

-- The column of a line, which is empty where the line is too short.
abbrev pub column : ℕ → List Text → Text
column n [] = []
column zero (p ∷ ps) = p
column (suc n) (p ∷ ps) = column n ps

unfoldable pub entries_of_list : Text → List Text
unfolding split trim filter
entries_of_list s = filter (λ e. not (length e == 0)) (map trim (split b',' s))

unfoldable pub dump_peer : ℕ → List Text → DumpPeer
unfolding parse_count entries_of_list
dump_peer now parts =
    let handshake = parse_count (column 5 parts) in
    record {
      public_key = text_or_null (column 1 parts);
      endpoint = text_or_null (column 3 parts);
      allowed_ips = entries_of_list (column 4 parts);
      latest_handshake = handshake;
      rx_bytes = parse_count (column 6 parts);
      tx_bytes = parse_count (column 7 parts);
      is_active = ltb 0 handshake && ltb now (handshake + active_handshake_window);
    }

abbrev pub add_peer : DumpPeer → DumpIface → DumpIface
add_peer p i = record i {
  peers = i.peers ++ p ∷ [];
  peer_count = i.peer_count + 1;
  active_peer_count = i.active_peer_count + (if p.is_active then 1 else 0);
  rx_bytes = i.rx_bytes + p.rx_bytes;
  tx_bytes = i.tx_bytes + p.tx_bytes;
}

abbrev pub Ifaces : Type 0
Ifaces = List (Text × DumpIface)

abbrev pub iface_or_new : Text → Option DumpIface → DumpIface
iface_or_new name none = empty_iface name none none
iface_or_new name (some i) = i

-- A line of five columns is an interface, every other one a peer.
unfoldable pub dump_line : ℕ → List Text → Ifaces → Ifaces
unfolding put lookup dump_peer parse_count
dump_line now parts ifaces =
    let name = column 0 parts in
    if length name == 0
    then ifaces
    else (if length parts == 5
        then put name
            (empty_iface name (text_or_null (column 2 parts))
              (positive (parse_count (column 3 parts))))
            ifaces
        else put name (add_peer (dump_peer now parts) (iface_or_new name (lookup name ifaces)))
            ifaces)

unfoldable pub dump_round : ℕ → Text → Ifaces → Ifaces
unfolding dump_line trim split
dump_round now raw ifaces =
    let line = trim raw in if length line == 0 then ifaces else dump_line now (split 9 line) ifaces

unfoldable pub dump_rounds : ℕ → List Text → Ifaces → Ifaces
unfolding dump_round
dump_rounds now [] ifaces = ifaces
dump_rounds now (l ∷ ls) ifaces = dump_rounds now ls (dump_round now l ifaces)

unfoldable pub parse_dump : ℕ → Text → Ifaces
unfolding dump_rounds lines_of
parse_dump now stdout = dump_rounds now (lines_of stdout) []
