-- ===== src/SiteIsolation/Pairs.antt =====
-- `sanitizePairs`: the pair list of a request, checked against the links.
pub mod Ids
pub mod Checked
pub mod Sorted
use floppyguard.Base.{
  ℕ, suc, Bool, false, not, ◌&&◌, ◌||◌, Option, none, some, List, [], ◌∷◌, ◌++◌, all, length, ltb,
  leb, ◌==◌, if◌then◌else◌,
}
use floppyguard.Base.Text.{Text, codes, text_eq, trim, is_number, is_digit, decimal}
use floppyguard.Ingress.{echo_value, strip}
use floppyguard.Json.{Json, str, arr, items, get}
use floppyguard.Result.{Result, ok, err, validation, ◌>>=◌, ◌>>◌, throw_if}
use floppyguard.SiteIsolation.{Link, Pair, max_pairs, is_site_link, by_id, text_lt, normalize_pair}
use floppyguard.SiteIsolation.Plan.{or_id}

unfoldable pub is_key_code : ℕ → Bool
unfolding is_digit
is_key_code c =
    (leb b'A' c && leb c b'Z')
    || (leb b'a' c && leb c b'z')
    || is_digit c
    || c == b'+'
    || c == b'/'
    || c == b'='

-- What stands before the first colon, and behind it.
abbrev onto_first : ℕ → Option (Text × Text) → Option (Text × Text)
onto_first c none = none
onto_first c (some p) = some ((c ∷ p.0), p.1)

unfoldable pub cut_colon : Text → Option (Text × Text)
cut_colon [] = none
cut_colon (c ∷ s) = let rest = cut_colon s in if c == b':' then some ([], s) else onto_first c rest

abbrev wg_number : Option Text → Bool
wg_number none = false
wg_number (some s) = is_number 3 s

-- `LINK_ID_RE`: "wg", one to three digits, a colon, and 1 to 64 characters of a key.
unfoldable pub is_link_id : Text → Bool
unfolding cut_colon is_key_code strip is_number all
is_link_id id = elim (cut_colon id) [
  | none ↦ false
  | some parts ↦
      wg_number (strip (codes "wg") parts.0)
      && leb 1 (length parts.1)
      && leb (length parts.1) 64
      && all is_key_code parts.1
]

-- `typeof v === "string" ? v.trim() : ""`.
abbrev trimmed : Json → Text
trimmed (str s) = trim s
trimmed _ = []

abbrev pub field_of : ℕ → Text → Text
field_of i field = codes "pairs[" ++ decimal i ++ codes "]." ++ field

unfoldable pub check_end : List Link → ℕ → Text → Text → Result (Unit {0})
unfolding is_link_id
check_end links i field v =
    throw_if (not (is_link_id v))
      (validation (field_of i field ++ codes ": invalid link id " ++ echo_value v))
    >> elim (by_id links v) [
      | none ↦ err (validation (field_of i field ++ codes ": unknown link " ++ echo_value v))
      | some l ↦ throw_if (not (is_site_link l)) (
          validation (
            field_of i field
            ++ codes ": "
            ++ echo_value (or_id l.name v)
            ++ codes " is not a site-to-site link"))
    ]

abbrev pair_key : Pair → Text
pair_key p = p.a ++ (b'|' ∷ p.b)

-- `seen.set(key, pair)`: an entry of the same key keeps its place.
unfoldable pub set_pair : Pair → List Pair → List Pair
set_pair p [] = p ∷ []
set_pair p (q ∷ qs) =
    let rest = set_pair p qs in if text_eq (pair_key q) (pair_key p) then p ∷ qs else q ∷ rest

unfoldable pub check_pair : List Link → ℕ → Json → List Pair → Result (List Pair)
unfolding check_end set_pair normalize_pair
check_pair links i p seen =
    let a = trimmed (get (codes "link_a") p) in
    let b = trimmed (get (codes "link_b") p) in
    check_end links i (codes "link_a") a
    >> (check_end links i (codes "link_b") b
        >> (throw_if (text_eq a b) (
              validation
                (codes "pairs[" ++ decimal i ++ codes "]: a site cannot be isolated from itself"))
            >> ok (set_pair (normalize_pair a b) seen)))

unfoldable pub check_pairs : List Link → ℕ → List Json → List Pair → Result (List Pair)
unfolding check_pair
check_pairs links i [] seen = ok seen
check_pairs links i (p ∷ ps) seen = check_pair links i p seen >>= check_pairs links (suc i) ps

-- `sort((x, y) => …)` by the first id, then the second.
unfoldable pub pair_before : Pair → Pair → Bool
pair_before x y = if text_eq x.a y.a then text_lt x.b y.b else text_lt x.a y.a

unfoldable pub insert_pair : Pair → List Pair → List Pair
unfolding pair_before
insert_pair p [] = p ∷ []
insert_pair p (q ∷ qs) =
    let rest = insert_pair p qs in if pair_before p q then p ∷ q ∷ qs else q ∷ rest

unfoldable pub sort_pairs : List Pair → List Pair
unfolding insert_pair
sort_pairs [] = []
sort_pairs (p ∷ ps) = insert_pair p (sort_pairs ps)

unfoldable pub sanitize_pairs : Json → List Link → Result (List Pair)
unfolding check_pairs sort_pairs
sanitize_pairs (arr input) links =
    throw_if (ltb max_pairs (length (items input)))
      (validation (codes "pairs: at most " ++ decimal max_pairs ++ codes " entries"))
    >> (check_pairs links 0 (items input) [] >>= λ seen. ok (sort_pairs seen))
sanitize_pairs _ links = err (validation (codes "pairs must be an array of {link_a, link_b}"))
