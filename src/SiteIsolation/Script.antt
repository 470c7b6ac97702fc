-- ===== src/SiteIsolation/Script.antt =====
-- `buildSiteIsolationNft`: the nftables script of the table that separates the sites.
pub mod Comment
pub mod Total
use floppyguard.Base.{
  ℕ, Bool, true, false, not, ◌&&◌, ◌||◌, Option, none, some, List, [], ◌∷◌, ◌++◌, length, ltb, leb,
  ◌==◌, if◌then◌else◌,
}
use floppyguard.Base.Text.{Text, codes, text_eq, join, trim, is_digit, is_space}
use floppyguard.Cidr.{canonical_cidr}
use floppyguard.Ingress.{take, echo_value}
use floppyguard.Result.{Result, ok, err, internal, ◌>>=◌, ◌>>◌, throw_if, for_each}
use floppyguard.SiteIsolation.{Link, Pair, text_lt}
use floppyguard.SiteIsolation.Plan.{Site, Plan, site_at, plan_site_isolation}

-- The letters that are written out: ä, ö, ü, Ä, Ö, Ü and ß.
unfoldable pub translit : ℕ → Text
translit c =
    if c == 0xe4
    then codes "ae"
    else (if c == 0xf6
        then codes "oe"
        else (if c == 0xfc
            then codes "ue"
            else (if c == 0xc4
                then codes "Ae"
                else (if c == 0xd6
                    then codes "Oe"
                    else (if c == 0xdc
                        then codes "Ue"
                        else (if c == 0xdf then codes "ss" else c ∷ []))))))

unfoldable pub translit_all : Text → Text
unfolding translit
translit_all [] = []
translit_all (c ∷ s) = translit c ++ translit_all s

-- The class `[A-Za-z0-9 ._()+:<>-]`; any other code unit becomes a space.
unfoldable pub is_comment_code : ℕ → Bool
unfolding is_digit
is_comment_code c =
    (leb b'A' c && leb c b'Z')
    || (leb b'a' c && leb c b'z')
    || is_digit c
    || c == b' '
    || c == b'.'
    || c == b'_'
    || c == b'('
    || c == b')'
    || c == b'+'
    || c == b':'
    || c == b'<'
    || c == b'>'
    || c == b'-'

unfoldable pub blank_others : Text → Text
unfolding is_comment_code
blank_others [] = []
blank_others (c ∷ s) = (if is_comment_code c then c else b' ') ∷ blank_others s

-- `replace(/\s+/g, " ")`; `gap` says that the space of the present run is written.
unfoldable pub collapse : Bool → Text → Text
collapse gap [] = []
collapse gap (c ∷ s) =
    let rest = collapse (is_space c) s in
    if is_space c then (if gap then rest else b' ' ∷ rest) else c ∷ rest

abbrev pub or_site : Text → Text
or_site [] = codes "site"
or_site (c ∷ s) = c ∷ s

-- `nfkd` is the Unicode normalisation of the runtime.
unfoldable pub sanitize_comment_text : (Text → Text) → ℕ → Text → Text
unfolding translit_all blank_others collapse take
sanitize_comment_text nfkd most value =
    or_site (trim (take most (trim (collapse false (blank_others (nfkd (translit_all value)))))))

-- `sort((x, y) => (x.set < y.set ? -1 : 1))`.
unfoldable pub insert_site : Site → List Site → List Site
insert_site s [] = s ∷ []
insert_site s (q ∷ qs) =
    let rest = insert_site s qs in if text_lt q.set s.set then q ∷ rest else s ∷ q ∷ qs

unfoldable pub sort_sites : List Site → List Site
unfolding insert_site
sort_sites [] = []
sort_sites (s ∷ ss) = insert_site s (sort_sites ss)

abbrev pub script_head : List Text
script_head =
    codes "#!/usr/sbin/nft -f"
    ∷ codes "# Managed by FloppyGuard - Standorte untereinander (site isolation). Do not edit:"
    ∷ codes "# the backend replaces this table atomically on every change."
    ∷ codes "table inet floppyguard_sites {}"
    ∷ codes "delete table inet floppyguard_sites"
    ∷ codes "table inet floppyguard_sites {"
    ∷ []

unfoldable pub is_canonical : Text → Bool
is_canonical n = elim (canonical_cidr n) [ none ↦ false | some c ↦ text_eq c n ]

unfoldable pub check_net : Text → Unit {0} → Result (Unit {0})
unfolding is_canonical
check_net n _ =
    throw_if (not (is_canonical n))
      (internal (codes "site isolation: refusing non-canonical CIDR " ++ echo_value n))

abbrev pub set_name_max : ℕ
set_name_max = 48

abbrev pub set_lines : (Text → Text) → Site → List Text
set_lines nfkd s =
    (codes "\tset " ++ s.set ++ codes " {")
    ∷ codes "\t\ttype ipv4_addr"
    ∷ codes "\t\tflags interval"
    ∷ (codes "\t\tcomment \"" ++ sanitize_comment_text nfkd set_name_max s.name ++ codes "\"")
    ∷ (codes "\t\telements = { " ++ join (codes ", ") s.nets ++ codes " }")
    ∷ codes "\t}"
    ∷ []

unfoldable pub emit_site : (Text → Text) → Site → List Text → Result (List Text)
unfolding check_net for_each
emit_site nfkd s out = for_each check_net s.nets tt >> ok (out ++ set_lines nfkd s)

abbrev pub chain_head : List Text
chain_head =
    codes "\tchain forward {"
    ∷ codes "\t\ttype filter hook forward priority filter - 10; policy accept;"
    ∷ []

abbrev pub drop_rule : (Text → Text) → Site → Site → Text
drop_rule nfkd x y =
    codes "\t\tip saddr @"
    ++ x.set
    ++ codes " ip daddr @"
    ++ y.set
    ++ codes " counter drop comment \""
    ++ sanitize_comment_text nfkd 100 (
        codes "Standort-Trennung "
        ++ sanitize_comment_text nfkd 40 x.name
        ++ codes " -> "
        ++ sanitize_comment_text nfkd 40 y.name)
    ++ codes "\""

abbrev missing_site : Result (List Text)
missing_site = err (internal (codes "Cannot read properties of undefined"))

unfoldable pub emit_pair : (Text → Text) → List Site → Pair → List Text → Result (List Text)
emit_pair nfkd sites p out = elim (site_at sites p.a) [
  | none ↦ missing_site
  | some x ↦ elim (site_at sites p.b) [
    | none ↦ missing_site
    | some y ↦ ok (out ++ drop_rule nfkd x y ∷ drop_rule nfkd y x ∷ [])
  ]
]

-- The lines in front of the last `join`, and the script.
unfoldable pub script_lines : (Text → Text) → Plan → Result (List Text)
unfolding emit_site emit_pair sort_sites for_each
script_lines nfkd plan = do
  sets ← for_each (emit_site nfkd) (sort_sites plan.sites) script_head
  rules ← for_each (emit_pair nfkd plan.sites) plan.pairs (sets ++ chain_head)
  ok (rules ++ codes "\t}" ∷ codes "}" ∷ [] ∷ [])

unfoldable pub build_site_isolation_nft :
    (sha256 nfkd : Text → Text) → List Link → List Pair → Result Text
unfolding script_lines
build_site_isolation_nft sha256 nfkd links pairs = do
  out ← script_lines nfkd (plan_site_isolation sha256 links pairs)
  ok (join (codes "\n") out)
