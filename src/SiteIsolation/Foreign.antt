-- ===== src/SiteIsolation/Foreign.antt =====
-- Drop rules that somebody added by hand: `manualDropVerdict` and `manualSitePairs`.
pub mod Blocked
use floppyguard.Base.{
  Bool, true, false, not, ◌&&◌, ◌||◌, Option, none, some, List, [], ◌∷◌, ◌++◌, map, filter, any,
  if◌then◌else◌,
}
use floppyguard.Base.Text.{Text, text_eq}
use floppyguard.Cidr.{canonical_cidr, cidr_contains, cidr_overlaps}
use floppyguard.SiteIsolation.{Pair, normalize_pair}

-- A rule as `parseForeignForwardDrops` gives it; `src` and `dst` are null where an address was not
-- understood, and `extra` says that the rule has further conditions.
pub record Drop : Type 0 where
  pub family : Text
  pub table : Text
  pub chain : Text
  pub comment : Option Text
  pub src : Option (List Text)
  pub dst : Option (List Text)
  pub extra : Bool

pub record DropRef : Type 0 where
  pub family : Text
  pub table : Text
  pub chain : Text
  pub comment : Option Text

abbrev pub drop_ref : Drop → DropRef
drop_ref r = record { family = r.family; table = r.table; chain = r.chain; comment = r.comment }

pub data ManualVerdict : Type 0 where
  passes : ManualVerdict
  drops_all : DropRef → ManualVerdict
  drops_part : DropRef → ManualVerdict

unfoldable pub any_overlap : List Text → List Text → Bool
unfolding any
any_overlap xs ys = any (λ x. any (λ y. cidr_overlaps x y) ys) xs

abbrev pub contained : List Text → Text → Bool
contained nets c = any (λ n. cidr_contains n c) nets

abbrev pub manual_end : Option DropRef → ManualVerdict
manual_end none = passes
manual_end (some r) = drops_part r

abbrev pub part_of : Option DropRef → Bool → DropRef → Option DropRef
part_of (some r) test ref = some r
part_of none test ref = if test then some ref else none

-- One round, for a rule whose addresses are known; `rest` is the end of the loop.
unfoldable pub manual_from : List Drop → Text → Text → Option DropRef → ManualVerdict
unfolding any_overlap
manual_from [] s d part = manual_end part
manual_from (r ∷ rs) s d part =
    let skipped = manual_from rs s d part in
    elim r.src [
      | none ↦ skipped
      | some src ↦ elim r.dst [
        | none ↦ skipped
        | some dst ↦
            let full = contained src s && contained dst d in
            let meets = any_overlap src (s ∷ []) && any_overlap dst (d ∷ []) in
            let rest = manual_from rs s d (part_of part meets (drop_ref r)) in
            if full && not r.extra then drops_all (drop_ref r) else rest
      ]
    ]

unfoldable pub manual_drop_verdict : List Drop → Text → Text → ManualVerdict
unfolding manual_from
manual_drop_verdict drops src dst = elim (canonical_cidr src) [
  | none ↦ passes
  | some s ↦ elim (canonical_cidr dst) [ none ↦ passes | some d ↦ manual_from drops s d none ]
]

-- A site with its networks: imported ones and tunnel addresses.
pub record SiteNets : Type 0 where
  pub link_id : Text
  pub networks : List Text
  pub tunnel : List Text

abbrev pub all_nets : SiteNets → List Text
all_nets s = s.networks ++ s.tunnel

unfoldable pub separates : List Text → List Text → Drop → Bool
unfolding any_overlap
separates xs ys d = elim d.src [
  | none ↦ false
  | some src ↦ elim d.dst [
    | none ↦ false
    | some dst ↦
        (any_overlap src xs && any_overlap dst ys) || (any_overlap src ys && any_overlap dst xs)
  ]
]

pub record ManualPair : Type 0 where
  pub pair : Pair
  pub rules : List DropRef

abbrev manual_key : ManualPair → Text
manual_key m = (m.pair).a ++ (b'|' ∷ (m.pair).b)

-- `out.set(key, entry)`.
unfoldable pub set_manual : ManualPair → List ManualPair → List ManualPair
set_manual m [] = m ∷ []
set_manual m (q ∷ qs) =
    let rest = set_manual m qs in if text_eq (manual_key q) (manual_key m) then m ∷ qs else q ∷ rest

unfoldable pub manual_round : List Drop → SiteNets → SiteNets → List ManualPair → List ManualPair
unfolding separates set_manual filter normalize_pair
manual_round drops x y out =
    let hits = filter (separates (all_nets x) (all_nets y)) drops in
    elim hits [
      | [] ↦ out
      | h ∷ hs ↦
          set_manual
            (record { pair = normalize_pair x.link_id y.link_id; rules = map drop_ref (h ∷ hs) })
            out
    ]

unfoldable pub manual_with :
    List Drop → SiteNets → List SiteNets → List ManualPair → List ManualPair
unfolding manual_round
manual_with drops x [] out = out
manual_with drops x (y ∷ ys) out = manual_with drops x ys (manual_round drops x y out)

unfoldable pub manual_rows : List Drop → List SiteNets → List ManualPair → List ManualPair
unfolding manual_with
manual_rows drops [] out = out
manual_rows drops (x ∷ xs) out = manual_rows drops xs (manual_with drops x xs out)

abbrev pub manual_site_pairs : List Drop → List SiteNets → List ManualPair
manual_site_pairs drops sites = manual_rows drops sites []
