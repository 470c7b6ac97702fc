-- ===== src/SiteIsolation/Verdict.antt =====
-- `siteIsolationVerdict`: would the hub drop src → dst because of an isolated pair?
pub mod Blocked
use floppyguard.Base.{
  Bool, true, false, ◌&&◌, Option, none, some, List, [], ◌∷◌, any, if◌then◌else◌,
}
use floppyguard.Base.Text.{Text, codes}
use floppyguard.Cidr.{canonical_cidr, cidr_contains, cidr_overlaps}
use floppyguard.Result.{Result, ok, err, internal}
use floppyguard.SiteIsolation.{Link, Pair}
use floppyguard.SiteIsolation.Plan.{Site, Plan, site_at, plan_site_isolation}

pub data Direction : Type 0 where
  a_to_b b_to_a : Direction

pub record Ref : Type 0 where
  pub pair : Pair
  pub name_a : Text
  pub name_b : Text
  pub direction : Direction

pub data Verdict : Type 0 where
  free : Verdict
  blocked : Ref → Verdict
  partial : Ref → Verdict

unfoldable pub in_set : Site → Text → Bool
unfolding any
in_set site c = any (λ n. cidr_contains n c) site.nets

unfoldable pub touches : Site → Text → Bool
unfolding any
touches site c = any (λ n. cidr_overlaps n c) site.nets

abbrev pub ref_of : Pair → Site → Site → Direction → Ref
ref_of p x y d = record { pair = p; name_a = x.name; name_b = y.name; direction = d }

-- `if (!partial && test) partial = ref`.
abbrev pub or_partial : Option Ref → Bool → Ref → Option Ref
or_partial (some r) test ref = some r
or_partial none test ref = if test then some ref else none

abbrev pub no_block : Option Ref → Verdict
no_block none = free
no_block (some r) = partial r

-- A site that the plan lacks would be read as `undefined`.
abbrev pub absent : Result Verdict
absent = err (internal (codes "Cannot read properties of undefined"))

unfoldable pub verdict_from : List Site → Text → Text → List Pair → Option Ref → Result Verdict
unfolding in_set touches
verdict_from sites s d [] part = ok (no_block part)
verdict_from sites s d (p ∷ ps) part = elim (site_at sites p.a) [
  | none ↦ absent
  | some x ↦ elim (site_at sites p.b) [
    | none ↦ absent
    | some y ↦
        let first = or_partial part (touches x s && touches y d) (ref_of p x y a_to_b) in
        let second = or_partial first (touches y s && touches x d) (ref_of p x y b_to_a) in
        let rest = verdict_from sites s d ps second in
        if in_set x s && in_set y d
        then ok (blocked (ref_of p x y a_to_b))
        else (if in_set y s && in_set x d then ok (blocked (ref_of p x y b_to_a)) else rest)
  ]
]

module _ (sha256 : Text → Text) where
  unfoldable pub site_isolation_verdict : List Link → List Pair → Text → Text → Result Verdict
  unfolding verdict_from
  site_isolation_verdict links pairs src dst = elim (canonical_cidr src) [
    | none ↦ ok free
    | some s ↦ elim (canonical_cidr dst) [
      | none ↦ ok free
      | some d ↦
          let plan = plan_site_isolation sha256 links pairs in
          verdict_from plan.sites s d plan.pairs none
    ]
  ]
