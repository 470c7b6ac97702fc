-- ===== src/Catalog/Prune.antt =====
-- `pruneCandidates`: the enabled rules that are offered to be switched off.
pub mod Safe
use floppyguard.Base.{
  ℕ, zero, suc, ◌+◌, Bool, true, false, not, ◌&&◌, ◌||◌, Option, none, some, List, [], ◌∷◌, ◌++◌,
  map, filter, any, length, ltb, leb, ◌==◌, if◌then◌else◌,
}
use floppyguard.Base.Text.{Text, codes, text_eq}
use floppyguard.Ingress.{Rule}
use floppyguard.Ingress.Cover.{Upstream, rule_covers, is_hub_sourced}
use floppyguard.Catalog.{Stamp, absent, count, stale_rule_seconds, to_unix_seconds}

-- A rule with the time at which it was created.
pub record DatedRule : Type 0 where
  pub rule : Rule
  pub created_on : Stamp

pub record Unused : Type 0 where
  pub rule : Rule
  pub ref : ℕ

pub record Candidate : Type 0 where
  pub id : ℕ
  pub name : Text
  pub last_hit_at : Option ℕ

abbrev pub stamp_of : Option ℕ → Stamp
stamp_of none = absent
stamp_of (some n) = count n

-- `Math.max` of the times that are not null.
abbrev pub later : Option ℕ → Option ℕ → Option ℕ
later none b = b
later (some a) none = some a
later (some a) (some b) = some (if ltb a b then b else a)

module _ (date_parse : Text → Option ℕ) where
  unfoldable pub rule_reference_time : DatedRule → Option ℕ
  unfolding to_unix_seconds
  rule_reference_time d = later (to_unix_seconds date_parse (stamp_of (d.rule).last_hit_at)) (
      later (to_unix_seconds date_parse d.created_on)
        (to_unix_seconds date_parse (stamp_of (d.rule).armed_on)))

  -- `toUnixSeconds(r.armed_on) ?? toUnixSeconds(r.created_on)`.
  unfoldable pub armed_time : DatedRule → Option ℕ
  unfolding to_unix_seconds
  armed_time d = elim (to_unix_seconds date_parse (stamp_of (d.rule).armed_on)) [
    | none ↦ to_unix_seconds date_parse d.created_on
    | some t ↦ some t
  ]

-- `now - t > STALE_RULE_SECONDS`, false where there is no time.
abbrev pub is_stale : ℕ → Option ℕ → Bool
is_stale now none = false
is_stale now (some t) = ltb (t + stale_rule_seconds) now

abbrev pub sources_of_upstream : List Text → Upstream → List Text
sources_of_upstream hub_srcs u = hub_srcs ++ elim u.source [ none ↦ [] | some s ↦ s ∷ [] ]

unfoldable pub is_needed : Rule → List Upstream → List Text → Bool
unfolding any rule_covers
is_needed r behind hub_srcs =
    any
      (λ u.
        any (λ h. rule_covers r (record { src = h; dst = u.host; port = u.port; proto = u.proto }))
          (sources_of_upstream hub_srcs u))
      behind

pub record PruneQuery : Type 0 where
  pub rules : List DatedRule
  pub behind : List Upstream
  pub hub_srcs : List Text
  pub mode : Text
  pub now : ℕ
  pub link_found : Bool
  pub applied_state : Option Text

abbrev pub is_applied : Option Text → Bool
is_applied none = false
is_applied (some s) = text_eq s (codes "applied")

abbrev pub ref_or_zero : Option ℕ → ℕ
ref_or_zero none = 0
ref_or_zero (some t) = t

module _ (date_parse : Text → Option ℕ) where
  abbrev pub is_unused : PruneQuery → DatedRule → Bool
  is_unused q d =
      is_hub_sourced d.rule q.hub_srcs
      && is_stale q.now (rule_reference_time date_parse d)
      && is_stale q.now (armed_time date_parse d)
      && not (is_needed d.rule q.behind q.hub_srcs)

  unfoldable pub unused_of : PruneQuery → List DatedRule → List Unused
  unfolding is_hub_sourced rule_reference_time armed_time is_needed filter
  unused_of q enabled =
      map (λ d. record { rule = d.rule; ref = ref_or_zero (rule_reference_time date_parse d) })
        (filter (is_unused q) enabled)

-- The index of the first entry with the greatest time; `best` is the one found so far.
unfoldable pub newest_from : ℕ → ℕ → ℕ → List Unused → ℕ
newest_from i best at [] = at
newest_from i best at (c ∷ cs) =
    newest_from (suc i) (if ltb best c.ref then c.ref else best) (if ltb best c.ref then i else at)
      cs

abbrev pub newest_index : List Unused → ℕ
newest_index [] = 0
newest_index (c ∷ cs) = newest_from 1 c.ref 0 cs

-- `out.splice(index, 1)`.
unfoldable pub remove_at : ℕ → List Unused → List Unused
remove_at i [] = []
remove_at zero (c ∷ cs) = cs
remove_at (suc i) (c ∷ cs) = c ∷ remove_at i cs

-- In restricted mode one enabled rule stays.
unfoldable pub keep_one : Text → ℕ → List Unused → List Unused
unfolding newest_from remove_at
keep_one mode enabled out =
    if text_eq mode (codes "restricted") && not (length out == 0) && length out == enabled
    then remove_at (newest_index out) out
    else out

abbrev pub candidate_of : Unused → Candidate
candidate_of u = record {
  id = (u.rule).id;
  name = (u.rule).name;
  last_hit_at = (u.rule).last_hit_at;
}

module _ (date_parse : Text → Option ℕ) where
  unfoldable pub prune_candidates : PruneQuery → List Candidate
  unfolding unused_of keep_one filter
  prune_candidates q =
      let enabled = filter (λ d. (d.rule).enabled) q.rules in
      if not q.link_found || not (is_applied q.applied_state)
      then []
      else map candidate_of (keep_one q.mode (length enabled) (unused_of date_parse q enabled))
