-- ===== src/Service/Applied.antt =====
-- backend/internal/agent-ingress.js: `ingressAppliedState`, the counts of an agent's rules, and
-- the guards of a change.
pub mod States
use floppyguard.Base.{
  ℕ, ◌+◌, ◌-◌, Bool, true, false, not, ◌&&◌, ◌||◌, Option, none, some, List, ◌++◌, any, filter,
  length, ltb, ◌==◌, if◌then◌else◌,
}
use floppyguard.Base.Text.{Text, codes, text_eq}
use floppyguard.Result.{Result, ok, err, validation}
use floppyguard.Ingress.{Rule}
use floppyguard.Ingress.Sanitize.{Patch}

abbrev pub agent_offline_after : ℕ
agent_offline_after = 300

-- `lastSeen` of the caller: not passed, null, or unix seconds.
pub data Seen : Type 0 where
  not_passed : Seen
  never : Seen
  seen_at : ℕ → Seen

pub data State : Type 0 where
  applied : State
  pending : State
  failed : State
  unknown : State
  offline : State

-- What the agent reported and what the hub wants; an empty text counts as absent, but in the
-- desired hash, which `??` reads.
pub record Report : Type 0 where
  pub desired_hash : Option Text
  pub applied_hash : Option Text
  pub error : Option Text
  pub build_error : Option Text
  pub last_seen : Seen
  pub now : ℕ

pub record AppliedState : Type 0 where
  pub state : State
  pub applied_hash : Option Text
  pub desired_hash : Option Text
  pub error : Option Text

-- `value || null`
abbrev pub or_absent : Option Text → Option Text
or_absent none = none
or_absent (some t) = if length t == 0 then none else some t

abbrev pub is_hash : Option Text → Text → Bool
is_hash none t = false
is_hash (some d) t = text_eq t d

abbrev pub is_some : Option Text → Bool
is_some none = false
is_some (some _) = true

-- An agent without a heartbeat for five minutes; 0 stands for never there, too.
abbrev pub is_away : Seen → ℕ → Bool
is_away not_passed now = false
is_away never now = true
is_away (seen_at t) now = t == 0 || ltb (t + agent_offline_after) now

unfoldable pub reported_state : Option Text → Option Text → Option Text → State
unfolding text_eq
reported_state none desired error = if is_hash desired (codes "NONE") then applied else unknown
reported_state (some hash) desired error =
    if is_some error then failed else (if is_hash desired hash then applied else pending)

abbrev pub or_offline : State → Seen → ℕ → State
or_offline pending seen now = if is_away seen now then offline else pending
or_offline s seen now = s

abbrev pub build_failed : Text → Text
build_failed message = codes "Regelsatz kann nicht erzeugt werden: " ++ message

unfoldable pub ingress_applied_state : Report → AppliedState
unfolding reported_state
ingress_applied_state r = elim (or_absent r.build_error) [
  | some message ↦ record {
    state = failed;
    applied_hash = or_absent r.applied_hash;
    desired_hash = none;
    error = some (build_failed message);
  }
  | none ↦ record {
    state =
        or_offline (reported_state (or_absent r.applied_hash) r.desired_hash (or_absent r.error))
          r.last_seen r.now;
    applied_hash = or_absent r.applied_hash;
    desired_hash = r.desired_hash;
    error = or_absent r.error;
  }
]

pub record RuleCounts : Type 0 where
  pub rule_count : ℕ
  pub active_rule_count : ℕ

unfoldable pub ingress_rule_counts : List Rule → RuleCounts
unfolding filter
ingress_rule_counts rules = record {
  rule_count = length rules;
  active_rule_count = length (filter (λ r. r.enabled) rules);
}

abbrev pub is_given {ℓ} : {A : Type ℓ} → Option A → Bool
is_given none = false
is_given (some _) = true

abbrev pub is_on : Option Bool → Bool
is_on none = false
is_on (some b) = b

-- Only a change of the lists or switching on can make the rule set larger.
unfoldable pub update_can_grow : Patch → Bool
update_can_grow p =
    is_given p.sources || is_given p.destinations || is_given p.ports || is_on p.enabled

-- A restricted agent without an active rule would be cut off.
unfoldable pub assert_not_empty_restricted : Text → List Rule → Result (Unit {0})
unfolding any text_eq
assert_not_empty_restricted mode rules =
    if text_eq mode (codes "restricted") && not (any (λ r. r.enabled) rules)
    then err (
        validation (
          codes
            "Mindestens eine aktive Freigabe ist nötig, solange der Agent auf „nur Freigaben“ steht"))
    else ok tt
