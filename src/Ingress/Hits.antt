-- ===== src/Ingress/Hits.antt =====
-- backend/internal/agent-ingress-rules.js: `armedOnPatch`, `sanitizeIngressCounters` and
-- `nextHitState`: when a rule was armed and when it was last hit.
use floppyguard.Base.{
  ℕ, zero, suc, ◌-◌, Bool, true, false, not, ◌&&◌, ◌||◌, Option, none, some, List, [], ◌∷◌, ◌++◌,
  map, ltb, leb, ◌==◌, if◌then◌else◌,
}
use floppyguard.Base.Text.{Text, text_eq}
use floppyguard.Json.{Json, obj, Fields, end, field}
use floppyguard.SiteIsolation.{text_lt}
use floppyguard.Ingress.{Port, Rule, max_rules_per_agent}
use floppyguard.Ingress.Sanitize.{Patch}

-- The sorted texts of a list, whatever order they are given in.
unfoldable pub insert_entry : Text → List Text → List Text
unfolding text_lt
insert_entry t [] = t ∷ []
insert_entry t (u ∷ us) =
    let rest = insert_entry t us in if text_lt u t then u ∷ rest else t ∷ u ∷ us

unfoldable pub list_key : List Text → List Text
unfolding insert_entry
list_key [] = []
list_key (t ∷ ts) = insert_entry t (list_key ts)

abbrev pub port_entry : Port → Text
port_entry p = p.proto ++ (b'/' ∷ p.port)

unfoldable pub same_texts : List Text → List Text → Bool
unfolding text_eq
same_texts [] [] = true
same_texts (s ∷ ss) (t ∷ ts) = text_eq s t && same_texts ss ts
same_texts _ _ = false

-- `typeof clean[f] !== "undefined" && listKey(clean[f]) !== listKey(existing[f])`
abbrev pub list_changes : Option (List Text) → List Text → Bool
list_changes none old = false
list_changes (some new) old = not (same_texts (list_key new) (list_key old))

abbrev pub port_entries : Option (List Port) → Option (List Text)
port_entries none = none
port_entries (some ports) = some (map port_entry ports)

abbrev pub switched_on : Option Bool → Bool → Bool
switched_on none old = false
switched_on (some new) old = new && not old

-- The time at which the rule is armed again, or none where it is not.
unfoldable pub armed_on_patch : Rule → Patch → ℕ → Option ℕ
unfolding list_key same_texts
armed_on_patch existing clean now =
    if switched_on clean.enabled existing.enabled
      || list_changes clean.sources existing.sources
      || list_changes clean.destinations existing.destinations
      || list_changes (port_entries clean.ports) (map port_entry existing.ports)
    then some now
    else none

-- `Number.MAX_SAFE_INTEGER`
abbrev pub max_safe_integer : ℕ
max_safe_integer = 9007199254740991

abbrev pub Counters : Type 0
Counters = List (ℕ × ℕ)

-- `map.set(id, n)`, which keeps the place of an id that is there.
unfoldable pub set_counter : ℕ → ℕ → Counters → Counters
set_counter id n [] = (id, n) ∷ []
set_counter id n (c ∷ cs) =
    let rest = set_counter id n cs in if c.0 == id then (id, n) ∷ cs else c ∷ rest

abbrev pub clamp : ℕ → ℕ
clamp n = if ltb max_safe_integer n then max_safe_integer else n

abbrev pub keep_counter : Option ℕ → Option ℕ → Counters → Counters
keep_counter (some (suc id)) (some n) out = set_counter (suc id) (clamp n) out
keep_counter _ _ out = out

-- `id_of` is `Number(k)` where that is an integer from 0 on, and `packets_of` is
-- `Math.floor(Number(v))` where that is finite and not negative. Only the first entries are read.
module _ (id_of : Text → Option ℕ) (packets_of : Json → Option ℕ) where
  unfoldable pub counter_rounds : ℕ → Fields → Counters → Counters
  unfolding set_counter
  counter_rounds zero fs out = out
  counter_rounds (suc n) end out = out
  counter_rounds (suc n) (field k v fs) out =
      counter_rounds n fs (keep_counter (id_of k) (packets_of v) out)

  unfoldable pub sanitize_ingress_counters : Json → Counters
  unfolding counter_rounds
  sanitize_ingress_counters (obj fs) = counter_rounds max_rules_per_agent fs []
  sanitize_ingress_counters v = []

pub record HitState : Type 0 where
  pub hit_packets : ℕ
  pub last_hit_at : Option ℕ

-- `last_hit_at || null`
abbrev pub time_or_null : Option ℕ → Option ℕ
time_or_null none = none
time_or_null (some zero) = none
time_or_null (some (suc t)) = some (suc t)

-- A sample below the last one comes from a chain that was built again.
unfoldable pub next_hit_state : HitState → ℕ → ℕ → HitState
next_hit_state s packets now =
    let delta = if leb s.hit_packets packets then packets - s.hit_packets else packets in
    record {
      hit_packets = packets;
      last_hit_at = if ltb 0 delta then some now else time_or_null s.last_hit_at;
    }
