-- ===== src/Service/Applied/States.antt =====
-- When a rule set is reported as failed.
use floppyguard.Base.{
  ℕ, ◌≡◌, ◌≢◌, ◌↔◌, ◌⊎◌, inl, inr, refl, Option, none, some, Bool-cases, Option-cases,
}
use floppyguard.Base.Text.{Text, codes}
use floppyguard.Service.Applied.{
  Report, State, applied, pending, failed, unknown, offline, or_absent, is_hash, is_away, Seen,
  or_offline, reported_state, ingress_applied_state,
}

or_offline-failed :
    (s : State) (seen : Seen) (now : ℕ) → (or_offline s seen now ≡ failed) ↔ (s ≡ failed)
or_offline-failed applied seen now = ((λ h. h), (λ h. h))
or_offline-failed pending seen now = elim (Bool-cases (is_away seen now)) [
  | inl e ↦ rw e ((λ h. absurd (cc)), (λ h. absurd (cc)))
  | inr e ↦ rw e ((λ h. h), (λ h. h))
]
or_offline-failed failed seen now = ((λ h. h), (λ h. h))
or_offline-failed unknown seen now = ((λ h. h), (λ h. h))
or_offline-failed offline seen now = ((λ h. h), (λ h. h))

reported_state-failed :
    (hash desired error : Option Text)
    → (reported_state hash desired error ≡ failed) ↔ ((hash ≢ none) × (error ≢ none))
unfolding reported_state
reported_state-failed none desired error = elim (Bool-cases (is_hash desired (codes "NONE"))) [
  | inl e ↦ rw (reported_state, e) ((λ h. absurd (cc)), (λ h. absurd (h.0 refl)))
  | inr e ↦ rw (reported_state, e) ((λ h. absurd (cc)), (λ h. absurd (h.0 refl)))
]
reported_state-failed (some t) desired (some m) =
    ((λ h. ((λ e. absurd (cc)), (λ e. absurd (cc)))), (λ h. refl))
reported_state-failed (some t) desired none = elim (Bool-cases (is_hash desired t)) [
  | inl e ↦ rw (reported_state, e) ((λ h. absurd (cc)), (λ h. absurd (h.1 refl)))
  | inr e ↦ rw (reported_state, e) ((λ h. absurd (cc)), (λ h. absurd (h.1 refl)))
]

-- A rule set is reported as failed exactly if the hub cannot build it, or the agent has reported
-- both a hash and an error; a long silence of the agent never changes that.
pub ingress_applied_state-failed :
    (r : Report)
    → ((ingress_applied_state r).state ≡ failed) ↔ (
        (or_absent r.build_error ≢ none)
        ⊎ ((or_absent r.applied_hash ≢ none) × (or_absent r.error ≢ none)))
unfolding ingress_applied_state
ingress_applied_state-failed r = elim (Option-cases (or_absent r.build_error)) [
  | inr m ↦ rw (ingress_applied_state, m.1) ((λ h. inl (λ e. absurd (cc))), (λ h. refl))
  | inl e ↦
      let state = reported_state (or_absent r.applied_hash) r.desired_hash (or_absent r.error) in
      let a = or_offline-failed state r.last_seen r.now in
      let b = reported_state-failed (or_absent r.applied_hash) r.desired_hash (or_absent r.error) in
      rw (ingress_applied_state, e)
        ((λ h. inr (b.0 (a.0 h))), (λ h. elim h [ inl n ↦ absurd (n refl) | inr k ↦ a.1 (b.1 k) ]))
]
