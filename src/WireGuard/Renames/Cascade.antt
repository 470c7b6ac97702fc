-- ===== src/WireGuard/Renames/Cascade.antt =====
-- The whole cascade, over any database in which a rename that failed can be finished.
use floppyguard.Base.{
  append-nil, ◌≡◌, inl, inr, refl, sym, ap, ◌∙◌, Option, none, some, List, [], ◌∷◌, map, All,
  Option-cases,
}
use floppyguard.Base.Text.{Text}
use floppyguard.WireGuard.Renames.{
  BoundAgent, move, rename_agent, rename_link_binding, Failed, Staged, failed_step, run_steps,
  Phase, temp_phase, twice, final_phase,
}
use floppyguard.WireGuard.Renames.Moves.{Steps, moves, to_temp, from_temp}
use floppyguard.WireGuard.Renames.Rows.{
  Nonempty, rename_agents-compose, rename_agents-same, binding_moves,
}

-- What a database promises: a rename that succeeds moves every row, and one that fails may have moved
-- some, so that the same rename of what it left gives what it gives of the rows before.
pub record IsRenaming {S : Type 0} (rename : Text → Text → S → Option Text × S)
    (view : S → List BoundAgent) : Type 0 where
  pub done :
      (from to : Text) (s : S)
      → (rename from to s).0 ≡ none
      → view (rename from to s).1 ≡ rename_link_binding from to (view s)
  pub resumed :
      (from to : Text) (s : S) (e : Text)
      → (rename from to s).0 ≡ some e
      → rename_link_binding from to (view (rename from to s).1)
        ≡ rename_link_binding from to (view s)

abbrev pub AllNonempty : Steps → Type 0
AllNonempty steps = All (λ (s : Text × Text). Nonempty s.0 × Nonempty s.1) steps

no_failure :
    {S : Type 0} (rename : Text → Text → S → Option Text × S) (from to : Text) (o : Option Text)
    → failed_step rename from to o ≡ []
    → o ≡ none
no_failure rename from to none h = refl
no_failure rename from to (some e) h = absurd (cc)

module _ {S : Type 0} (rename : Text → Text → S → Option Text × S) (view : S → List BoundAgent)
    (law : IsRenaming rename view) where
  pub step_moves :
      (from to : Text) (s : S)
      → Nonempty from
      → Nonempty to
      → (rename from to s).0 ≡ none
      → view (rename from to s).1 ≡ map (rename_agent (move from to)) (view s)
  step_moves from to s h k e = law.done from to s e ∙ binding_moves from to (view s) h k

  then_moves :
      (from to : Text) (steps : Steps) (s s' : S)
      → view s' ≡ map (rename_agent (move from to)) (view s)
      → map (rename_agent (moves steps)) (view s')
        ≡ map (rename_agent (moves ((from, to) ∷ steps))) (view s)
  then_moves from to steps s s' e =
      ap (map (rename_agent (moves steps))) e
      ∙ rename_agents-compose (move from to) (moves steps) (view s)

  pub run_steps-moves :
      (steps : Steps) (s : S)
      → AllNonempty steps
      → (run_steps rename steps s).0 ≡ []
      → view (run_steps rename steps s).1 ≡ map (rename_agent (moves steps)) (view s)
  unfolding run_steps
  run_steps-moves [] s n h = sym (rename_agents-same (view s))
  run_steps-moves ((from, to) ∷ steps) s n h =
      let r = rename from to s in
      let (a, b) =
        (append-nil (failed_step rename from to r.0) (run_steps rename steps r.1).0).0 h in
      run_steps-moves steps r.1 n.1 b
      ∙ then_moves from to steps s r.1
          (step_moves from to s n.0.0 n.0.1 (no_failure rename from to r.0 a))

  pub temp_phase-go :
      (r : Staged) (rs moved : List Staged) (s : S)
      → (rename r.old r.temp s).0 ≡ none
      → temp_phase rename (r ∷ rs) moved s
        ≡ temp_phase rename rs (r ∷ moved) (rename r.old r.temp s).1
  unfolding temp_phase
  temp_phase-go r rs moved s e = rw (temp_phase, e) refl

  pub temp_phase-stop :
      (r : Staged) (rs moved : List Staged) (s : S) (m : Text)
      → (rename r.old r.temp s).0 ≡ some m
      → temp_phase rename (r ∷ rs) moved s ≡ (record {
        moved = moved;
        failure = (record { from = r.old; to = r.temp; error = m }) ∷ [];
        state = (rename r.old r.temp s).1;
      })
  unfolding temp_phase
  temp_phase-stop r rs moved s m e = rw (temp_phase, e) refl

  pub temp_phase-moves :
      (ss moved : List Staged) (s : S)
      → AllNonempty (to_temp ss)
      → (temp_phase rename ss moved s).failure ≡ []
      → view (temp_phase rename ss moved s).state ≡ map (rename_agent (moves (to_temp ss))) (view s)
  unfolding temp_phase
  temp_phase-moves [] moved s n h = sym (rename_agents-same (view s))
  temp_phase-moves (r ∷ rs) moved s n h = elim (Option-cases (rename r.old r.temp s).0) [
    | inr m ↦ absurd (nonempty (sym (ap failure_of (temp_phase-stop r rs moved s m.0 m.1)) ∙ h))
    | inl e ↦
        let q = temp_phase-go r rs moved s e in
        ap (λ p. view (state_of p)) q
        ∙ temp_phase-moves rs (r ∷ moved) (rename r.old r.temp s).1 n.1 (sym (ap failure_of q) ∙ h)
        ∙ then_moves r.old r.temp (to_temp rs) s (rename r.old r.temp s).1
            (step_moves r.old r.temp s n.0.0 n.0.1 e)
  ]
    where
      failure_of : Phase rename → List Failed
      failure_of p = p.failure

      state_of : Phase rename → S
      state_of p = p.state

      nonempty : {x : Failed} {xs : List Failed} → (x ∷ xs) ≡ [] → ⊥
      nonempty e = absurd (cc)

  twice-moves :
      (from to : Text) (s : S)
      → Nonempty from
      → Nonempty to
      → (twice rename from to s).0 ≡ none
      → view (twice rename from to s).1 ≡ map (rename_agent (move from to)) (view s)
  unfolding twice
  twice-moves from to s h k e = elim (Option-cases (rename from to s).0) [
    | inl q ↦ rw (twice, q) (step_moves from to s h k q)
    | inr m ↦
        let s' = (rename from to s).1 in
        let again : (twice rename from to s) ≡ rename from to s' = rw (twice, m.1) refl in
        ap (λ p. view p.1) again
        ∙ law.done from to s' (sym (ap (λ p. p.0) again) ∙ e)
        ∙ law.resumed from to s m.0 m.1
        ∙ binding_moves from to (view s) h k
  ]

  pub final_phase-moves :
      (ss : List Staged) (s : S)
      → AllNonempty (from_temp ss)
      → (final_phase rename ss s).0 ≡ []
      → view (final_phase rename ss s).1 ≡ map (rename_agent (moves (from_temp ss))) (view s)
  unfolding final_phase
  final_phase-moves [] s n h = sym (rename_agents-same (view s))
  final_phase-moves (r ∷ rs) s n h =
      let t = twice rename r.temp r.new s in
      let (a, b) =
        (append-nil (failed_step rename r.temp r.new t.0) (final_phase rename rs t.1).0).0 h in
      final_phase-moves rs t.1 n.1 b
      ∙ then_moves r.temp r.new (from_temp rs) s t.1
          (twice-moves r.temp r.new s n.0.0 n.0.1 (no_failure rename r.temp r.new t.0 a))
