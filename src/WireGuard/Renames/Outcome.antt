-- ===== src/WireGuard/Renames/Outcome.antt =====
-- What a cascade without a failure leaves: all renames at once.
use floppyguard.Base.{
  ℕ, ◌≡◌, ◌⊎◌, inl, inr, refl, sym, ap, ◌∙◌, false, Option, List, [], ◌∷◌, map, All, In, Bool-cases,
}
use mathlib.Core.Path.{subst, fun_ext}
use floppyguard.Base.Text.{Text}
use floppyguard.WireGuard.Renames.{
  BoundAgent, rename_agent, Rename, Staged, staged, needs_temp, run_steps, temp_phase, final_phase,
  after_temp, direct_steps, cascade_link_renames,
}
use floppyguard.WireGuard.Renames.Moves.{targets, moves, renamed, moves-renamed, to_temp, from_temp}
use floppyguard.WireGuard.Renames.Rows.{NamesAre, rename_agents-cong, rename_agents-compose}
use floppyguard.WireGuard.Renames.Cascade.{
  IsRenaming, run_steps-moves, temp_phase-moves, final_phase-moves,
}
use floppyguard.WireGuard.Renames.AtOnce.{
  temps_of, IsRequest, nonempty_direct, nonempty_to, nonempty_from, direct_apart, sources-direct,
  both_phases,
}

cons-nil : {A : Type 0} {x : A} {xs : List A} → (x ∷ xs) ≡ [] → ⊥
cons-nil e = absurd (cc)

module _ {S : Type 0} (rename : Text → Text → S → Option Text × S) (view : S → List BoundAgent)
    (law : IsRenaming rename view) (stamp : ℕ) (rs : List Rename)
    (request : IsRequest stamp rs) where
  abbrev stages : List Staged
  stages = staged stamp 0 rs

  direct_at_once :
      (s : S)
      → needs_temp rs ≡ false
      → (run_steps rename (direct_steps rs) s).0 ≡ []
      → view (run_steps rename (direct_steps rs) s).1
        ≡ map (rename_agent (renamed (direct_steps rs))) (view s)
  direct_at_once s n e =
      let apart =
        subst (λ (us : List Text). All (λ t. ¬ In t us) (targets (direct_steps rs)))
          (sym (sources-direct rs)) (direct_apart (map (λ (o : Rename). o.old_name) rs) rs n) in
      run_steps-moves rename view law (direct_steps rs) s
        (nonempty_direct stamp (temps_of stamp rs) rs request) e
      ∙ ap (λ (f : Text → Text). map (rename_agent f) (view s))
          (fun_ext (moves-renamed (direct_steps rs) apart))

  staged_at_once :
      (s : S)
      → NamesAre (λ t. ¬ In t (temps_of stamp rs)) (view s)
      → (temp_phase rename stages [] s).failure ≡ []
      → (final_phase rename stages (temp_phase rename stages [] s).state).0 ≡ []
      → view (final_phase rename stages (temp_phase rename stages [] s).state).1
        ≡ map (rename_agent (renamed (direct_steps rs))) (view s)
  staged_at_once s clean f e =
      let p = temp_phase rename stages [] s in
      final_phase-moves rename view law stages p.state
        (nonempty_from stamp (temps_of stamp rs) 0 rs request) e
      ∙ ap (map (rename_agent (moves (from_temp stages)))) (
          temp_phase-moves rename view law stages [] s
            (nonempty_to stamp (temps_of stamp rs) 0 rs request) f)
      ∙ rename_agents-compose (moves (to_temp stages)) (moves (from_temp stages)) (view s)
      ∙ rename_agents-cong (λ t. ¬ In t (temps_of stamp rs))
          (λ t. moves (from_temp stages) (moves (to_temp stages) t)) (renamed (direct_steps rs))
          (both_phases stamp rs request) (view s) clean

  list-cases : {A : Type 0} (xs : List A) → (xs ≡ []) ⊎ ((x : A) × (ys : List A) × (xs ≡ x ∷ ys))
  list-cases [] = inl refl
  list-cases (x ∷ xs) = inr (x, xs, refl)

  -- A cascade without a failure leaves every binding under the new name of the first request for
  -- its old one, and all other bindings as they were: swapped names do not meet. This holds where
  -- the rename of one name that succeeds moves every row and one that fails is finished by the same
  -- rename, the names are not empty, and no name of a row or a request is one of the temporary names.
  pub cascade_link_renames-at_once :
      (s : S)
      → NamesAre (λ t. ¬ In t (temps_of stamp rs)) (view s)
      → (cascade_link_renames rename stamp rs s).0.errors ≡ []
      → view (cascade_link_renames rename stamp rs s).1
        ≡ map (rename_agent (renamed (direct_steps rs))) (view s)
  unfolding cascade_link_renames after_temp
  cascade_link_renames-at_once s clean h = elim (Bool-cases (needs_temp rs)) [
    | inr n ↦ rw (cascade_link_renames, n) (direct_at_once s n (rw (cascade_link_renames, n) at h))
    | inl n ↦ elim (list-cases (temp_phase rename stages [] s).failure) [
      | inl f ↦
          rw (cascade_link_renames, n, after_temp, f)
            (staged_at_once s clean f (rw (cascade_link_renames, n, after_temp, f) at h))
      | inr f ↦ absurd (cons-nil (rw (cascade_link_renames, n, after_temp, f.2) at h))
    ]
  ]
