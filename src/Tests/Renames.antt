-- ===== src/Tests/Renames.antt =====
-- Runs of the cascade that renames links.
use floppyguard.Base.{ℕ, ◌≡◌, refl, false, Option, none, some, List, [], ◌∷◌, map, In, any, arith}
use floppyguard.Base.Text.{Text, codes, text_eq, includes, decimal}
use floppyguard.WireGuard.Renames.{
  BoundAgent, rename_agent, rename_link_binding, Rename, temp_name, staged, run_steps, temp_phase,
  twice, final_phase, after_temp, direct_steps, cascade_link_renames,
}
use floppyguard.WireGuard.Renames.Moves.{renamed}
use floppyguard.WireGuard.Renames.Cascade.{IsRenaming}
use floppyguard.WireGuard.Renames.AtOnce.{IsRequest, temps_of}
use floppyguard.WireGuard.Renames.Rows.{NamesAre}
use floppyguard.WireGuard.Renames.Outcome.{cascade_link_renames-at_once}

run : Unit {0}
unfolding text_eq includes any decimal rename_link_binding temp_name staged run_steps temp_phase
    twice final_phase after_temp cascade_link_renames
run = tt

abbrev office : Text
office = codes "office"

abbrev branch : Text
branch = codes "branch"

abbrev row : ℕ → Text → Text → BoundAgent
row id link site = record {
  id = id;
  wg_link_name = some link;
  allowed_sites = some (site ∷ []);
  is_deleted = false;
}

abbrev rows : List BoundAgent
rows = row 1 office branch ∷ row 2 branch office ∷ []

abbrev swap : List Rename
swap =
    (record { old_name = office; new_name = branch })
    ∷ (record { old_name = branch; new_name = office })
    ∷ []

abbrev working : Text → Text → List BoundAgent → Option Text × List BoundAgent
working from to agents = (none, rename_link_binding from to agents)

working_law : IsRenaming working (λ s. s)
working_law = record { done = λ from to s e. refl; resumed = λ from to s e q. absurd (cc) }

swap-IsRequest : IsRequest 7 swap
unfolding run
swap-IsRequest = ground arith

rows_clean : NamesAre (λ t. ¬ In t (temps_of 7 swap)) rows
unfolding run
rows_clean = ground arith

swap_passes : (cascade_link_renames working 7 swap rows).0.errors ≡ []
unfolding run
swap_passes = refl

swap_swaps :
    (cascade_link_renames working 7 swap rows).1 ≡ row 1 branch office ∷ row 2 office branch ∷ []
unfolding run
swap_swaps = refl

cascade_link_renames-at_once_example :
    (cascade_link_renames working 7 swap rows).1
    ≡ map (rename_agent (renamed (direct_steps swap))) rows
cascade_link_renames-at_once_example =
    cascade_link_renames-at_once working (λ s. s) working_law 7 swap swap-IsRequest rows rows_clean
      swap_passes
