-- ===== src/WireGuard/Renames.antt =====
-- backend/internal/wireguard.js: `cascadeLinkRenames`, which moves the agents that are bound to a
-- link by its name, and `renameLinkBinding` of backend/internal/agent.js, which it calls.
pub mod Moves
pub mod Rows
pub mod AtOnce
pub mod Outcome
pub mod Cascade
use floppyguard.Base.{
  ℕ, suc, Bool, true, false, not, ◌&&◌, ◌||◌, Option, none, some, List, [], ◌∷◌, ◌++◌, any, length,
  ◌==◌, if◌then◌else◌, map,
}
use floppyguard.Base.Text.{Text, codes, text_eq, includes, decimal}

-- An agent's row: the name of its link, and the sites that it may reach, or `none` where that
-- column is null or no JSON array.
pub record BoundAgent : Type 0 where
  pub id : ℕ
  pub wg_link_name : Option Text
  pub allowed_sites : Option (List Text)
  pub is_deleted : Bool

abbrev pub move : Text → Text → Text → Text
move from to name = if text_eq name from then to else name

abbrev pub over_link : (Text → Text) → Option Text → Option Text
over_link f none = none
over_link f (some name) = some (f name)

abbrev pub over_sites : (Text → Text) → Bool → Option (List Text) → Option (List Text)
over_sites f deleted none = none
over_sites f true (some sites) = some sites
over_sites f false (some sites) = some (map f sites)

-- The rows are read with the exact name, whatever the collation of the database.
abbrev pub rename_agent : (Text → Text) → BoundAgent → BoundAgent
rename_agent f a = record {
  id = a.id;
  wg_link_name = over_link f a.wg_link_name;
  allowed_sites = over_sites f a.is_deleted a.allowed_sites;
  is_deleted = a.is_deleted;
}

unfoldable pub rename_link_binding : Text → Text → List BoundAgent → List BoundAgent
unfolding text_eq
rename_link_binding old new agents =
    if length old == 0 || length new == 0 || text_eq old new
    then agents
    else map (rename_agent (move old new)) agents

pub record Rename : Type 0 where
  pub old_name : Text
  pub new_name : Text

pub record Failed : Type 0 where
  pub from : Text
  pub to : Text
  pub error : Text

pub record CascadeResult : Type 0 where
  pub renames : List Rename
  pub errors : List Failed
  pub rolled_back : Bool

-- A rename with the temporary name `__fg_rename_${stamp}_${i}__` that it goes through.
pub record Staged : Type 0 where
  pub old : Text
  pub temp : Text
  pub new : Text

unfoldable pub temp_name : ℕ → ℕ → Text
unfolding decimal
temp_name stamp i = codes "__fg_rename_" ++ (decimal stamp ++ (b'_' ∷ (decimal i ++ codes "__")))

unfoldable pub staged : ℕ → ℕ → List Rename → List Staged
unfolding temp_name
staged stamp i [] = []
staged stamp i (r ∷ rs) =
    (record { old = r.old_name; temp = temp_name stamp i; new = r.new_name })
    ∷ staged stamp (suc i) rs

abbrev pub needs_temp : List Rename → Bool
needs_temp rs = any (λ (r : Rename). includes (map (λ (o : Rename). o.old_name) rs) r.new_name) rs

abbrev pub direct_steps : List Rename → List (Text × Text)
direct_steps rs = map (λ (r : Rename). (r.old_name, r.new_name)) rs

abbrev pub undo_steps : List Staged → List (Text × Text)
undo_steps moved = map (λ (r : Staged). (r.temp, r.old)) moved

-- `rename` gives the message of what it throws, or `none`; the state is that of the database.
module _ {S : Type 0} (rename : Text → Text → S → Option Text × S) where
  abbrev pub failed_step : Text → Text → Option Text → List Failed
  failed_step from to none = []
  failed_step from to (some e) = (record { from = from; to = to; error = e }) ∷ []

  -- Each step is tried, and what fails is noted.
  unfoldable pub run_steps : List (Text × Text) → S → List Failed × S
  run_steps [] s = ([], s)
  run_steps ((from, to) ∷ steps) s =
      let (e, s') = rename from to s in
      let (errors, end) = run_steps steps s' in (failed_step from to e ++ errors, end)

  -- What the first phase leaves: the moved renames, the last one first, and the failure that
  -- ended it.
  pub record Phase : Type 0 where
    pub moved : List Staged
    pub failure : List Failed
    pub state : S

  unfoldable pub temp_phase : List Staged → List Staged → S → Phase
  temp_phase [] moved s = record { moved = moved; failure = []; state = s }
  temp_phase (r ∷ rs) moved s =
      let (e, s') = rename r.old r.temp s in
      let next = temp_phase rs (r ∷ moved) s' in
      elim e [
        | some message ↦ record {
          moved = moved;
          failure = failed_step r.old r.temp (some message);
          state = s';
        }
        | none ↦ next
      ]

  -- A failed final step is tried once more.
  unfoldable pub twice : Text → Text → S → Option Text × S
  twice from to s =
      let (e, s') = rename from to s in elim e [ none ↦ (none, s') | some _ ↦ rename from to s' ]

  unfoldable pub final_phase : List Staged → S → List Failed × S
  unfolding twice
  final_phase [] s = ([], s)
  final_phase (r ∷ rs) s =
      let (e, s') = twice r.temp r.new s in
      let (errors, end) = final_phase rs s' in (failed_step r.temp r.new e ++ errors, end)

  unfoldable pub after_temp : List Rename → List Staged → Phase → CascadeResult × S
  unfolding run_steps final_phase
  after_temp renames stages p = elim (p.failure) [
    | [] ↦
        let (errors, s) = final_phase stages p.state in
        (record { renames = renames; errors = errors; rolled_back = false }, s)
    | f ∷ _ ↦
        let (errors, s) = run_steps (undo_steps p.moved) p.state in
        (record { renames = renames; errors = f ∷ errors; rolled_back = true }, s)
  ]

  unfoldable pub cascade_link_renames : ℕ → List Rename → S → CascadeResult × S
  unfolding run_steps temp_phase after_temp staged any includes
  cascade_link_renames stamp renames s =
      let (errors, end) = run_steps (direct_steps renames) s in
      let stages = staged stamp 0 renames in
      if needs_temp renames
      then after_temp renames stages (temp_phase stages [] s)
      else (record { renames = renames; errors = errors; rolled_back = false }, end)
