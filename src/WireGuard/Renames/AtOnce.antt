-- ===== src/WireGuard/Renames/AtOnce.antt =====
-- The names that a cascade may be asked for, and what both of its phases do to a name.
use floppyguard.Base.{
  ℕ, suc, ◌≡◌, inl, inr, refl, sym, ap, ◌∙◌, Bool, false, ◌||◌, List, [], ◌∷◌, map, any, All, In,
  All-of_In, arith,
}
use mathlib.Core.Path.{subst}
use mathlib.Core.Bool.{false≢true}
use floppyguard.Base.Text.{Text, includes}
use floppyguard.Base.Text.Laws.{includes_iff}
use floppyguard.WireGuard.Renames.{Rename, Staged, temp_name, staged, direct_steps}
use floppyguard.WireGuard.Renames.Moves.{
  sources, targets, moves, renamed, moves-renamed, to_temp, from_temp, at_once, temps,
  renamed-renamed, Distinct-staged,
}
use floppyguard.WireGuard.Renames.Rows.{Nonempty}
use floppyguard.WireGuard.Renames.Cascade.{AllNonempty}

-- The temporary names that the cascade gives out.
abbrev pub temps_of : ℕ → List Rename → List Text
temps_of stamp rs = temps (staged stamp 0 rs)

-- Names that are given, none of them a temporary one.
abbrev pub IsRequest : ℕ → List Rename → Type 0
IsRequest stamp rs =
    All
      (λ (r : Rename).
        (Nonempty r.old_name × Nonempty r.new_name)
        × (¬ In r.old_name (temps_of stamp rs) × ¬ In r.new_name (temps_of stamp rs)))
      rs

at_once-staged : (stamp i : ℕ) (rs : List Rename) → at_once (staged stamp i rs) ≡ direct_steps rs
unfolding staged
at_once-staged stamp i [] = refl
at_once-staged stamp i (r ∷ rs) = ap ((r.old_name, r.new_name) ∷◌) (at_once-staged stamp (suc i) rs)

module _ (stamp : ℕ) (all_temps : List Text) where
  abbrev Good : List Rename → Type 0
  Good rs =
      All
        (λ (r : Rename).
          (Nonempty r.old_name × Nonempty r.new_name)
          × (¬ In r.old_name all_temps × ¬ In r.new_name all_temps))
        rs

  pub nonempty_direct : (rs : List Rename) → Good rs → AllNonempty (direct_steps rs)
  nonempty_direct [] h = tt
  nonempty_direct (r ∷ rs) h = (h.0.0, nonempty_direct rs h.1)

  pub nonempty_to : (i : ℕ) (rs : List Rename) → Good rs → AllNonempty (to_temp (staged stamp i rs))
  unfolding staged temp_name
  nonempty_to i [] h = tt
  nonempty_to i (r ∷ rs) h = ((h.0.0.0, ground arith), nonempty_to (suc i) rs h.1)

  pub nonempty_from :
      (i : ℕ) (rs : List Rename) → Good rs → AllNonempty (from_temp (staged stamp i rs))
  unfolding staged temp_name
  nonempty_from i [] h = tt
  nonempty_from i (r ∷ rs) h = ((ground arith, h.0.0.1), nonempty_from (suc i) rs h.1)

  new_not_temp :
      (i : ℕ) (rs : List Rename)
      → Good rs
      → All (λ t. ¬ In t all_temps) (targets (from_temp (staged stamp i rs)))
  unfolding staged
  new_not_temp i [] h = tt
  new_not_temp i (r ∷ rs) h = (h.0.1.1, new_not_temp (suc i) rs h.1)

  old_not_temp :
      (i : ℕ) (rs : List Rename)
      → Good rs
      → (t : Text) → In t all_temps
      → ¬ In t (sources (to_temp (staged stamp i rs)))
  unfolding staged
  old_not_temp i [] h t k m = m
  old_not_temp i (r ∷ rs) h t k (inl e) = h.0.1.0 (subst (λ (u : Text). In u all_temps) e k)
  old_not_temp i (r ∷ rs) h t k (inr m) = old_not_temp (suc i) rs h.1 t k m

temps-targets : (ss : List Staged) → temps ss ≡ targets (to_temp ss)
temps-targets [] = refl
temps-targets (s ∷ ss) = ap (s.temp ∷◌) (temps-targets ss)

temps-sources : (ss : List Staged) → temps ss ≡ sources (from_temp ss)
temps-sources [] = refl
temps-sources (s ∷ ss) = ap (s.temp ∷◌) (temps-sources ss)

pub sources-direct :
    (rs : List Rename) → sources (direct_steps rs) ≡ map (λ (o : Rename). o.old_name) rs
sources-direct [] = refl
sources-direct (r ∷ rs) = ap (r.old_name ∷◌) (sources-direct rs)

or-false : (a b : Bool) → (a || b) ≡ false → (a ≡ false) × (b ≡ false)
or-false a b h = ground arith

pub direct_apart :
    (olds : List Text) (rs : List Rename)
    → any (λ (r : Rename). includes olds r.new_name) rs ≡ false
    → All (λ t. ¬ In t olds) (targets (direct_steps rs))
unfolding any
direct_apart olds [] h = tt
direct_apart olds (r ∷ rs) h =
    let (a, b) =
      or-false (includes olds r.new_name) (any (λ (r : Rename). includes olds r.new_name) rs) h in
    (
      (λ m. absurd (false≢true (sym a ∙ (includes_iff olds r.new_name).1 m))),
      direct_apart olds rs b,
    )

-- Through the temporary names every name ends where one look at the requests sends it.
pub both_phases :
    (stamp : ℕ) (rs : List Rename)
    → IsRequest stamp rs
    → (t : Text) → ¬ In t (temps_of stamp rs)
    → moves (from_temp (staged stamp 0 rs)) (moves (to_temp (staged stamp 0 rs)) t)
      ≡ renamed (direct_steps rs) t
both_phases stamp rs h t n =
    let ss = staged stamp 0 rs in
    let ts = temps ss in
    let to : All (λ t. ¬ In t (sources (to_temp ss))) (targets (to_temp ss)) =
      subst (λ (us : List Text). All (λ t. ¬ In t (sources (to_temp ss))) us) (temps-targets ss)
        (All-of_In ts (λ u m. old_not_temp stamp ts 0 rs h u m)) in
    let from : All (λ t. ¬ In t (sources (from_temp ss))) (targets (from_temp ss)) =
      subst (λ (us : List Text). All (λ t. ¬ In t us) (targets (from_temp ss))) (temps-sources ss)
        (new_not_temp stamp ts 0 rs h) in
    moves-renamed (from_temp ss) from (moves (to_temp ss) t)
    ∙ ap (renamed (from_temp ss)) (moves-renamed (to_temp ss) to t)
    ∙ renamed-renamed ss (Distinct-staged stamp 0 rs) t n
    ∙ ap (λ steps. renamed steps t) (at_once-staged stamp 0 rs)
