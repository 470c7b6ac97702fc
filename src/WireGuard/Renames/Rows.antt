-- ===== src/WireGuard/Renames/Rows.antt =====
-- What renaming does to the rows of the agents: composition, congruence and identity.
use floppyguard.Base.{
  ◌≡◌, inl, inr, refl, sym, ap, Bool, true, false, Option, none, some, List, [], ◌∷◌, map, length,
  ◌==◌, All, Bool-cases,
}
use mathlib.Core.Path.{subst, fun_ext}
use floppyguard.Base.Text.{Text, text_eq}
use floppyguard.Base.Text.Laws.{text_eq_iff}
use floppyguard.WireGuard.Renames.{
  BoundAgent, move, over_link, over_sites, rename_agent, rename_link_binding,
}

-- Every name in the rows satisfies a predicate.
abbrev pub LinkIs : (Text → Type 0) → Option Text → Type 0
LinkIs P none = Unit
LinkIs P (some t) = P t

abbrev pub SitesAre : (Text → Type 0) → Option (List Text) → Type 0
SitesAre P none = Unit
SitesAre P (some ts) = All P ts

abbrev pub NamesAre : (Text → Type 0) → List BoundAgent → Type 0
NamesAre P agents =
    All (λ (a : BoundAgent). LinkIs P a.wg_link_name × SitesAre P a.allowed_sites) agents

module _ (P : Text → Type 0) (f g : Text → Text) (same : (t : Text) → P t → f t ≡ g t) where
  over_link-cong : (o : Option Text) → LinkIs P o → over_link f o ≡ over_link g o
  over_link-cong none h = refl
  over_link-cong (some t) h = ap some (same t h)

  map-cong : (ts : List Text) → All P ts → map f ts ≡ map g ts
  map-cong [] h = refl
  map-cong (t ∷ ts) h = rw (same t h.0) (ap (g t ∷◌) (map-cong ts h.1))

  over_sites-cong :
      (d : Bool) (o : Option (List Text)) → SitesAre P o → over_sites f d o ≡ over_sites g d o
  over_sites-cong d none h = refl
  over_sites-cong true (some ts) h = refl
  over_sites-cong false (some ts) h = ap some (map-cong ts h)

  pub rename_agents-cong :
      (agents : List BoundAgent)
      → NamesAre P agents
      → map (rename_agent f) agents ≡ map (rename_agent g) agents
  rename_agents-cong [] h = refl
  rename_agents-cong (a ∷ rest) h =
      rw (over_link-cong a.wg_link_name h.0.0, over_sites-cong a.is_deleted a.allowed_sites h.0.1)
        (ap (rename_agent g a ∷◌) (rename_agents-cong rest h.1))

module _ (f g : Text → Text) where
  map-compose : (ts : List Text) → map g (map f ts) ≡ map (λ t. g (f t)) ts
  map-compose [] = refl
  map-compose (t ∷ ts) = ap (g (f t) ∷◌) (map-compose ts)

  over_link-compose : (o : Option Text) → over_link g (over_link f o) ≡ over_link (λ t. g (f t)) o
  over_link-compose none = refl
  over_link-compose (some t) = refl

  over_sites-compose :
      (d : Bool) (o : Option (List Text))
      → over_sites g d (over_sites f d o) ≡ over_sites (λ t. g (f t)) d o
  over_sites-compose d none = refl
  over_sites-compose true (some ts) = refl
  over_sites-compose false (some ts) = ap some (map-compose ts)

  rename_agent-compose :
      (a : BoundAgent) → rename_agent g (rename_agent f a) ≡ rename_agent (λ t. g (f t)) a
  rename_agent-compose a =
      rw (over_link-compose a.wg_link_name, over_sites-compose a.is_deleted a.allowed_sites) refl

  pub rename_agents-compose :
      (agents : List BoundAgent)
      → map (rename_agent g) (map (rename_agent f) agents)
        ≡ map (rename_agent (λ t. g (f t))) agents
  rename_agents-compose [] = refl
  rename_agents-compose (a ∷ rest) =
      rw (rename_agent-compose a)
        (ap (rename_agent (λ t. g (f t)) a ∷◌) (rename_agents-compose rest))

map-same : (ts : List Text) → map (λ (t : Text). t) ts ≡ ts
map-same [] = refl
map-same (t ∷ ts) = ap (t ∷◌) (map-same ts)

over_link-same : (o : Option Text) → over_link (λ t. t) o ≡ o
over_link-same none = refl
over_link-same (some t) = refl

over_sites-same : (d : Bool) (o : Option (List Text)) → over_sites (λ t. t) d o ≡ o
over_sites-same d none = refl
over_sites-same true (some ts) = refl
over_sites-same false (some ts) = ap some (map-same ts)

rename_agent-same : (a : BoundAgent) → rename_agent (λ t. t) a ≡ a
rename_agent-same a =
    rw (over_link-same a.wg_link_name, over_sites-same a.is_deleted a.allowed_sites) refl

pub rename_agents-same : (agents : List BoundAgent) → map (rename_agent (λ t. t)) agents ≡ agents
rename_agents-same [] = refl
rename_agents-same (a ∷ rest) = rw (rename_agent-same a) (ap (a ∷◌) (rename_agents-same rest))

move-same : (t n : Text) → move t t n ≡ n
move-same t n = elim (Bool-cases (text_eq n t)) [
  | inl e ↦ rw e (sym ((text_eq_iff n t).0 e))
  | inr e ↦ rw e refl
]

abbrev pub Nonempty : Text → Type 0
Nonempty t = (length t == 0) ≡ false

pub binding_moves :
    (from to : Text) (agents : List BoundAgent)
    → Nonempty from
    → Nonempty to
    → rename_link_binding from to agents ≡ map (rename_agent (move from to)) agents
unfolding rename_link_binding
binding_moves from to agents h k = elim (Bool-cases (text_eq from to)) [
  | inl e ↦
      rw (rename_link_binding, h, k, e)
        (subst (λ (u : Text). agents ≡ map (rename_agent (move from u)) agents)
          ((text_eq_iff from to).0 e)
          (subst (λ (f : Text → Text). agents ≡ map (rename_agent f) agents)
            (sym (fun_ext (move-same from))) (sym (rename_agents-same agents))))
  | inr e ↦ rw (rename_link_binding, h, k, e) refl
]
