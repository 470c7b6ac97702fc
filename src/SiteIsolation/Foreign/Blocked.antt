-- ===== src/SiteIsolation/Foreign/Blocked.antt =====
-- A foreign rule drops all of the traffic exactly if it covers both ends and has no other condition.
use floppyguard.Base.{
  ◌≡◌, ◌↔◌, refl, sym, ap, ◌∙◌, Bool, true, false, not, ◌&&◌, Option, none, some, List, [], ◌∷◌, In,
  inl, inr, Bool-cases, Option-cases, arith, if◌then◌else◌,
}
use floppyguard.Base.Text.{Text}
use floppyguard.Cidr.{canonical_cidr}
use floppyguard.SiteIsolation.Foreign.{
  Drop, DropRef, drop_ref, drops_all, any_overlap, contained, part_of, manual_from,
  manual_drop_verdict,
}

-- A rule that drops everything from `s` to `d`.
pub record DropsAll (r : Drop) (s d : Text) : Type 0 where
  pub sources : List Text
  pub targets : List Text
  pub src : r.src ≡ some sources
  pub dst : r.dst ≡ some targets
  pub from : contained sources s ≡ true
  pub to : contained targets d ≡ true
  pub plain : r.extra ≡ false

nets_inj : {a b : List Text} → some a ≡ some b → a ≡ b
nets_inj q = cc

abbrev SomeDrop : List Drop → Text → Text → Type 0
SomeDrop rs s d = (r : Drop) × In r rs × DropsAll r s d

no_head :
    (r : Drop) (rs : List Drop) (s d : Text)
    → ¬ DropsAll r s d
    → SomeDrop (r ∷ rs) s d ↔ SomeDrop rs s d
no_head r rs s d no_drop = (
  (λ (q, m, k). elim m [ inl e ↦ absurd (no_drop (rw e at k)) | inr i ↦ (q, i, k) ]),
  (λ (q, m, k). (q, inr m, k)),
)

split_and : (a b c : Bool) → (a && b && not c) ≡ true → (a ≡ true) × (b ≡ true) × (c ≡ false)
split_and a b c h = ground arith

whole :
    (r : Drop) (s d : Text) (src dst : List Text)
    → r.src ≡ some src
    → r.dst ≡ some dst
    → (contained src s && contained dst d && not r.extra) ≡ true
    → DropsAll r s d
whole r s d src dst e f full =
    let parts = split_and (contained src s) (contained dst d) r.extra full in
    record {
      sources = src;
      targets = dst;
      src = e;
      dst = f;
      from = parts.0;
      to = parts.1;
      plain = parts.2;
    }

no_false : (a b c : Bool) → a ≡ true → b ≡ true → c ≡ false → (a && b && not c) ≡ false → ⊥
no_false a b c h k m n = ground arith

not_whole :
    (r : Drop) (s d : Text) (src dst : List Text)
    → r.src ≡ some src
    → r.dst ≡ some dst
    → (contained src s && contained dst d && not r.extra) ≡ false
    → DropsAll r s d
    → ⊥
not_whole r s d src dst e f less k =
    let a : contained src s ≡ true =
      ap (λ (ns : List Text). contained ns s) (nets_inj (sym e ∙ k.src)) ∙ k.from in
    let b : contained dst d ≡ true =
      ap (λ (ns : List Text). contained ns d) (nets_inj (sym f ∙ k.dst)) ∙ k.to in
    no_false (contained src s) (contained dst d) r.extra a b k.plain less

module _ (r : Drop) (rs : List Drop) (s d : Text) (part : Option DropRef) where
  step_src : r.src ≡ none → manual_from (r ∷ rs) s d part ≡ manual_from rs s d part
  unfolding manual_from
  step_src n = rw (manual_from, n) refl

  step_dst :
      (src : List Text)
      → r.src ≡ some src
      → r.dst ≡ none
      → manual_from (r ∷ rs) s d part ≡ manual_from rs s d part
  unfolding manual_from
  step_dst src e n = rw (manual_from, e, n) refl

  step_known :
      (src dst : List Text)
      → r.src ≡ some src
      → r.dst ≡ some dst
      → manual_from (r ∷ rs) s d part ≡ (
          if contained src s && contained dst d && not r.extra
          then drops_all (drop_ref r)
          else manual_from rs s d
              (part_of part (any_overlap src (s ∷ []) && any_overlap dst (d ∷ [])) (drop_ref r)))
  unfolding manual_from
  step_known src dst e f = rw (manual_from, e, f) refl

manual_from-DropsAll :
    (rs : List Drop) (s d : Text) (part : Option DropRef)
    → ((x : DropRef) × (manual_from rs s d part ≡ drops_all x)) ↔ SomeDrop rs s d
unfolding manual_from
manual_from-DropsAll [] s d none = ((λ (x, e). absurd (cc (e))), (λ (r, m, k). absurd m))
manual_from-DropsAll [] s d (some q) = ((λ (x, e). absurd (cc (e))), (λ (r, m, k). absurd m))
manual_from-DropsAll (r ∷ rs) s d part = elim (Option-cases r.src) [
  | inl n ↦
      let skip = no_head r rs s d (λ k. cc (n, k.src)) in
      let rest = manual_from-DropsAll rs s d part in
      rw (step_src r rs s d part n) ((λ b. skip.1 (rest.0 b)), (λ b. rest.1 (skip.0 b)))
  | inr (src, e) ↦ elim (Option-cases r.dst) [
    | inl n ↦
        let skip = no_head r rs s d (λ k. cc (n, k.dst)) in
        let rest = manual_from-DropsAll rs s d part in
        rw (step_dst r rs s d part src e n) ((λ b. skip.1 (rest.0 b)), (λ b. rest.1 (skip.0 b)))
    | inr (dst, f) ↦
        let meets = any_overlap src (s ∷ []) && any_overlap dst (d ∷ []) in
        let next = part_of part meets (drop_ref r) in
        let rest = manual_from-DropsAll rs s d next in
        elim (Bool-cases (contained src s && contained dst d && not r.extra)) [
          | inl full ↦
              rw (step_known r rs s d part src dst e f, full)
                ((λ b. (r, inl refl, whole r s d src dst e f full)), (λ b. (drop_ref r, refl)))
          | inr less ↦
              let skip = no_head r rs s d (λ k. not_whole r s d src dst e f less k) in
              rw (step_known r rs s d part src dst e f, less)
                ((λ b. skip.1 (rest.0 b)), (λ b. rest.1 (skip.0 b)))
        ]
  ]
]

-- For two accepted texts the verdict is "blocked" exactly if some drop rule with known addresses
-- and no further condition has a source network that contains the source and a target network
-- that contains the target.
pub manual_drop_verdict-DropsAll :
    (rs : List Drop) (src dst s d : Text)
    → canonical_cidr src ≡ some s
    → canonical_cidr dst ≡ some d
    → ((x : DropRef) × (manual_drop_verdict rs src dst ≡ drops_all x))
      ↔ ((r : Drop) × In r rs × DropsAll r s d)
unfolding manual_drop_verdict
manual_drop_verdict-DropsAll rs src dst s d e f =
    rw (manual_drop_verdict, e, f) (manual_from-DropsAll rs s d none)
