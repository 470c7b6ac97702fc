-- ===== src/WireGuard/Plan/Contract.antt =====
-- When a patch may be applied, and when a backup is made before.
use floppyguard.Base.{
  suc, ◌+◌, ◌<◌, ◌≡◌, ◌≢◌, ◌↔◌, inl, inr, refl, true, false, not, List, [], ◌∷◌, ◌++◌, filter,
  length, ltb, ◌==◌, map, ==_iff, ltb_iff, &&_iff, ne-nil_of_In, arith,
}
use floppyguard.Base.Text.{Text, codes}
use floppyguard.SiteIsolation.{uniq_onto}
use floppyguard.SiteIsolation.Nets.{In-uniq_onto}
use floppyguard.WireGuard.Plan.{Diff, dedupe, changed_count, build_apply_contract}

uniq_onto-cons : (t : Text) (ts : List Text) → uniq_onto [] (t ∷ ts) ≢ []
uniq_onto-cons t ts =
    ne-nil_of_In t (uniq_onto [] (t ∷ ts)) ((In-uniq_onto t [] (t ∷ ts)).1 (inr (inl refl)))

-- Each error blocks: no text that stands for one is empty.
blocked-nil :
    (errors : List Text) → (dedupe (map (λ e. codes "error:" ++ e) errors) ≡ []) ↔ (errors ≡ [])
unfolding dedupe filter
blocked-nil [] = ((λ _. refl), (λ _. refl))
blocked-nil (e ∷ es) =
    let full : (length (codes "error:" ++ e) == 0) ≡ false = ground arith in
    let rest = filter (λ v. not (length v == 0)) (map (λ e. codes "error:" ++ e) es) in
    (
      (λ h. absurd (uniq_onto-cons (codes "error:" ++ e) rest (rw (dedupe, filter, full) at h))),
      (λ h. absurd (cc)),
    )

length-nil : {A : Type 0} (xs : List A) → ((length xs == 0) ≡ true) ↔ (xs ≡ [])
length-nil [] = ((λ _. refl), (λ _. refl))
length-nil (x ∷ xs) =
    ((λ h. absurd (omega (arith, (==_iff (suc (length xs)) 0).0 h))), (λ h. absurd (cc)))

-- A patch may be applied exactly if the preview has no error and some field changes.
pub build_apply_contract-can_apply :
    (errors next_actions : List Text) (d : Diff)
    → ((build_apply_contract errors next_actions d).can_apply ≡ true)
      ↔ ((errors ≡ []) × (0 < changed_count d.interfaces + changed_count d.links))
unfolding build_apply_contract
build_apply_contract-can_apply errors next_actions d =
    let count = changed_count d.interfaces + changed_count d.links in
    let blocked = dedupe (map (λ e. codes "error:" ++ e) errors) in
    let parts = &&_iff (length blocked == 0) (ltb 0 count) in
    (
      (λ h. (
        (blocked-nil errors).0 ((length-nil blocked).0 (parts.0 h).0),
        (ltb_iff 0 count).0 (parts.0 h).1,
      )),
      (λ h. parts.1 ((length-nil blocked).1 ((blocked-nil errors).1 h.0), (ltb_iff 0 count).1 h.1)),
    )
