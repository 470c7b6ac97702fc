-- ===== src/AgentConfig/Hooks/Clean.antt =====
-- What passes `assertCIDR` of backend/internal/agent.js holds no line end, so the hooks that are
-- built from it are single lines.
use floppyguard.Base.{
  ℕ, ◌≡◌, ◌≢◌, refl, Bool, true, false, not, ◌&&◌, ◌||◌, List, [], ◌∷◌, ◌++◌, all, length, leb, All,
  All-map, all_iff, ◌==◌, &&_iff, arith,
}
use floppyguard.Base.Text.{Text, codes, split, is_digit, is_space, is_number}
use floppyguard.Base.Text.Trim.{All-of_split}
use floppyguard.Result.{Failure, ok, internal, throw_if, >>=-eq-ok, for_each}
use floppyguard.DirectLink.Config.{quad_of, cidr_shape, assert_cidr, assert_cidrs}
use floppyguard.AgentConfig.Sections.Entries.{IsEntry}

abbrev is_cidr_code : ℕ → Bool
is_cidr_code c = is_digit c || c == b'.' || c == b'/'

abbrev IsCidrCode : ℕ → Type 0
IsCidrCode c = is_cidr_code c ≡ true

codes_of_number : (most : ℕ) (s : Text) → is_number most s ≡ true → All IsCidrCode s
unfolding is_number
codes_of_number most s h =
    All-map (λ c e. rw e refl) s
      ((all_iff is_digit s).0
        ((&&_iff (leb 1 (length s) && leb (length s) most) (all is_digit s)).0 h).1)

codes_of_quad : (ws : List Text) → quad_of ws ≡ true → All (All IsCidrCode) ws
codes_of_quad [] h = tt
codes_of_quad (a ∷ []) h = absurd (cc)
codes_of_quad (a ∷ b ∷ []) h = absurd (cc)
codes_of_quad (a ∷ b ∷ c ∷ []) h = absurd (cc)
codes_of_quad (a ∷ b ∷ c ∷ d ∷ []) h =
    let (abc, hd) =
      (&&_iff (is_number 3 a && is_number 3 b && is_number 3 c) (is_number 3 d)).0 h in
    let (ab, hc) = (&&_iff (is_number 3 a && is_number 3 b) (is_number 3 c)).0 abc in
    let (ha, hb) = (&&_iff (is_number 3 a) (is_number 3 b)).0 ab in
    (
      codes_of_number 3 a ha,
      (codes_of_number 3 b hb, (codes_of_number 3 c hc, (codes_of_number 3 d hd, tt))),
    )
codes_of_quad (a ∷ b ∷ c ∷ d ∷ e ∷ ws) h = absurd (cc)

codes_of_shape : (ws : List Text) → cidr_shape ws ≡ true → All (All IsCidrCode) ws
unfolding is_digit
codes_of_shape [] h = tt
codes_of_shape (a ∷ []) h = absurd (cc)
codes_of_shape (ip ∷ prefix ∷ []) h =
    let (a, b) = (&&_iff (quad_of (split b'.' ip)) (is_number 2 prefix)).0 h in
    (
      All-of_split IsCidrCode b'.' ip refl (codes_of_quad (split b'.' ip) a),
      (codes_of_number 2 prefix b, tt),
    )
codes_of_shape (a ∷ b ∷ c ∷ ws) h = absurd (cc)

IsEntry-codes : (n : Text) → n ≢ [] → All IsCidrCode n → IsEntry n
unfolding is_digit is_space
IsEntry-codes n e h = (e, All-map (λ c q. ground arith) n h, All-map (λ c q. ground arith) n h)

unnegated : (b : Bool) → not b ≡ false → b ≡ true
unnegated true h = refl
unnegated false h = absurd (cc)

passed : (test : Bool) (f : Failure) (u : Unit {0}) → throw_if test f ≡ ok u → test ≡ false
passed true f u h = absurd (cc)
passed false f u h = refl

pub assert_cidr-IsEntry : (n : Text) (u : Unit {0}) → assert_cidr n ≡ ok u → IsEntry n
unfolding assert_cidr split
assert_cidr-IsEntry n u h =
    let shape =
      unnegated (cidr_shape (split b'/' n))
        (passed (not (cidr_shape (split b'/' n))) (internal (codes "Invalid CIDR: " ++ n)) u h) in
    IsEntry-codes n (λ e. cc (e, shape))
      (All-of_split IsCidrCode b'/' n refl (codes_of_shape (split b'/' n) shape))

pub assert_cidrs-IsEntry : (ns : List Text) (u : Unit {0}) → assert_cidrs ns ≡ ok u → All IsEntry ns
unfolding assert_cidrs for_each
assert_cidrs-IsEntry [] u h = tt
assert_cidrs-IsEntry (n ∷ ns) u h =
    let (v, a, b) = >>=-eq-ok (assert_cidr n) (λ _. assert_cidrs ns) u h in
    (assert_cidr-IsEntry n v a, assert_cidrs-IsEntry ns u b)
