-- ===== src/AgentConfig/Normalize/Parsed.antt =====
-- The AllowedIPs of the hub peer are read from a config that `normalizeAgentConfig` of
-- backend/internal/agent.js wrote as from the config it was given.
use floppyguard.Base.{
  ◌≡◌, ◌≢◌, refl, sym, ap, ◌∙◌, Bool, true, false, List, [], ◌∷◌, ◌++◌, filter, All, All-append,
  inl, inr, Bool-cases, all, arith,
}
use floppyguard.Base.Text.{Text, codes, join, trim, is_space}
use floppyguard.Base.Text.Laws.{Free}
use floppyguard.Result.{ok, ◌>>=◌, >>=-eq-ok, ok-injective}
use floppyguard.WireGuard.Dump.{lines_of}
use floppyguard.AgentConfig.Sections.{newline, is_peer_head, at_start, parse_hub_peer_allowed_ips}
use floppyguard.AgentConfig.Sections.Entries.{IsEntry}
use floppyguard.AgentConfig.Sections.Lines.{parse-join, Free-lines_of}
use floppyguard.AgentConfig.Hooks.{HookOptions, build_hub_post_up, build_hub_post_down}
use floppyguard.AgentConfig.Hooks.Lines.{Free-lit}
use floppyguard.AgentConfig.Hooks.Built.{build_hub_post_up-Free, build_hub_post_down-Free}
use floppyguard.AgentConfig.Tunnel.{derive_tunnel_subnet}
use floppyguard.AgentConfig.Normalize.{
  in_interface, hides_key, is_hook_line, kept_lines, has_table, insert_before_peer, insert_lines,
  is_subnet, new_lines, normalize_agent_config,
}
use floppyguard.AgentConfig.Normalize.Kept.{
  IsInert, IsInert-trim_cons, nets-kept_lines, nets-insert_lines,
}

Free-kept_lines :
    (now : Bool) (ls : List Text) → All (Free 10) ls → All (Free 10) (kept_lines now ls)
unfolding kept_lines all
Free-kept_lines now [] h = tt
Free-kept_lines now (raw ∷ ls) h =
    let t = trim raw in
    let inside = in_interface now t in
    let rest = Free-kept_lines inside ls h.1 in
    elim (Bool-cases (hides_key inside t)) [
      | inl e ↦ rw e (Free-lit (codes "PrivateKey = (hidden)") [] refl tt, rest)
      | inr e ↦ elim (Bool-cases (is_hook_line t)) [
        | inl f ↦ rw (e, f) rest
        | inr f ↦ rw (e, f) (h.0, rest)
      ]
    ]

module _ (new : List Text) (new_free : All (Free 10) new) where
  Free-insert_before_peer :
      (ls : List Text) → All (Free 10) ls → All (Free 10) (insert_before_peer new ls)
  unfolding insert_before_peer
  Free-insert_before_peer [] h = new_free
  Free-insert_before_peer (l ∷ ls) h = elim (Bool-cases (is_peer_head (trim l))) [
    | inl e ↦ rw e (All-append (Free 10) new (l ∷ ls) new_free h)
    | inr e ↦ rw e (h.0, Free-insert_before_peer ls h.1)
  ]

  Free-insert_lines : (ls : List Text) → All (Free 10) ls → All (Free 10) (insert_lines new ls)
  unfolding insert_lines
  Free-insert_lines [] h = new_free
  Free-insert_lines (l ∷ ls) h = elim (Bool-cases (is_peer_head (trim l))) [
    | inl e ↦ rw e (All-append (Free 10) (l ∷ ls) new h new_free)
    | inr e ↦ rw e (h.0, Free-insert_before_peer ls h.1)
  ]

Free-new_lines :
    (table : Bool) (up down : Text)
    → Free 10 up
    → Free 10 down
    → All (Free 10) (new_lines table up down)
unfolding all
Free-new_lines table up down a b = with_table table
  where
    hooks : All (Free 10) ((codes "PostUp = " ++ up) ∷ (codes "PostDown = " ++ down) ∷ [])
    hooks =
        (Free-lit (codes "PostUp = ") up refl a, (Free-lit (codes "PostDown = ") down refl b, tt))

    with_table : (x : Bool) → All (Free 10) (new_lines x up down)
    with_table true = hooks
    with_table false = (Free-lit (codes "Table = off") [] refl tt, hooks)

IsInert-new_lines :
    (table : Bool) (up down : Text) → All (λ l. IsInert (trim l)) (new_lines table up down)
unfolding is_space
IsInert-new_lines table up down = with_table table
  where
    hooks :
        All (λ l. IsInert (trim l)) ((codes "PostUp = " ++ up) ∷ (codes "PostDown = " ++ down) ∷ [])
    hooks = (
      IsInert-trim_cons b'P' (codes "ostUp = " ++ up) refl (λ z. omega arith) (λ z. omega arith),
      (
        IsInert-trim_cons b'P' (codes "ostDown = " ++ down) refl (λ z. omega arith)
            (λ z. omega arith),
        tt,
      ),
    )

    with_table : (x : Bool) → All (λ l. IsInert (trim l)) (new_lines x up down)
    with_table true = hooks
    with_table false = (
      IsInert-trim_cons b'T' (codes "able = off") refl (λ z. omega arith) (λ z. omega arith),
      hooks,
    )

parse_inserted :
    (config up down : Text)
    → Free 10 up
    → Free 10 down
    → parse_hub_peer_allowed_ips (
        join newline (
          insert_lines
            (new_lines (has_table false (lines_of config)) up down)
            (kept_lines false (lines_of config))))
      ≡ parse_hub_peer_allowed_ips config
unfolding parse_hub_peer_allowed_ips
parse_inserted config up down a b =
    let table = has_table false (lines_of config) in
    let kept = kept_lines false (lines_of config) in
    parse-join (insert_lines (new_lines table up down) kept) (
      Free-insert_lines (new_lines table up down) (Free-new_lines table up down a b) kept
        (Free-kept_lines false (lines_of config) (Free-lines_of config)))
    ∙ nets-insert_lines (new_lines table up down) at_start kept (IsInert-new_lines table up down)
    ∙ nets-kept_lines false at_start (lines_of config)

abbrev written : Text → Text → Text → Text
written config up down = join newline (
    insert_lines (new_lines (has_table false (lines_of config)) up down)
      (kept_lines false (lines_of config)))

-- A config that is normalized keeps the AllowedIPs of its hub peer, and the networks were checked.
pub parse-normalize_agent_config :
    (config : Text) (remote_nets : List Text) (opts : HookOptions) (out : Text)
    → config ≢ []
    → normalize_agent_config config remote_nets opts ≡ ok out
    → (parse_hub_peer_allowed_ips out ≡ parse_hub_peer_allowed_ips config)
      × IsEntry (derive_tunnel_subnet config)
      × All IsEntry remote_nets
unfolding normalize_agent_config
parse-normalize_agent_config [] remote_nets opts out n h = absurd (n refl)
parse-normalize_agent_config (c ∷ s) remote_nets opts out n h =
    let subnet = derive_tunnel_subnet (c ∷ s) in
    let nets = filter is_subnet (parse_hub_peer_allowed_ips (c ∷ s)) in
    let downs = λ (up : Text).
      build_hub_post_down subnet remote_nets nets opts >>= λ down. ok (written (c ∷ s) up down) in
    let (up, a, b) = >>=-eq-ok (build_hub_post_up subnet remote_nets nets opts) downs out h in
    let (down, d, e) =
      >>=-eq-ok (build_hub_post_down subnet remote_nets nets opts)
        (λ down. ok (written (c ∷ s) up down)) out b in
    let (free_up, checked, entries) = build_hub_post_up-Free subnet remote_nets nets opts up a in
    (
      ap parse_hub_peer_allowed_ips (sym (ok-injective e))
          ∙ parse_inserted (c ∷ s) up down free_up
              (build_hub_post_down-Free subnet remote_nets nets opts down d).0,
      checked,
      entries,
    )
