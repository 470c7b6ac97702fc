-- ===== src/AgentConfig/Sync/Written.antt =====
-- What `_syncOneAgent` of backend/internal/agent.js writes lists exactly the networks that the agent
-- may reach.
use floppyguard.AgentConfig.Sync.Joined.{Free-parse, joined_nets-injective}
use floppyguard.DirectLink.Peers.Sorted.{IsOrdered, IsOrdered-sort_texts, sort_texts-IsOrdered}
use floppyguard.Base.{
  ◌≡◌, ◌≢◌, ◌↔◌, ◌⊎◌, refl, sym, ap, ◌∙◌, Bool, true, List, [], ◌∷◌, In, All, All-of_In, All_at,
  inl, inr, Bool-cases, if◌then◌else◌,
}
use mathlib.Core.Path.{subst}
use floppyguard.Base.Text.{Text, text_eq}
use floppyguard.Base.Text.Laws.{Free, text_eq_iff}
use floppyguard.Result.{ok, >>=-eq-ok}
use floppyguard.SiteIsolation.{uniq_onto}
use floppyguard.SiteIsolation.Nets.{In-uniq_onto}
use floppyguard.DirectLink.Peers.{sort_texts, In-sort_texts}
use floppyguard.AgentConfig.Sections.{parse_hub_peer_allowed_ips}
use floppyguard.AgentConfig.Sections.Entries.{IsEntry}
use floppyguard.AgentConfig.Tunnel.{derive_tunnel_subnet}
use floppyguard.AgentConfig.Tunnel.Entry.{IsEntry-derive_tunnel_subnet}
use floppyguard.AgentConfig.Sections.Rewritten.{has_hub_list, parse-rewrite_hub_peer_allowed_ips}
use floppyguard.AgentConfig.Endpoint.{sanitize_hub_host, rewrite_hub_peer_endpoint}
use floppyguard.AgentConfig.Endpoint.Single.{parse-rewrite_hub_peer_endpoint}
use floppyguard.AgentConfig.Hooks.{HookOptions, sanitize_wg_interface}
use floppyguard.AgentConfig.Normalize.{normalize_agent_config}
use floppyguard.AgentConfig.Normalize.Parsed.{parse-normalize_agent_config}
use floppyguard.AgentConfig.Reach.{SiteMeta, MeshIndex, compute_hub_peer_allowed_ips}
use floppyguard.AgentConfig.Sync.{
  AgentRow, Env, joined_nets, agent_other_site_nets, local_nets_of, with_allowed, new_allowed_ips,
  new_config,
}

same_list :
    (config w : Text) (ws : List Text)
    → All IsEntry (w ∷ ws)
    → text_eq (joined_nets (w ∷ ws)) (joined_nets (sort_texts (parse_hub_peer_allowed_ips config)))
      ≡ true
    → w ∷ ws ≡ sort_texts (parse_hub_peer_allowed_ips config)
same_list config w ws h e =
    let nets = parse_hub_peer_allowed_ips config in
    joined_nets-injective w ws (sort_texts nets) h
      (All-of_In (sort_texts nets)
        (λ x m. All_at (Free b',') x nets (Free-parse config) ((In-sort_texts x nets).0 m)))
      ((text_eq_iff (joined_nets (w ∷ ws)) (joined_nets (sort_texts nets))).0 e)

-- Rewritten or left alone, the hub peer lists the new networks.
sort-with_allowed :
    (config : Text) (new : List Text)
    → new ≢ []
    → All IsEntry new
    → IsOrdered new
    → has_hub_list config ≡ true
    → sort_texts (parse_hub_peer_allowed_ips (with_allowed config new)) ≡ new
unfolding with_allowed
sort-with_allowed config [] ne h o l = absurd (ne refl)
sort-with_allowed config (w ∷ ws) ne h o l =
    let nets = parse_hub_peer_allowed_ips config in
    elim (Bool-cases (text_eq (joined_nets (w ∷ ws)) (joined_nets (sort_texts nets)))) [
      | inl e ↦ rw e (sym (same_list config w ws h e))
      | inr e ↦ rw e (
          ap sort_texts (
            parse-rewrite_hub_peer_allowed_ips config w ws h
            ∙ ap (λ (b : Bool). if b then w ∷ ws else []) l)
          ∙ sort_texts-IsOrdered (w ∷ ws) o)
    ]

IsOrdered-compute_hub_peer_allowed_ips :
    (tunnel : Text) (nets : List Text) → IsOrdered (compute_hub_peer_allowed_ips tunnel nets)
unfolding compute_hub_peer_allowed_ips
IsOrdered-compute_hub_peer_allowed_ips tunnel nets =
    IsOrdered-sort_texts (uniq_onto [] (tunnel ∷ nets))

pub In-compute_hub_peer_allowed_ips :
    (tunnel : Text) (nets : List Text) (n : Text)
    → In n (compute_hub_peer_allowed_ips tunnel nets) ↔ ((n ≡ tunnel) ⊎ In n nets)
unfolding compute_hub_peer_allowed_ips
In-compute_hub_peer_allowed_ips tunnel nets n =
    let a = In-sort_texts n (uniq_onto [] (tunnel ∷ nets)) in
    let b = In-uniq_onto n [] (tunnel ∷ nets) in
    ((λ m. elim (b.0 (a.0 m)) [ inl z ↦ absurd z | inr k ↦ k ]), (λ m. a.1 (b.1 (inr m))))

module _ (env : Env) (agent : AgentRow) (l : SiteMeta) (mesh : MeshIndex) where
  abbrev pub reach : List Text
  reach = (agent_other_site_nets env agent l mesh).nets

  pub In-new_allowed_ips :
      (n : Text)
      → In n (new_allowed_ips env agent l mesh)
        ↔ ((n ≡ derive_tunnel_subnet agent.config_text) ⊎ In n reach)
  unfolding new_allowed_ips
  In-new_allowed_ips n =
      In-compute_hub_peer_allowed_ips (derive_tunnel_subnet agent.config_text) reach n

  new_allowed_ips-ne : new_allowed_ips env agent l mesh ≢ []
  new_allowed_ips-ne e =
      subst (In (derive_tunnel_subnet agent.config_text)) e
        ((In-new_allowed_ips (derive_tunnel_subnet agent.config_text)).1 (inl refl))

  IsEntry-new_allowed_ips : All IsEntry reach → All IsEntry (new_allowed_ips env agent l mesh)
  IsEntry-new_allowed_ips h = All-of_In (new_allowed_ips env agent l mesh) (λ n m.
      elim ((In-new_allowed_ips n).0 m) [
        | inl e ↦ subst IsEntry (sym e) (IsEntry-derive_tunnel_subnet agent.config_text)
        | inr i ↦ All_at IsEntry n reach h i
      ])

  -- The text that is normalized.
  abbrev pub rewritten : Text
  rewritten =
      rewrite_hub_peer_endpoint env.to_lower
        (with_allowed agent.config_text (new_allowed_ips env agent l mesh))
        (sanitize_hub_host env.wg_hub_host)

  abbrev options : Text → HookOptions
  options iface = record { iface = iface; local_nets = local_nets_of agent l }

  IsOrdered-new_allowed_ips : IsOrdered (new_allowed_ips env agent l mesh)
  unfolding new_allowed_ips
  IsOrdered-new_allowed_ips =
      IsOrdered-compute_hub_peer_allowed_ips (derive_tunnel_subnet agent.config_text) reach

  -- The new config lists the new networks.
  pub sort-new_config :
      (out : Text)
      → rewritten ≢ []
      → has_hub_list agent.config_text ≡ true
      → new_config env agent l mesh ≡ ok out
      → sort_texts (parse_hub_peer_allowed_ips out) ≡ new_allowed_ips env agent l mesh
  unfolding new_config
  sort-new_config out ne list h =
      let (iface, a, b) =
        >>=-eq-ok (sanitize_wg_interface agent.wg_interface)
          (λ iface. normalize_agent_config rewritten (sort_texts reach) (options iface)) out h in
      let (same, sub, entries) =
        parse-normalize_agent_config rewritten (sort_texts reach) (options iface) out ne b in
      let clean =
        All-of_In reach
          (λ x m. All_at IsEntry x (sort_texts reach) entries ((In-sort_texts x reach).1 m)) in
      ap sort_texts (
        same
        ∙ parse-rewrite_hub_peer_endpoint env.to_lower
            (with_allowed agent.config_text (new_allowed_ips env agent l mesh)) env.wg_hub_host)
      ∙ sort-with_allowed agent.config_text (new_allowed_ips env agent l mesh) new_allowed_ips-ne
          (IsEntry-new_allowed_ips clean) IsOrdered-new_allowed_ips list
