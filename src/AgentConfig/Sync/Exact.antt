-- ===== src/AgentConfig/Sync/Exact.antt =====
-- A run of `_syncOneAgent` of backend/internal/agent.js that writes a config.
use floppyguard.Base.{
  ◌≡◌, ◌↔◌, ◌⊎◌, refl, sym, ap, ◌∙◌, true, false, some, [], ◌∷◌, arith, List, In, inl, inr,
  Bool-cases, ◌==◌, length,
}
use mathlib.Core.Path.{subst}
use floppyguard.Base.Text.{Text}
use floppyguard.Base.Text.Laws.{text_eq_iff}
use floppyguard.DirectLink.Peers.{sort_texts, In-sort_texts}
use floppyguard.Result.{ok, >>=-eq-ok, ok-injective}
use floppyguard.AgentConfig.Sections.{parse_hub_peer_allowed_ips}
use floppyguard.AgentConfig.Sections.Rewritten.{has_hub_list}
use floppyguard.AgentConfig.Tunnel.{derive_tunnel_subnet}
use floppyguard.AgentConfig.Endpoint.{sanitize_hub_host}
use floppyguard.AgentConfig.Reach.{SiteMeta, MeshIndex, compute_hub_peer_allowed_ips}
use floppyguard.AgentConfig.Reach.Exact.{IsReached, compute_other_site_nets-IsReached}
use floppyguard.AgentConfig.Sync.{
  AgentRow, Env, Synced, SyncResult, ambiguous_link_name, no_link_or_config, in_sync, synced,
  link_named, query_of, joined_nets, allowed_differs, agent_other_site_nets, new_allowed_ips,
  new_config, outcome, same_hash, hash_config, sync_one_agent,
}
use floppyguard.AgentConfig.Sync.Blank.{rewritten-ne}
use floppyguard.AgentConfig.Sync.Written.{In-new_allowed_ips, sort-new_config}

abbrev IsWritten : Text → List Text → SyncResult → Type 0
IsWritten out nets (synced s) = (s.config_text ≡ out) × (s.allowed_ips ≡ nets)
IsWritten out nets ambiguous_link_name = Unit
IsWritten out nets no_link_or_config = Unit
IsWritten out nets in_sync = Unit

-- The result of a sync that finds the AllowedIPs as they should be.
abbrev pub IsKept : List Text → SyncResult → Type 0
IsKept nets in_sync = Unit
IsKept nets (synced s) = (s.allowed_ips ≡ nets) × (s.allowed_changed ≡ false)
IsKept nets ambiguous_link_name = ⊥
IsKept nets no_link_or_config = ⊥

-- The row of an agent after a sync has written it.
abbrev pub row_after : AgentRow → Synced → AgentRow
row_after agent s = record agent { config_text = s.config_text; config_hash = s.config_hash }

module _ (env : Env) (agent : AgentRow) (l : SiteMeta) (mesh : MeshIndex) where
  IsWritten-outcome :
      (config : Text)
      → IsWritten config (new_allowed_ips env agent l mesh) (outcome env agent l mesh config)
  IsWritten-outcome config =
      elim (Bool-cases (same_hash (hash_config env.sha256 config) agent.config_hash)) [
        | inl e ↦ rw e tt
        | inr e ↦ rw e (refl, refl)
      ]

  -- A run over a link and a config that are there.
  ran :
      (r : SyncResult)
      → mesh.ambiguous agent.wg_link_name ≡ false
      → link_named agent.wg_link_name mesh.links_by_name ≡ some l
      → (length agent.config_text == 0) ≡ false
      → sync_one_agent env agent mesh ≡ ok r
      → (config : Text) × (new_config env agent l mesh ≡ ok config)
        × (outcome env agent l mesh config ≡ r)
  unfolding sync_one_agent
  ran r clear found full h =
      let (config, a, b) =
        >>=-eq-ok (new_config env agent l mesh) (λ config. ok (outcome env agent l mesh config)) r
          (rw (clear, found, full) at h) in
      (config, a, ok-injective b)

  -- A run that writes passes its guards.
  synced_guards :
      (s : Synced)
      → link_named agent.wg_link_name mesh.links_by_name ≡ some l
      → sync_one_agent env agent mesh ≡ ok (synced s)
      → (mesh.ambiguous agent.wg_link_name ≡ false) × ((length agent.config_text == 0) ≡ false)
  unfolding sync_one_agent
  synced_guards s found h = elim (Bool-cases (mesh.ambiguous agent.wg_link_name)) [
    | inl e ↦ absurd (cc (rw e at h))
    | inr e ↦ elim (Bool-cases (length agent.config_text == 0)) [
      | inl f ↦ absurd (cc (rw (e, found, f) at h))
      | inr f ↦ (e, f)
    ]
  ]

  -- A config that is written is the new one of the agent's link.
  sync_one_agent-new :
      (s : Synced)
      → link_named agent.wg_link_name mesh.links_by_name ≡ some l
      → sync_one_agent env agent mesh ≡ ok (synced s)
      → (new_config env agent l mesh ≡ ok s.config_text)
        × (s.allowed_ips ≡ new_allowed_ips env agent l mesh)
  sync_one_agent-new s found h =
      let (clear, full) = synced_guards s found h in
      let (config, a, b) = ran (synced s) clear found full h in
      let (text, nets) =
        subst (IsWritten config (new_allowed_ips env agent l mesh)) b (IsWritten-outcome config) in
      (a ∙ ap ok (sym text), nets)

  IsKept-outcome :
      (config : Text)
      → allowed_differs agent.config_text (new_allowed_ips env agent l mesh) ≡ false
      → IsKept (new_allowed_ips env agent l mesh) (outcome env agent l mesh config)
  IsKept-outcome config same =
      elim (Bool-cases (same_hash (hash_config env.sha256 config) agent.config_hash)) [
        | inl e ↦ rw e tt
        | inr e ↦ rw e (refl, same)
      ]

differs_not :
    (config : Text) (new : List Text)
    → sort_texts (parse_hub_peer_allowed_ips config) ≡ new
    → allowed_differs config new ≡ false
differs_not config new e =
    let shown = sort_texts (parse_hub_peer_allowed_ips config) in
    rw ((text_eq_iff (joined_nets new) (joined_nets shown)).1 (ap joined_nets (sym e))) refl

sync_one_agent-sort :
    (env : Env) (agent : AgentRow) (l : SiteMeta) (mesh : MeshIndex) (s : Synced)
    → link_named agent.wg_link_name mesh.links_by_name ≡ some l
    → has_hub_list agent.config_text ≡ true
    → sync_one_agent env agent mesh ≡ ok (synced s)
    → sort_texts (parse_hub_peer_allowed_ips s.config_text) ≡ new_allowed_ips env agent l mesh
sync_one_agent-sort env agent l mesh s found list h =
    sort-new_config env agent l mesh s.config_text
      (rewritten-ne env.to_lower agent.config_text (new_allowed_ips env agent l mesh)
        (sanitize_hub_host env.wg_hub_host) list)
      list (sync_one_agent-new env agent l mesh s found h).0

-- When the config of an agent is written, and the hub peer of the old one had an AllowedIPs line, the
-- AllowedIPs of the hub peer that are read from the new config are exactly the tunnel subnet of the
-- old config and the networks that the agent may reach.
pub sync_one_agent-IsReached :
    (env : Env) (agent : AgentRow) (l : SiteMeta) (mesh : MeshIndex) (s : Synced) (n : Text)
    → link_named agent.wg_link_name mesh.links_by_name ≡ some l
    → has_hub_list agent.config_text ≡ true
    → sync_one_agent env agent mesh ≡ ok (synced s)
    → In n (parse_hub_peer_allowed_ips s.config_text)
      ↔ ((n ≡ derive_tunnel_subnet agent.config_text) ⊎ IsReached (query_of env agent l mesh) n)
unfolding agent_other_site_nets
sync_one_agent-IsReached env agent l mesh s n found list h =
    let nets = parse_hub_peer_allowed_ips s.config_text in
    let same = sync_one_agent-sort env agent l mesh s found list h in
    let sorted = In-sort_texts n nets in
    let new = In-new_allowed_ips env agent l mesh n in
    let reached = compute_other_site_nets-IsReached (query_of env agent l mesh) n in
    (
      (λ m. elim (new.0 (subst (In n) same (sorted.1 m))) [
        | inl e ↦ inl e
        | inr i ↦ inr (reached.0 i)
      ]),
      (λ m.
          sorted.0 (
            subst (In n) (sym same)
              (new.1 (elim m [ inl e ↦ inl e | inr i ↦ inr (reached.1 i) ])))),
    )

parse_empty : parse_hub_peer_allowed_ips [] ≡ []
unfolding parse_hub_peer_allowed_ips
parse_empty = refl

-- A config that lists networks is not empty.
full_lem :
    (config x : Text) → In x (parse_hub_peer_allowed_ips config) → (length config == 0) ≡ false
full_lem [] x m = absurd (subst (In x) parse_empty m)
full_lem (c ∷ s) x m = ground arith

-- The row that was written has the same networks, where the tunnel subnet stays the same.
new_allowed_ips-row_after :
    (env : Env) (agent : AgentRow) (l : SiteMeta) (mesh : MeshIndex) (s : Synced)
    → derive_tunnel_subnet s.config_text ≡ derive_tunnel_subnet agent.config_text
    → new_allowed_ips env (row_after agent s) l mesh ≡ new_allowed_ips env agent l mesh
unfolding new_allowed_ips agent_other_site_nets query_of
new_allowed_ips-row_after env agent l mesh s same =
    ap (λ (t : Text). compute_hub_peer_allowed_ips t (agent_other_site_nets env agent l mesh).nets)
      same

-- When a sync writes the config of an agent, the hub peer of the old config had an AllowedIPs line,
-- and both configs have the same tunnel subnet, then the sorted AllowedIPs of the new config are the
-- ones reported as written, and a second sync of the row that was written, under the same settings
-- and metadata, that does not throw either is in sync or writes with the same AllowedIPs, which it
-- reports as not changed.
pub sync_one_agent-settled :
    (env : Env) (agent : AgentRow) (l : SiteMeta) (mesh : MeshIndex) (s : Synced) (r : SyncResult)
    → link_named agent.wg_link_name mesh.links_by_name ≡ some l
    → has_hub_list agent.config_text ≡ true
    → sync_one_agent env agent mesh ≡ ok (synced s)
    → derive_tunnel_subnet s.config_text ≡ derive_tunnel_subnet agent.config_text
    → sync_one_agent env (row_after agent s) mesh ≡ ok r
    → (sort_texts (parse_hub_peer_allowed_ips s.config_text) ≡ s.allowed_ips)
      × IsKept s.allowed_ips r
sync_one_agent-settled env agent l mesh s r found list h tunnel again =
    let next : AgentRow = row_after agent s in
    let written = (sync_one_agent-new env agent l mesh s found h).1 in
    let same = sync_one_agent-sort env agent l mesh s found list h in
    let nets = new_allowed_ips-row_after env agent l mesh s tunnel in
    let subnet = derive_tunnel_subnet agent.config_text in
    let listed =
      (In-sort_texts subnet (parse_hub_peer_allowed_ips s.config_text)).0 (
        subst (In subnet) (sym same) ((In-new_allowed_ips env agent l mesh subnet).1 (inl refl))) in
    let (config, _, end) =
      ran env next l mesh r (synced_guards env agent l mesh s found h).0 found
        (full_lem s.config_text subnet listed) again in
    let kept =
      IsKept-outcome env next l mesh config
        (differs_not s.config_text (new_allowed_ips env next l mesh) (same ∙ sym nets)) in
    (
      same ∙ sym written,
      subst (λ (ns : List Text). IsKept ns r) (nets ∙ sym written)
          (subst (IsKept (new_allowed_ips env next l mesh)) end kept),
    )
