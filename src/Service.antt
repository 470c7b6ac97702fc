-- ===== src/Service.antt =====
-- backend/internal/agent-ingress.js: the pure parts of the service around the ingress rules: the
-- link that an agent is bound to, the VPN clients, what the check reports and the state of a rule
-- set. This file has the links of the WireGuard status, as the rest of the service sees them.
pub mod Binding
pub mod Clients
pub mod Reports
pub mod Applied
pub mod Files
use floppyguard.Base.{Bool, Option, List}
use floppyguard.Base.Text.{Text}

-- A link of the live status; `type_explicit` is `none` where the status does not say.
pub record StatusLink : Type 0 where
  pub id : Text
  pub name : Text
  pub type : Text
  pub type_explicit : Option Bool
  pub peer_public_key : Option Text
  pub interface_name : Text
  pub imported_networks : List Text
  pub exported_networks : List Text
  pub allowed_ips : List Text
  pub tunnel_addresses : List Text
  pub full_tunnel : Bool

-- A link of the metadata file.
pub record MetaLink : Type 0 where
  pub name : Text
  pub type : Text
  pub imported_networks : List Text
