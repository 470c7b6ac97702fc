-- ===== src/AgentConfig.antt =====
-- backend/internal/agent.js: the config of an agent that the hub keeps: the networks that the agent
-- may reach, and the rewriting of its wg-quick config.
pub mod Sections
pub mod Endpoint
pub mod Hooks
pub mod Tunnel
pub mod Normalize
pub mod Reach
pub mod Sync
