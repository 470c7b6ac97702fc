-- ===== src/WireGuard.antt =====
-- backend/internal/wireguard.js and backend/internal/wireguard-plan.js: the metadata of interfaces
-- and links, the plan that changes it, and the renaming of links.
pub mod Renames
pub mod Networks
pub mod Metadata
pub mod Dump
pub mod Plan
pub mod Restore
