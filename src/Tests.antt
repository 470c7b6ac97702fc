-- ===== src/Tests.antt =====
-- Runs of the code at concrete inputs, and the theorems at inputs that meet their conditions.
mod Addresses
mod Rules
mod Sites
mod Pairs
mod Scripts
mod Links
mod Catalog
mod Renames
mod Files
mod Service
mod WireGuard
mod AgentConfig
