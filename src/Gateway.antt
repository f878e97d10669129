-- ===== src/Gateway.antt =====
-- gateway: the policy layer in front of the MCP servers.
pub mod Limits
pub mod Redact
pub mod Policy
pub mod Proxy
pub mod Manifest
pub mod Server
pub mod Sync
