-- ===== src/Config.antt =====
-- internal/config/config.go: the settings of the edge and of the connector.
pub mod Prefixes
pub mod Examples
