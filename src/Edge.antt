-- ===== src/Edge.antt =====
-- internal/edge: the public end of the bridge, which sends connections and datagrams to a connector.
pub mod Translation
pub mod Routes
pub mod Flows
pub mod Examples
