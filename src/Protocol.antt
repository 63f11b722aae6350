-- ===== src/Protocol.antt =====
-- internal/protocol: the control frames and the UDP datagrams between edge and connector.
pub mod Words
pub mod Datagram
pub mod Frame
pub mod Examples
