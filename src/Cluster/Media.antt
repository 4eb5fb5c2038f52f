-- ===== src/Cluster/Media.antt =====
-- internal/cluster/media_transport.go and media_conn.go: the datagrams between two media nodes, and
-- the sessions over which they travel.
pub mod Wire
pub mod Conn
pub mod Transport
mod Tests
