-- ===== src/Overlay.antt =====
-- internal/overlay: the frames that cross a peer connection, the set of ready workers, and the two
-- local ingress adapters that share it.
pub mod Adapter
pub mod Frame
pub mod Workers
pub mod Channel
pub mod UdpIngress
pub mod TcpIngress
mod Examples
