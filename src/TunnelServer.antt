-- ===== src/TunnelServer.antt =====
-- internal/tunnelserver/overlay_session.go: the server's end of a connection. `Handshake` answers the
-- client's hello, `ClientFrames` is the loop over the frames that follow, and `UdpEgress` carries
-- datagrams to the upstream address and back.
pub mod Handshake
pub mod ClientFrames
pub mod UdpEgress
pub mod TcpEgress
mod Examples
