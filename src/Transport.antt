-- ===== src/Transport.antt =====
-- internal/transport: the carriers of the tunnel. `Kcp` has the tuning of the KCP carrier and
-- `Obfuscation` the stream cipher of the plain TCP carrier.
pub mod Kcp
pub mod KcpListener
pub mod Obfuscation
pub mod Choice
pub mod AsyncListener
pub mod WebSocket
