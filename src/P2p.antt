-- ===== src/P2p.antt =====
-- src/p2p: the peers, how they find one another, and how a request travels along them.
pub mod Bootstrap
pub mod Client
pub mod Dht
pub mod Net
pub mod Network
pub mod ProviderCache
pub mod BlockSelection
pub mod Ping
pub mod Routing
pub mod Sequence
pub mod StreamClient
pub mod Types
pub mod Worker
