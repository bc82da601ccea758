-- ===== src/Compute.antt =====
-- src/compute: what a worker computes with.
pub mod MemoryCache
pub mod Candle
pub mod Config
pub mod Rope
pub mod Shapes
pub mod Block
pub mod Engine
