-- ===== src/Tests.antt =====
-- Tests of the definitions, and the theorems at concrete inputs.
pub mod Toy
mod Messages
mod Workers
mod Clients
mod Spans
mod Memory
mod Selection
mod Streams
mod Latency
mod Priority
mod Ranges
pub mod Compute
mod Started
mod Announced
mod Generated
mod Served
mod Shapes
mod Answers
mod Replies
mod Threads
mod Routes
mod Flat
