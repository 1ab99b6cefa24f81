-- ===== src/Tests.antt =====
-- Test data, and the theorems at concrete inputs.
pub mod Data
mod StrikeRuns
mod Streams
mod Clients
mod Buses
mod States
mod Servers
mod Codecs
mod Deliveries
mod Shots
mod Plans
