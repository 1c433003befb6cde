-- ===== src/Miner.antt =====
-- src/miner: the queues between the GPU and the CPU, the estimates of their rates, and the state of a
-- stratum connection.
mod Tests
pub mod Candidates
pub mod CyclicQueue
pub mod GpuRates
pub mod GpuRunner
pub mod JobQueue
pub mod NonceTracker
pub mod Rates
pub mod Stratum
pub mod Workers
