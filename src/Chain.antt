-- ===== src/Chain.antt =====
-- src/shared/src/block: difficulty targets, chain work, heights.
pub mod Target
pub mod CustomFloat
pub mod Digest
pub mod Worksum
mod Tests
pub mod Height
pub mod PinNonce
pub mod Messages
pub mod Body
