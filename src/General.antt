-- ===== src/General.antt =====
-- src/shared/src/general: byte order, serialization, amounts.
mod Tests
pub mod ByteOrder
pub mod Decimal
pub mod Funds
pub mod CompactUint
pub mod Hex
pub mod Reader
pub mod Writer
