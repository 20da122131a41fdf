-- ===== src/Serialization.antt =====
-- include/xmsigma/serialization: loads and stores of wire integers, and checksums.
pub mod ByteOrder
pub mod Checksum
mod Tests
