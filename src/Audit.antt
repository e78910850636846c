-- ===== src/Audit.antt =====
-- libs/audit/src/landaudit: the hash-chained audit log, its Merkle root and its verification.
pub mod World
mod Tests
mod DigestTests
pub mod Chain
pub mod Merkle
pub mod Verify
pub mod Rollup
