-- ===== src/Storage.antt =====
-- libs/storage: objects under the digest of their bytes.
pub mod LocalFs
mod Tests
