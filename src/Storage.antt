-- ===== src/Storage.antt =====
-- src/storage.c and src/storage_db.c: what the writer thread puts on the card.
pub mod AtomicFile
pub mod Paths
pub mod Sql
pub mod MetaDb
pub mod EventDb
pub mod Retention
pub mod Writer
