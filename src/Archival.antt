-- ===== src/Archival.antt =====
-- Archival of completed Turns: the ledger of archival records in the file storage
-- (erii/storage/file_storage.py), its leases, and the coordinator that works on it
-- (erii/core/archival.py).
pub mod Types
pub mod Tombstone
pub mod Store
pub mod Coordinator
pub mod World
pub mod Tests
