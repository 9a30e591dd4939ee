-- ===== src/Turn.antt =====
-- Conversation Turns: erii/models/turn.py, erii/core/turn_ledger.py and the Turn files of
-- erii/storage/file_storage.py.
pub mod Types
pub mod Lifecycle
pub mod Store
pub mod Ledger
pub mod Tests
