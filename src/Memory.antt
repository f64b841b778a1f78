-- ===== src/Memory.antt =====
-- src/aries/memory/store.py: the replicated key-value store of a device.
pub mod Persist
pub mod Key
pub mod Acl
pub mod Entry
pub mod Log
pub mod Store
pub mod Writes
pub mod Sync
pub mod Valid
pub mod Service
pub mod Tests
