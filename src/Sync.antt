-- ===== src/Sync.antt =====
-- services/core/app/sync: what the hub shows to its channels.
pub mod Canonical
pub mod Guard
pub mod Dispatcher
pub mod PosIngest
pub mod Reconcile
