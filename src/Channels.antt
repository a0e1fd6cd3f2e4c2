-- ===== src/Channels.antt =====
-- services/core/app/adapters: the two channel adapters, and the servers of mocks/ that they talk to.
pub mod Json
pub mod Http
pub mod Rows
pub mod Marketplace
pub mod Bazar
