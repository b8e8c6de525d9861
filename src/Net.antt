-- ===== src/Net.antt =====
-- The bus between a master and its slaves: Modules/Net.
pub mod Types
pub mod Manager
pub mod Socket
