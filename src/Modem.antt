-- ===== src/Modem.antt =====
-- Modules/GPRS/Sim900.cpp and Support/Modem/Modem.cpp: the modem behind its serial port.
pub mod Commands
pub mod Packets
pub mod Output
pub mod Matching
pub mod Waiting
pub mod Keeping
pub mod Sending
mod Tests
unfoldable pub use Commands.*
unfoldable pub use Packets.*
