-- ===== src/Mifare.antt =====
-- Modules/RFID/MifareLite.cpp and MifareLite.h: the driver of the MFRC522 card reader behind the SPI
-- bus. A buffer is a list of its bytes. `none` is a copy of received bytes past a buffer's end.
pub mod Registers
pub mod Card
pub mod Checks
pub mod Accesses
mod Tests
unfoldable pub use Registers.*
unfoldable pub use Card.*
