-- ===== src/Client.antt =====
-- native/win0-doom.c
pub mod Text
pub mod Path
pub mod File
pub mod Open
pub mod Keys
pub mod Main
pub mod Memory
mod Tests
