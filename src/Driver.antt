-- ===== src/Driver.antt =====
-- driver/win0doom-display.c
pub mod Ring
pub mod Frame
pub mod Device
pub mod Irp
pub mod Callback
pub mod Lifecycle
mod Tests
