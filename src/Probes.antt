-- ===== src/Probes.antt =====
-- The small programs that try out what a native process may do: native/fb-test.c,
-- native/video-test.c, native/driver-display-test.c, native/input-probe.c and
-- native/engine-link-test.c.
pub mod Pattern
pub mod Status
pub mod Screens
pub mod Input
pub mod Link
mod Tests
