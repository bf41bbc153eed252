-- ===== src/Lib.antt =====
-- win0_doom: a model of the keyboard and display driver and of the native program that runs the
-- PureDOOM engine on Windows runlevel 0, with the theorems that make them correct.
--
-- The program. native/win0-doom.c is a native process: it gives the engine files, output and keys
-- through NT system calls, and shows each frame by an ioctl. driver/win0doom-display.c is the kernel
-- driver behind the ioctls: its control device scales a frame into the framebuffer and hands out
-- keyboard records; its filter devices stand in the keyboard stack, where a callback put in place of
-- the class driver's mirrors every record into a ring and passes it on.
--
-- The files.
-- Shared: library names passed on, Boolean tests, lists over native numbers, signed integers, bit
--   fields, tables checked below a bound.
-- Driver/Ring: the ring fields of WIN0DOOM_CONTROL_EXTENSION, Win0DoomQueueKeyboardAtDpc's loop,
--   Win0DoomDrainKeyboard, and the reset of an open. Holds says which records a ring holds; Drain,
--   Queue and Session are about the operations and their sequences.
-- Driver/Frame: the loops of Win0DoomDeviceControl that scale a frame, and the channel swap.
-- Driver/Device and Driver/Irp: device extensions, an IRP, a state monad in which `none` is a
--   followed null pointer, and the five dispatch routines: Win0DoomCreateClose,
--   Win0DoomDeviceControl, Win0DoomInternalDeviceControl, Win0DoomPnp and Win0DoomPower.
-- Driver/Callback: Win0DoomKeyboardServiceCallback and Win0DoomQueueKeyboardAtDpc.
-- Driver/Lifecycle: DriverEntry, Win0DoomAddDevice and Win0DoomUnload; History is the driver from its
--   load to its unload, over keyboards that are added, IRPs and callbacks.
-- Client/Text: native_print, native_print_hex, and print_text and print_hex of
--   native/input-probe.c.
-- Client/Path and Client/Open: mode_has, ascii_path_to_native, data_prefixes, native_open with
--   the static data_prefix_index, native_close. Path/Whole describes a native path by its characters.
-- Client/File: native_read, native_write, native_seek, native_tell, native_eof.
-- Client/Keys: scan_code_to_doom, dispatch_keyboard_records, poll_keyboard.
-- Client/Memory: memset, memcpy and strlen over a memory of bytes, native_malloc and native_free,
--   native_gettime.
-- Client/Main: the start routine NtProcessStartup and its frame loop.
-- Keyboard: both sides of one poll, and the control codes.
-- System: the program and the driver together, from the start of the program over keys that are
--   typed and turns of the frame loop; System/DisplayTest is native/driver-display-test.c on the
--   driver.
-- Probes/Pattern, Probes/Status and Probes/Screens: the pictures, print_status and the start
--   routines of native/fb-test.c, native/video-test.c and native/driver-display-test.c.
-- Probes/Input: the start routine of native/input-probe.c.
-- Probes/Link: the callbacks and the start routine of native/engine-link-test.c.
-- Fixtures, and the modules called Tests: concrete data, and each theorem at one of them.
--
-- What is assumed. A KEYBOARD_INPUT_DATA is opaque to the driver, so its type is a parameter; `Wdk`
-- holds the numbers of the WDK headers and what the device below answers; `KeyboardApi` reads a
-- record's make code and flags and numbers the engine's keys; `NtOpen`, `NtRead`, `NtWrite` and the
-- ioctl of a poll are functions of what the code passes. `EntryAnswers`,
-- `AddAnswers` and `FrameAnswers` hold what the kernel, the I/O manager and the system answer to
-- DriverEntry, Win0DoomAddDevice and one frame. `ReadsDisk`, `EndsInRange`, `CompletesBuffered` and
-- `HasCodes` state documented behaviour of NT that a theorem needs, as its hypothesis.
--
-- Bounds and fuel. The ring has 128 slots and an index is a ULONG. Win0DoomDrainKeyboard gets 128
-- rounds: a ring holds at most 127 records, and each round but the last takes one away. The outer
-- loop of native_print gets one round more than the text has characters, for each round but the
-- last takes at least one away. The loop over prefixes counts down the prefixes left. The frame
-- loop, which has no end of its own, runs over a list of the answers of each frame, of any
-- length. ULONG arithmetic wraps at 2 ^ 32 and a file's LONGLONG position at 2 ^ 63; the offsets of the frame loops that stay far below it
-- are plain sums. The bodies that hold the spin lock are single steps, and their interleavings
-- are lists of events.
--
-- strlen and print_status take the text before its terminator; strlen runs on rounds, of which one
-- more than the length is enough, and `none` of print_status is a write behind its buffer. The
-- endless waits at the end of a test program are counted by `turns`.
--
-- Not modelled: native/hello.c and native/hello-wdk.c, which show one constant message each;
-- native_exit and native_getenv, of one call and of a constant; the engine (a submodule); build and
-- install scripts.
pub mod Shared
pub mod Driver
pub mod Client
pub mod Keyboard
pub mod Probes
pub mod System
pub mod Fixtures
