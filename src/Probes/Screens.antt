-- ===== src/Probes/Screens.antt =====
-- NtProcessStartup of native/fb-test.c, native/video-test.c and native/driver-display-test.c. What the
-- calls answer is given; NtTerminateProcess does not return, and of the endless loop of waits at the
-- end `turns` are run. `none` stands for a message that overruns the buffer of print_status.
pub mod Ends
pub mod Video
use mathlib.Core.Option
use win0_doom.Shared.{
  ℕ, ◌+◌, ◌*◌, ◌%◌, ◌^◌, List, [], ◌∷◌, ◌++◌, Option, none, some, Bool, ltb, ◌==◌, ◌||◌,
  if◌then◌else◌, replicate,
}
use win0_doom.Driver.Frame.{Words}
use win0_doom.Client.Path.{codes}
use win0_doom.Client.File.{failed}
use win0_doom.Client.Keys.{present_code}
use win0_doom.Probes.Pattern.{fb_picture, video_picture, frame_picture}
use win0_doom.Probes.Status.{Line, print_status, video_print_status, display_print_status}

pub data ScreenCall : Type 0 where
  adjust_privilege : (privilege : ℕ) → ScreenCall
  open_section : (name : List ℕ) → ScreenCall
  map_view : (offset size : ℕ) → ScreenCall
  open_device : (name : List ℕ) → ScreenCall
  control_device : (code input_length : ℕ) → ScreenCall
  display : (line : List ℕ) → ScreenCall
  delay : (ticks : ℕ) → ScreenCall
  terminate : (status : ℕ) → ScreenCall

-- The status that the process ended with, the calls made, and the words drawn into
-- where the process has them: the framebuffer, or the frame.
pub record ScreenRun : Type 0 where
  pub exited : Option ℕ
  pub calls : List ScreenCall
  pub picture : Option Words

-- print_status(prefix, value); NtTerminateProcess(..., status);
pub give_up :
    (print_status : (prefix : List ℕ) → (status : ℕ) → Option Line)
    → List ScreenCall
    → (prefix : List ℕ) → (value status : ℕ) → Option Words
    → Option ScreenRun
give_up print_status before prefix value status picture =
    Option.map
      (λ line. record {
        exited = some status;
        calls = before ++ display line ∷ terminate status ∷ [];
        picture = picture;
      })
      (print_status prefix value)

-- for (;;) NtDelayExecution(FALSE, &delay);
abbrev pub stay : List ScreenCall → (turns : ℕ) → Words → ScreenRun
stay before turns picture = record {
  exited = none;
  calls = before ++ replicate turns (delay 10000000);
  picture = some picture;
}

-- The calls up to the open, and up to the map, of native/fb-test.c.
abbrev pub fb_opened : List ScreenCall
fb_opened =
    adjust_privilege 20 ∷ adjust_privilege 4 ∷ open_section (codes "\\Device\\PhysicalMemory") ∷ []

abbrev pub fb_mapped : List ScreenCall
fb_mapped = fb_opened ++ map_view 0x80000000 (16 * 1024 * 1024) ∷ []

-- native/fb-test.c, with the words that the view of the section maps.
pub fb_startup : (turns open_status map_status : ℕ) → Words → Option ScreenRun
unfolding give_up
fb_startup turns open_status map_status mapping =
    if failed open_status
    then give_up print_status fb_opened (codes "\r\nNtOpenSection failed: ") open_status open_status
        none
    else if failed map_status
    then give_up print_status fb_mapped (codes "\r\nNtMapViewOfSection failed: ") map_status
        map_status none
    else some (stay fb_mapped turns (fb_picture mapping))

-- VIDEO_MEMORY_INFORMATION, with the words at FrameBufferBase; `none` is a null FrameBufferBase.
pub record VideoMemoryInformation : Type 0 where
  pub frame_buffer : Option Words
  pub frame_buffer_length : ℕ

-- IOCTL_VIDEO_MAP_VIDEO_MEMORY
abbrev pub map_video_memory_code : ℕ
map_video_memory_code = 0x00230458

-- The calls of native/video-test.c; a VIDEO_MEMORY has eight bytes.
abbrev pub video_opened : List ScreenCall
video_opened = open_device (codes "\\Device\\Video0") ∷ []

abbrev pub video_mapped : List ScreenCall
video_mapped = video_opened ++ control_device map_video_memory_code 8 ∷ []

-- native/video-test.c
pub video_startup : (turns open_status map_status : ℕ) → VideoMemoryInformation → Option ScreenRun
unfolding give_up
video_startup turns open_status map_status memory =
    let too_small =
      give_up video_print_status video_mapped (codes "\r\nframebuffer too small, length: ")
        memory.frame_buffer_length 0xc0000023 memory.frame_buffer in
    if failed open_status
    then give_up video_print_status video_opened (codes "\r\nopen \\Device\\Video0 failed: ")
        open_status open_status none
    else if failed map_status
    then give_up video_print_status video_mapped (codes "\r\nmap video memory ioctl failed: ")
        map_status map_status none
    else elim memory.frame_buffer [
      | none ↦ too_small
      | some words ↦
          if ltb memory.frame_buffer_length (1280 * 800 * 4)
          then too_small
          else some (stay video_mapped turns (video_picture words))
    ]

-- The calls of native/driver-display-test.c.
abbrev pub display_opened : List ScreenCall
display_opened = open_device (codes "\\Device\\Win0DoomDisplay") ∷ []

abbrev pub display_presented : List ScreenCall
display_presented = display_opened ++ control_device present_code (320 * 200 * 4) ∷ []

-- native/driver-display-test.c. The status of the present depends on the frame passed.
pub display_startup :
    (turns open_status : ℕ) → (present : Words → ℕ) → (frame : Words) → Option ScreenRun
unfolding give_up
display_startup turns open_status present frame =
    let picture = frame_picture frame in
    if failed open_status
    then give_up display_print_status display_opened (codes "\r\nopen win0 doom display failed: ")
        open_status open_status (some frame)
    else if failed (present picture)
    then give_up display_print_status display_presented (codes "\r\npresent ioctl failed: ")
        (present picture) (present picture) (some picture)
    else some (stay display_presented turns picture)
