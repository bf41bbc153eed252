-- ===== src/Probes/Tests.antt =====
-- The test programs, at concrete answers.
use win0_doom.Shared.{
  ℕ, ◌*◌, ◌%◌, ◌^◌, ◌≤◌, ◌<◌, ◌≡◌, ◌⊎◌, [], ◌∷◌, ◌++◌, none, some, true, false, if◌then◌else◌, leb,
  length, arith,
}
use win0_doom.Fixtures.{ramp}
use win0_doom.Client.File.{failed}
use win0_doom.Client.Path.{codes}
use win0_doom.Client.Text.{print_hex_text}
use win0_doom.Probes.Status.{print_status}
use win0_doom.Probes.Status.Text.{print_status_lem}
use win0_doom.Probes.Screens.{ScreenRun, fb_startup, VideoMemoryInformation, video_startup}
use win0_doom.Probes.Screens.Ends.{GaveUp, Stays, fb_startup_ends}
use win0_doom.Probes.Screens.Video.{video_startup_ends}
use win0_doom.Probes.Input.{Pointer, Peb, ReadAnswer, address_of, parameters_of, input_startup}
use win0_doom.Probes.Input.Shown.{
  numbers_shown, system_calls, numbers, calls_for, AllFit, input_startup_shows,
}

print_status_lem_example : print_status (codes "failed: ") 0xc0000022 ≡ (
    if leb (length (codes "failed: ")) 83
    then some (codes "failed: " ++ print_hex_text (0xc0000022 % 2 ^ 32) ++ 13 ∷ 10 ∷ [])
    else none)
print_status_lem_example = print_status_lem (codes "failed: ") 0xc0000022

fb_startup_ends_example :
    (r : ScreenRun) × (fb_startup 2 0 0xc0000022 ramp ≡ some r)
    × (((failed 0 ≡ true) × GaveUp 0 0 none r)
        ⊎ ((failed 0 ≡ false) × (failed 0xc0000022 ≡ true) × GaveUp 0xc0000022 0xc0000022 none r)
        ⊎ ((failed 0 ≡ false) × (failed 0xc0000022 ≡ false) × Stays 5 6 (ramp 1024000) 1024000 r))
fb_startup_ends_example =
    fb_startup_ends 2 0 0xc0000022 ramp 5 6 1024000 (omega arith) (omega arith) (omega arith)

abbrev framebuffer : VideoMemoryInformation
framebuffer = record { frame_buffer = some ramp; frame_buffer_length = 4096000 }

abbrev null_framebuffer : VideoMemoryInformation
null_framebuffer = record { frame_buffer = none; frame_buffer_length = 4096000 }

video_startup_ends_example :
    (r : ScreenRun) × (video_startup 2 0 0 framebuffer ≡ some r)
    × (r0 : ScreenRun) × (video_startup 2 0 0 null_framebuffer ≡ some r0)
    × (((failed 0 ≡ true) × GaveUp 0 0 none r × GaveUp 0 0 none r0)
        ⊎ ((failed 0 ≡ false) × (failed 0 ≡ true) × GaveUp 0 0 none r × GaveUp 0 0 none r0)
        ⊎ ((failed 0 ≡ false)
            × (failed 0 ≡ false)
            × GaveUp 4096000 0xc0000023 none r0
            × (((4096000 < 1280 * 800 * 4) × GaveUp 4096000 0xc0000023 (some ramp) r)
                ⊎ ((1280 * 800 * 4 ≤ 4096000) × Stays 5 6 (ramp 1024000) 1024000 r))))
video_startup_ends_example =
    video_startup_ends 2 0 0 4096000 ramp 5 6 1024000 (omega arith) (omega arith) (omega arith)

abbrev probed : Pointer Peb
probed = record {
  address = 0x7ff000;
  target = record {
    process_parameters = some (record {
      address = 0x2a1040;
      target = record {
        console_handle = 0;
        standard_input = 8;
        standard_output = 12;
        standard_error = 16;
      };
    });
  };
}

abbrev one_key : (handle length : ℕ) → ReadAnswer
one_key handle length = record { status = 0; information = 1 }

numbers_fit : AllFit (
    address_of (some probed)
    ∷ address_of (parameters_of (some probed))
    ∷ numbers (parameters_of (some probed)) one_key)
numbers_fit = (
  omega arith,
  (
    omega arith,
    (omega arith, (omega arith, (omega arith, (omega arith, (omega arith, (omega arith, tt)))))),
  ),
)

input_startup_shows_example :
    (numbers_shown (input_startup (some probed) one_key)
      ≡ address_of (some probed)
        ∷ address_of (parameters_of (some probed))
        ∷ numbers (parameters_of (some probed)) one_key)
    × (system_calls (input_startup (some probed) one_key)
        ≡ calls_for (parameters_of (some probed)) one_key)
input_startup_shows_example = input_startup_shows (some probed) one_key numbers_fit
