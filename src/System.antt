-- ===== src/System.antt =====
-- The program and the driver together: keys that are typed, and turns of the frame loop of
-- native/win0-doom.c whose ioctls driver/win0doom-display.c answers. What stands between them, the
-- I/O manager, is a parameter: `io` gives the caller the outcome of an IRP.
pub mod Turn
pub mod Plays
pub mod Launch
pub mod DisplayTest
mod Tests
use win0_doom.Shared.{
  ℕ, ◌*◌, List, [], ◌∷◌, ◌++◌, Option, none, some, Bool, true, false, if◌then◌else◌,
}
use win0_doom.Driver.Frame.{Words, frame_bytes}
use win0_doom.Driver.Device.{
  Wdk, Extension, missing, control, filter, ControlExtension, FilterExtension, Irp, World, entered,
}
use win0_doom.Driver.Irp.{create_close, device_control}
use win0_doom.Driver.Callback.{service_callback}
use win0_doom.Client.File.{failed}
use win0_doom.Client.Keys.{
  KeyboardApi, IoctlResult, buffer_records, present_code, get_keyboard_code,
}
use win0_doom.Client.Main.{MainCall, FrameAnswers, Run, frame, process_startup}

-- The control device's extension, and the program's keyboard_available.
pub record Machine (R : Type 0) : Type 0 where
  pub display : ControlExtension R
  pub keyboard_available : Bool

-- A keyboard callback with these records in memory, or a turn of the frame loop in which the
-- engine's framebuffer is `picture`.
pub data Happening (R : Type 0) : Type 0 where
  typed : (memory : ℕ → R) (begin end consumed : ℕ) → Happening R
  framed : (picture : Words) → Happening R

-- What a machine comes to: where it stands, the status that the program ended with, its calls.
pub record Outcome (R : Type 0) : Type 0 where
  pub machine : Machine R
  pub exited : Option ℕ
  pub calls : List MainCall

abbrev pub after : {R : Type 0} → List MainCall → Option (Outcome R) → Option (Outcome R)
after calls none = none
after calls (some o) = some (record o { calls = calls ++ o.calls })

abbrev pub display_of : {R : Type 0} → Extension R → Option (ControlExtension R)
display_of missing = none
display_of (control c) = some c
display_of (filter f) = none

module _ {R : Type 0} (wdk : Wdk) (api : KeyboardApi R) (io : World R → IoctlResult R) where
  module _ (device : ℕ) (base : Irp) (scratch : Words) where
    -- The IRPs of the program's ioctls: NtDeviceIoControlFile passes the code, the lengths, and for
    -- a present the frame. `base` is the rest of an IRP, `scratch` the buffer for the records.
    abbrev pub keyboard_irp : Irp
    keyboard_irp = record base {
      code = get_keyboard_code;
      input_length = 0;
      output_length = buffer_records * api.record_bytes;
      system_buffer = some scratch;
    }

    abbrev pub picture_irp : Words → Irp
    picture_irp picture = record base {
      code = present_code;
      input_length = 320 * 200 * 4;
      output_length = 0;
      system_buffer = some picture;
    }

    -- A device control of the program: what it gives the caller, and the device afterwards. `none`
    -- stands for a fault in the driver.
    pub ioctl : Irp → ControlExtension R → Option (IoctlResult R × ControlExtension R)
    ioctl irp c = elim (device_control wdk irp (entered device (control c) none)) [
      | none ↦ none
      | some (status, w) ↦ elim (display_of w.extension) [ none ↦ none | some c' ↦ some (io w, c') ]
    ]

    -- The ioctl of poll_keyboard, made while the keyboard is available.
    pub keyboard_ioctl : Machine R → Option (IoctlResult R × ControlExtension R)
    unfolding ioctl
    keyboard_ioctl m =
        if m.keyboard_available
        then ioctl keyboard_irp m.display
        else some (record { status = 0; information = 0; buffer = [] }, m.display)

    -- One turn of the frame loop.
    pub turn : Machine R → Words → Option (Outcome R)
    unfolding keyboard_ioctl
    turn m picture = elim (keyboard_ioctl m) [
      | none ↦ none
      | some (keys, polled) ↦ elim (ioctl (picture_irp picture) polled) [
        | none ↦ none
        | some (shown, drawn) ↦
            elim (frame api m.keyboard_available
              (record { ioctl = λ capacity. keys; present_status = shown.status })) [
                | none ↦ none
                | some r ↦ some (record {
                  machine = record { display = drawn; keyboard_available = r.keyboard_available };
                  exited = r.exited;
                  calls = r.calls;
                })
              ]
      ]
    ]

    module _ (f : FilterExtension) where
      -- The filter of the keyboard is `f`; g_ControlExtension points to the display.
      pub run_system : Machine R → List (Happening R) → Option (Outcome R)
      unfolding turn
      run_system m [] = some (record { machine = m; exited = none; calls = [] })
      run_system m (typed memory begin end consumed ∷ hs) =
          elim (service_callback memory (some m.display) f begin end consumed).global [
            | none ↦ none
            | some c ↦ run_system (record m { display = c }) hs
          ]
      run_system m (framed picture ∷ hs) = elim (turn m picture) [
        | none ↦ none
        | some o ↦ elim o.exited [
          | none ↦ after o.calls (run_system o.machine hs)
          | some status ↦ some o
        ]
      ]

      -- The frame loop after what NtProcessStartup does before it.
      pub started : ControlExtension R → Run → List (Happening R) → Option (Outcome R)
      unfolding run_system
      started c r hs =
          let m : Machine R = record { display = c; keyboard_available = r.keyboard_available } in
          elim r.exited [
            | none ↦ after r.calls (run_system m hs)
            | some status ↦ some (record { machine = m; exited = some status; calls = r.calls })
          ]

      -- From the start of the program: the open of the display, which the driver serves as an
      -- IRP_MJ_CREATE, the setup of the engine, and the frame loop.
      pub launch : ControlExtension R → List (Happening R) → Option (Outcome R)
      unfolding started
      launch c hs =
          elim (create_close wdk (record base { major = wdk.irp_mj_create })
            (entered device (control c) none)) [
              | none ↦ none
              | some (status, w) ↦ elim (display_of w.extension) [
                | none ↦ none
                | some c' ↦ elim (process_startup api (io w).status []) [
                  | none ↦ none
                  | some r ↦ started c' r hs
                ]
              ]
            ]
