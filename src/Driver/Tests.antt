-- ===== src/Driver/Tests.antt =====
-- The driver's theorems at concrete rings, devices and requests.
mod Lifecycle
use win0_doom.Shared.{
  ℕ, ◌+◌, ◌*◌, ◌/◌, ◌<◌, ◌≤◌, ◌%◌, ◌≡◌, ◌≢◌, refl, List, [], ◌∷◌, ◌++◌, none, some, arith, length,
  take, drop, last_n, ◌⊎◌, ◌^◌, ◌-◌,
}
use win0_doom.Fixtures.{
  wdk, wrapped_ring, two_records, wrapped_ring-Holds, black, ramp, display, class_driver,
  fresh_filter, connected_filter, request,
}
use win0_doom.Driver.Ring.{Ring, Drained, drain_keyboard}
use win0_doom.Driver.Ring.Holds.{Holds, Holds-IsValid}
use win0_doom.Driver.Ring.Drain.{drain_keyboard-take}
use win0_doom.Driver.Ring.Session.{
  Event, typed, opened, polled, run_ring, run_queue, run_ring_refines, opened_forgets,
}
use win0_doom.Driver.Frame.{
  Words, present, to_pixel, frame_width, display_width, display_height, display_bytes,
}
use win0_doom.Driver.Frame.Pixel.{to_pixel_channels}
use win0_doom.Driver.Frame.Scale.{present_scales, present_bounds, present_reads}
use win0_doom.Driver.Device.{
  missing, control, filter, World, entered, complete_request, skip_stack_location, call_driver,
  detach_device, delete_device, foreign, ControlExtension,
}
use win0_doom.Driver.Irp.{device_control, internal_device_control, pnp}
use win0_doom.Driver.Irp.Control.{get_keyboard_serves, present_draws, device_control_fails}
use win0_doom.Driver.Irp.Filter.{connect_twice, pnp_removes}
use win0_doom.Driver.Irp.Once.{Leaves, removes, controls, dispatch, dispositions, dispatch_disposes}
use win0_doom.Driver.Callback.{records_from, service_callback}
use win0_doom.Driver.Callback.Forward.{service_callback_forwards, service_callback_mirrors}

-- Two records are polled, one key is typed, the device is opened, another key is typed and polled.
abbrev session : List (Event ℕ)
session = polled 12 ∷ typed (5 ∷ []) ∷ opened ∷ typed (6 ∷ []) ∷ polled 384 ∷ []

run_queue-session : run_queue 12 two_records session ≡ (0x1e ∷ []) ∷ (6 ∷ []) ∷ []
unfolding run_queue
run_queue-session = refl

run_ring_refines_example :
    run_ring 12 wrapped_ring session ≡ some (run_queue 12 two_records session)
run_ring_refines_example =
    run_ring_refines 12 (omega arith) session two_records (omega arith, (omega arith, tt))
      wrapped_ring-Holds

drain_keyboard-take_example :
    (d : Drained ℕ) × (drain_keyboard 12 23 wrapped_ring ≡ some d)
    × (d.output ≡ take (23 / 12) two_records)
    × Holds d.ring (drop (23 / 12) two_records)
    × (d.written ≡ length d.output * 12)
    × (d.written ≤ 23)
drain_keyboard-take_example =
    drain_keyboard-take 12 23 (omega arith) two_records (omega arith) wrapped_ring-Holds

present_scales_example :
    present ramp black (799 * display_width + 1279)
    ≡ to_pixel (ramp (799 / 4 * frame_width + 1279 / 4))
present_scales_example = present_scales ramp black 1279 799 (omega arith) (omega arith)

-- A source that differs from `ramp` behind the frame.
abbrev other_ramp : Words
other_ramp i = i % 64000

present_reads_example : present ramp black 5 ≡ present other_ramp black 5
present_reads_example =
    present_reads ramp other_ramp black 256000 (omega arith) (λ i h. omega arith) 5

refused :
    device_control wdk (request 7 0) (entered 1 (control display) none)
    ≡ some (
      0xc0000010,
      record (entered 1 (control display) none) { calls = complete_request 0xc0000010 0 ∷ [] },
    )
unfolding device_control
refused = refl

device_control_fails_example :
    record (entered 1 (control display) none) { calls = complete_request 0xc0000010 0 ∷ [] }
    ≡ record (entered 1 (control display) none) { calls = complete_request 0xc0000010 0 ∷ [] }
device_control_fails_example =
    device_control_fails wdk (request 7 0) 1 display none 0xc0000010
      (record (entered 1 (control display) none) { calls = complete_request 0xc0000010 0 ∷ [] })
      refused (omega arith)

connect_twice_example :
    (w : World ℕ) × (internal_device_control wdk
        (request 0xb0203 0)
        (entered 1 (filter fresh_filter) (some class_driver))
      ≡ some (0, w))
    × (internal_device_control wdk (request 0xb0203 4) (entered 1 w.extension none)
        ≡ some (
          0xc0000043,
          record (entered 1 w.extension none) { calls = complete_request 0xc0000043 0 ∷ [] },
        ))
connect_twice_example =
    connect_twice wdk (request 0xb0203 0) 1 5 fresh_filter class_driver (foreign 3)
      (request 0xb0203 4) none refl refl refl (omega arith) refl refl

pnp_removes_example :
    (w : World ℕ) × (pnp wdk (request 0 2) (entered 1 (filter connected_filter) none) ≡ some (0, w))
    × ((((request 0 2).minor ≡ wdk.irp_mn_remove_device)
          × (w.extension ≡ missing)
          × (w.calls
              ≡ skip_stack_location ∷ call_driver 5 ∷ detach_device 5 ∷ delete_device 1 ∷ []))
        ⊎ (((request 0 2).minor ≢ wdk.irp_mn_remove_device)
            × (w.extension ≡ filter connected_filter)
            × (w.calls ≡ skip_stack_location ∷ call_driver 5 ∷ [])))
pnp_removes_example = pnp_removes wdk (request 0 2) 1 5 connected_filter none refl

dispatch_disposes_example :
    (status : ℕ) × (w : World ℕ) × (dispatch wdk
        (request 0x222004 0)
        controls
        (entered 1 (control display) none)
      ≡ some (status, w))
    × Leaves (removes wdk (request 0x222004 0) controls (control display)) w.extension
    × (dispositions wdk (request 0x222004 0) w.calls ≡ status ∷ [])
dispatch_disposes_example =
    dispatch_disposes ℕ wdk (request 0x222004 0) (omega arith) controls 1 (control display) none
      ((black, refl), Holds-IsValid wrapped_ring-Holds)

service_callback_mirrors_example :
    (c : ControlExtension ℕ) × ((service_callback ramp
        (some display)
        connected_filter
        10
        12
        99).global
      ≡ some c)
    × (c.frame_buffer ≡ some black)
    × Holds c.keyboard (last_n 127 (two_records ++ records_from ramp 10 (12 - 10)))
service_callback_mirrors_example =
    service_callback_mirrors ramp display connected_filter 10 12 99 wrapped_ring-Holds (omega arith)
