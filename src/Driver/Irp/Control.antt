-- ===== src/Driver/Irp/Control.antt =====
-- What an IRP sent to the control device does to the ring and to the framebuffer.
use win0_doom.Shared.{
  ℕ, ◌+◌, ◌<◌, ◌≤◌, ◌/◌, ◌*◌, ◌^◌, ◌≡◌, ◌≢◌, refl, List, [], ◌∷◌, Option, some, arith, length, take,
  drop, true, false, ◌==◌, ◌||◌, ltb, Bool-cases, ◌⊎◌, inl, inr,
}
use win0_doom.Driver.Ring.{Ring, Drained, discard_records, drain_keyboard}
use win0_doom.Driver.Ring.Holds.{Holds, discard_records-Holds}
use win0_doom.Driver.Ring.Drain.{drain_keyboard-take}
use win0_doom.Driver.Frame.{
  Words, frame_bytes, frame_width, display_width, display_height, to_pixel, present,
}
use win0_doom.Driver.Frame.Scale.{present_scales}
use win0_doom.Driver.Device.{
  Wdk, ioctl_present, ioctl_get_keyboard, control, ConnectData, ControlExtension, complete_request,
  acquire_lock, release_lock, Irp, World, entered, >>=-some, complete_irp,
}
use win0_doom.Driver.Irp.{
  create_close, get_keyboard, present_frame, device_control, drain_into_buffer, is_none, blit,
}

module _ {R : Type 0} where
  -- The drain of an IRP, from what the ring does.
  pub drain_into_buffer_lem :
      (record_bytes capacity device : ℕ) (c : ControlExtension R) (cd : Option ConnectData)
      (d : Drained R)
      → drain_keyboard record_bytes capacity c.keyboard ≡ some d
      → drain_into_buffer record_bytes capacity (entered device (control c) cd)
        ≡ some (
          d.written,
          record {
            device = device;
            extension = control (record c { keyboard = d.ring });
            connect_data = cd;
            output = d.output;
            calls = acquire_lock ∷ release_lock ∷ [];
          },
        )
  unfolding drain_into_buffer
  drain_into_buffer_lem record_bytes capacity device c cd d runs = rw runs

module _ {R : Type 0} (wdk : Wdk) (irp : Irp) where
  pub create_close_resets :
      (device : ℕ) (c : ControlExtension R) (cd : Option ConnectData) {q : List R}
      → Holds c.keyboard q
      → (w : World R) × (k : Ring R) × (create_close wdk irp (entered device (control c) cd)
          ≡ some (wdk.status_success, w))
        × (w.extension ≡ control (record c { keyboard = k }))
        × (((irp.major ≡ wdk.irp_mj_create)
              × Holds k []
              × (w.calls
                  ≡ acquire_lock ∷ release_lock ∷ complete_request wdk.status_success 0 ∷ []))
            ⊎ ((irp.major ≢ wdk.irp_mj_create)
                × (k ≡ c.keyboard)
                × (w.calls ≡ complete_request wdk.status_success 0 ∷ [])))
  unfolding create_close
  create_close_resets device c cd h =
      let opens : World R = record {
        device = device;
        extension = control (record c { keyboard = discard_records c.keyboard });
        connect_data = cd;
        output = [];
        calls = acquire_lock ∷ release_lock ∷ complete_request wdk.status_success 0 ∷ [];
      } in
      let closes : World R = record (entered device (control c) cd) {
        calls = complete_request wdk.status_success 0 ∷ [];
      } in
      elim (Bool-cases (irp.major == wdk.irp_mj_create)) [
        | inl e ↦ (
          opens,
          discard_records c.keyboard,
          rw e,
          refl,
          inl (ground arith, discard_records-Holds h, refl),
        )
        | inr e ↦
            (closes, c.keyboard, rw e, refl, inr (λ create. absurd (ground arith), refl, refl))
      ]

  -- The branch of IOCTL_WIN0DOOM_GET_KEYBOARD where the buffer takes a record.
  pub get_keyboard_lem :
      (device : ℕ) (c : ControlExtension R) (cd : Option ConnectData) (d : Drained R)
      → drain_keyboard wdk.record_bytes irp.output_length c.keyboard ≡ some d
      → (is_none irp.system_buffer || ltb irp.output_length wdk.record_bytes) ≡ false
      → get_keyboard wdk irp (entered device (control c) cd)
        ≡ some (
          wdk.status_success,
          record {
            device = device;
            extension = control (record c { keyboard = d.ring });
            connect_data = cd;
            output = d.output;
            calls =
                acquire_lock ∷ release_lock ∷ complete_request wdk.status_success d.written ∷ [];
          },
        )
  unfolding get_keyboard
  get_keyboard_lem device c cd d runs fits = rw fits (
      >>=-some (drain_into_buffer wdk.record_bytes irp.output_length)
        (λ written. complete_irp wdk.status_success written) {w = entered device (control c) cd}
        (drain_into_buffer_lem wdk.record_bytes irp.output_length device c cd d runs))

  module _ (device : ℕ) (c : ControlExtension R) (cd : Option ConnectData) where
    -- IOCTL_WIN0DOOM_GET_KEYBOARD with a buffer that takes a record and has a ULONG length
    -- succeeds: the buffer receives the oldest records held, as many whole ones as its length
    -- allows, IoStatus.Information is their size in bytes, the ring keeps the rest in order, and
    -- the lock is taken and given back.
    pub get_keyboard_serves :
        {q : List R} {buffer : Words}
        → irp.output_length < 2 ^ 32
        → irp.code ≡ ioctl_get_keyboard wdk
        → irp.system_buffer ≡ some buffer
        → wdk.record_bytes ≤ irp.output_length
        → Holds c.keyboard q
        → (w : World R) × (k : Ring R) × (device_control wdk irp (entered device (control c) cd)
            ≡ some (wdk.status_success, w))
          × (w.output ≡ take (irp.output_length / wdk.record_bytes) q)
          × (w.extension ≡ control (record c { keyboard = k }))
          × Holds k (drop (irp.output_length / wdk.record_bytes) q)
          × (w.calls
              ≡ acquire_lock
                ∷ release_lock
                ∷ complete_request wdk.status_success (length w.output * wdk.record_bytes)
                ∷ [])
    unfolding device_control
    get_keyboard_serves {q} is_ulong asked buffered roomy h =
        let (d, runs, copies, leaves, counts, fits) =
          drain_keyboard-take wdk.record_bytes irp.output_length is_ulong {r = c.keyboard} q
            wdk.record_bytes_pos h in
        let code : (irp.code == ioctl_get_keyboard wdk) ≡ true = ground arith in
        let room : (is_none irp.system_buffer || ltb irp.output_length wdk.record_bytes) ≡ false =
          ground arith in
        let w : World R = record {
          device = device;
          extension = control (record c { keyboard = d.ring });
          connect_data = cd;
          output = d.output;
          calls = acquire_lock ∷ release_lock ∷ complete_request wdk.status_success d.written ∷ [];
        } in
        (
          w,
          d.ring,
          rw code (get_keyboard_lem device c cd d runs room),
          copies,
          refl,
          leaves,
          rw counts,
        )

    -- The branch of IOCTL_WIN0DOOM_PRESENT where the frame has full length.
    pub present_frame_lem :
        {source screen : Words}
        → ioctl_present wdk ≢ ioctl_get_keyboard wdk
        → irp.code ≡ ioctl_present wdk
        → irp.system_buffer ≡ some source
        → frame_bytes ≤ irp.input_length
        → c.frame_buffer ≡ some screen
        → device_control wdk irp (entered device (control c) cd)
          ≡ some (
            wdk.status_success,
            record (entered device (control c) cd) {
              extension = control (record c { frame_buffer = some (present source screen) });
              calls = complete_request wdk.status_success 0 ∷ [];
            },
          )
    unfolding device_control present_frame
    present_frame_lem differ asked buffered long mapped =
        let code : (irp.code == ioctl_get_keyboard wdk) ≡ false = ground arith in
        let known : (irp.code == ioctl_present wdk) ≡ true = ground arith in
        let short : ltb irp.input_length frame_bytes ≡ false = ground arith in
        rw (code, known, buffered, short) (rw (mapped, blit))

    -- IOCTL_WIN0DOOM_PRESENT with a frame of full length succeeds, keeps the ring, and leaves a
    -- framebuffer that shows, at each place (x, y) of the display, the source pixel at
    -- (x / 4, y / 4), channels swapped.
    pub present_draws :
        {source screen : Words} (x y : ℕ)
        → ioctl_present wdk ≢ ioctl_get_keyboard wdk
        → irp.code ≡ ioctl_present wdk
        → irp.system_buffer ≡ some source
        → frame_bytes ≤ irp.input_length
        → c.frame_buffer ≡ some screen
        → x < display_width
        → y < display_height
        → (screen' : Words) × (device_control wdk irp (entered device (control c) cd)
            ≡ some (
              wdk.status_success,
              record (entered device (control c) cd) {
                extension = control (record c { frame_buffer = some screen' });
                calls = complete_request wdk.status_success 0 ∷ [];
              },
            ))
          × (screen' (y * display_width + x) ≡ to_pixel (source (y / 4 * frame_width + x / 4)))
    present_draws {source} {screen} x y differ asked buffered long mapped hx hy = (
      present source screen,
      present_frame_lem differ asked buffered long mapped,
      present_scales source screen x y hx hy,
    )

    -- A request on the control device that ends in another status than success changes neither the
    -- ring nor the framebuffer, hands out nothing, and is completed with zero bytes.
    pub device_control_fails :
        (status : ℕ) (w : World R)
        → device_control wdk irp (entered device (control c) cd) ≡ some (status, w)
        → status ≢ wdk.status_success
        → w ≡ record (entered device (control c) cd) { calls = complete_request status 0 ∷ [] }
    unfolding device_control get_keyboard present_frame drain_into_buffer
    device_control_fails status w e bad = ground arith
