-- ===== src/Keyboard.antt =====
-- A key from the driver's ring (driver/win0doom-display.c) to the engine (native/win0-doom.c): the
-- poll of the program, answered by the driver through the I/O manager, which is `CompletesBuffered`.

mod Tests
use win0_doom.Shared.{
  ℕ, ◌+◌, ◌*◌, ◌/◌, ◌^◌, ◌<◌, ◌≤◌, ◌≡◌, sym, ap, subst, ◌∙◌, List, [], ◌∷◌, ◌++◌, true, false,
  Option, some, arith, map, length, take, drop, length-take,
}
use win0_doom.Driver.Ring.{Ring}
use win0_doom.Driver.Ring.Holds.{Holds}
use win0_doom.Driver.Frame.{Words}
use win0_doom.Driver.Device.{
  Wdk, ioctl_get_keyboard, control, ioctl_present, ConnectData, ControlExtension, Call,
  complete_request, acquire_lock, release_lock, Irp, World, entered,
}
use win0_doom.Driver.Irp.{device_control}
use win0_doom.Driver.Irp.Control.{get_keyboard_serves}
use win0_doom.Client.File.{failed}
use win0_doom.Client.Keys.{
  KeyboardApi, IoctlResult, engine, get_keyboard, poll_keyboard, buffer_records, present_code,
  get_keyboard_code,
}
use win0_doom.Client.Keys.Dispatch.{events_in, poll_keyboard_delivers}

-- Buffered I/O, as documented: the caller gets the status and the information that the driver
-- completes the IRP with, and the records whose size the information is, at the start of its buffer.
pub record CompletesBuffered {R : Type 0} (record_bytes : ℕ) (io : World R → IoctlResult R)
    : Type 0 where
  pub reports :
      (w : World R) (before : List Call) (status information : ℕ)
      → w.calls ≡ before ++ complete_request status information ∷ []
      → ((io w).status ≡ status) × ((io w).information ≡ information)
  pub copies :
      (w : World R) (before : List Call) (status : ℕ)
      → w.calls ≡ before ++ complete_request status (length w.output * record_bytes) ∷ []
      → (rest : List R) × ((io w).buffer ≡ w.output ++ rest)

-- CTL_CODE and its arguments, as wdm.h documents them.
pub record HasCodes (wdk : Wdk) : Type 0 where
  pub layout :
      (device function method access : ℕ)
      → wdk.ctl_code device function method access
        ≡ device * 2 ^ 16 + access * 2 ^ 14 + function * 2 ^ 2 + method
  pub unknown : wdk.file_device_unknown ≡ 0x22
  pub buffered : wdk.method_buffered ≡ 0
  pub any_access : wdk.file_any_access ≡ 0
  pub write_access : wdk.file_write_access ≡ 2

-- The control codes that the program writes as numbers are those that the driver serves, given the
-- documented layout of CTL_CODE and the documented values of its arguments.
pub ioctl_codes_agree :
    (wdk : Wdk)
    → HasCodes wdk
    → (ioctl_get_keyboard wdk ≡ get_keyboard_code) × (ioctl_present wdk ≡ present_code)
ioctl_codes_agree wdk h = (
  omega (
    arith,
    h.layout wdk.file_device_unknown 0x801 wdk.method_buffered wdk.file_any_access,
    h.unknown,
    h.buffered,
    h.any_access,
  ),
  omega (
    arith,
    h.layout wdk.file_device_unknown 0x800 wdk.method_buffered wdk.file_write_access,
    h.unknown,
    h.buffered,
    h.write_access,
  ),
)

module _ {R : Type 0} (wdk : Wdk) (api : KeyboardApi R) (irp : Irp)
    (io : World R → IoctlResult R) where
  -- A poll that the driver answers while its ring holds q succeeds on both sides: the engine gets
  -- the events of the 32 oldest records of q, in order, and the ring keeps the others in order.
  -- Conditions: both sides agree on the size of a record, 32 records are less than 2^32 bytes,
  -- STATUS_SUCCESS is no failure, CTL_CODE is as documented, and the I/O manager completes buffered requests.
  pub poll_keyboard-device_control :
      (device : ℕ) (c : ControlExtension R) (cd : Option ConnectData) {q : List R} {buffer : Words}
      → api.record_bytes ≡ wdk.record_bytes
      → buffer_records * wdk.record_bytes < 2 ^ 32
      → failed wdk.status_success ≡ false
      → CompletesBuffered wdk.record_bytes io
      → HasCodes wdk
      → irp.code ≡ get_keyboard_code
      → irp.system_buffer ≡ some buffer
      → irp.output_length ≡ buffer_records * wdk.record_bytes
      → Holds c.keyboard q
      → (w : World R) × (k : Ring R) × (device_control wdk irp (entered device (control c) cd)
          ≡ some (wdk.status_success, w))
        × (poll_keyboard api true (λ capacity. io w)
            ≡ some (record {
              keyboard_available = true;
              calls =
                  get_keyboard (buffer_records * api.record_bytes)
                  ∷ map engine (events_in api (take 32 q));
            }))
        × (w.extension ≡ control (record c { keyboard = k }))
        × Holds k (drop 32 q)
  poll_keyboard-device_control device c cd {q} agree small fine completes coded asked buffered sized
        h =
      let roomy : wdk.record_bytes ≤ irp.output_length = omega arith in
      let fits : irp.output_length / wdk.record_bytes ≡ 32 = grind (arith, wdk.record_bytes_pos) in
      let asked' : irp.code ≡ ioctl_get_keyboard wdk =
        asked ∙ sym (ioctl_codes_agree wdk coded).0 in
      let (w, k, runs, copied, ext, left, called) =
        get_keyboard_serves wdk irp device c cd {q = q} (omega arith) asked' buffered roomy h in
      let out : w.output ≡ take 32 q = copied ∙ ap (λ n. take n q) fits in
      let few : length w.output ≤ buffer_records = omega (arith, ap length out, length-take 32 q) in
      let (status, information) =
        completes.reports w (acquire_lock ∷ release_lock ∷ []) _ _ called in
      let (rest, filled) = completes.copies w (acquire_lock ∷ release_lock ∷ []) _ called in
      (
        w,
        k,
        runs,
        subst
            (λ xs.
              poll_keyboard api true (λ capacity. io w)
              ≡ some (record {
                keyboard_available = true;
                calls =
                    get_keyboard (buffer_records * api.record_bytes)
                    ∷ map engine (events_in api xs);
              }))
            out
            (poll_keyboard_delivers api (λ capacity. io w) w.output rest (omega arith) few
              (ap failed status ∙ fine) (information ∙ ap (λ n. length w.output * n) (sym agree))
              filled),
        ext,
        subst (λ n. Holds k (drop n q)) fits left,
      )
