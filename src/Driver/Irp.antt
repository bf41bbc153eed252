-- ===== src/Driver/Irp.antt =====
-- The dispatch routines of driver/win0doom-display.c, one for each IRP: Win0DoomCreateClose,
-- Win0DoomDeviceControl, Win0DoomInternalDeviceControl, Win0DoomPnp and Win0DoomPower.
pub mod Control
pub mod Filter
pub mod Once
pub mod Teardown
use win0_doom.Shared.{
  ℕ, List, [], ◌∷◌, ◌++◌, Option, none, some, Bool, true, false, ◌==◌, ltb, not, ◌||◌,
  if◌then◌else◌,
}
use win0_doom.Driver.Ring.{discard_records, drain_keyboard}
use win0_doom.Driver.Frame.{frame_bytes, Words, present}
use win0_doom.Driver.Device.{
  Wdk, missing, ioctl_present, ioctl_get_keyboard, win0doom_callback, ConnectData, Irp, M,
  skip_stack_location, call_driver, po_start_next, po_call_driver, acquire_lock, release_lock,
  detach_device, delete_device, pure, ◌>>=◌, ◌>>◌, call, control_extension, filter_extension,
  put_control, put_filter, non_null, is_control_device, complete_irp, forward_irp,
}

abbrev pub is_none {ℓ} : {A : Type ℓ} → Option A → Bool
is_none none = true
is_none (some a) = false

abbrev has_service : Option ConnectData → Bool
has_service none = false
has_service (some c) = not (is_none c.class_service)

module _ {R : Type 0} where
  -- The critical section of an IRP_MJ_CREATE.
  pub reset_keyboard : M R (Unit {0})
  unfolding control_extension
  reset_keyboard = do
    extension ← control_extension
    call acquire_lock
    put_control (record extension { keyboard = discard_records extension.keyboard })
    call release_lock

  abbrev write_output : List R → M R (Unit {0})
  write_output xs w = some (tt, record w { output = xs })

  -- Win0DoomDrainKeyboard on the extension, into the buffer of the IRP.
  pub drain_into_buffer : (record_bytes capacity : ℕ) → M R ℕ
  unfolding control_extension non_null
  drain_into_buffer record_bytes capacity = do
    extension ← control_extension
    call acquire_lock
    drained ← non_null (drain_keyboard record_bytes capacity extension.keyboard)
    put_control (record extension { keyboard = drained.ring })
    write_output drained.output
    call release_lock
    pure drained.written

  pub blit : Words → M R (Unit {0})
  unfolding control_extension non_null
  blit source = do
    extension ← control_extension
    buffer ← non_null extension.frame_buffer
    put_control (record extension { frame_buffer = some (present source buffer) })

  abbrev connect_data_of : M R (Option ConnectData)
  connect_data_of w = some (w.connect_data, w)

  -- The two writes through `connect_data`.
  abbrev substitute_callback : M R (Unit {0})
  substitute_callback w = some (
    tt,
    record w {
      connect_data =
          some (record { class_device = w.device; class_service = some win0doom_callback });
    },
  )

  -- IoDeleteDevice on the routine's own device, whose extension goes with it.
  abbrev remove_self : M R (Unit {0})
  remove_self w =
      some (tt, record w { extension = missing; calls = w.calls ++ delete_device w.device ∷ [] })

module _ {R : Type 0} (wdk : Wdk) (irp : Irp) where
  open wdk use {
    record_bytes, connect_data_bytes, status_success, status_buffer_too_small,
    status_invalid_device_request, status_sharing_violation, status_invalid_parameter,
    irp_mj_create, irp_mn_remove_device, ioctl_internal_keyboard_connect,
  }

  pub create_close : M R ℕ
  unfolding forward_irp is_control_device complete_irp reset_keyboard
  create_close = do
    ours ← is_control_device
    if not ours
        then forward_irp wdk irp
        else (if irp.major == irp_mj_create then reset_keyboard else pure tt)
          >> complete_irp status_success 0

  -- The branch of IOCTL_WIN0DOOM_GET_KEYBOARD.
  pub get_keyboard : M R ℕ
  unfolding complete_irp drain_into_buffer
  get_keyboard =
      if is_none irp.system_buffer || ltb irp.output_length record_bytes
      then complete_irp status_buffer_too_small 0
      else do
        written ← drain_into_buffer record_bytes irp.output_length
        complete_irp status_success written

  -- The branch of IOCTL_WIN0DOOM_PRESENT.
  pub present_frame : M R ℕ
  unfolding complete_irp blit non_null
  present_frame =
      if is_none irp.system_buffer || ltb irp.input_length frame_bytes
      then complete_irp status_buffer_too_small 0
      else do source ← non_null irp.system_buffer; blit source; complete_irp status_success 0

  unfoldable pub device_control : M R ℕ
  unfolding forward_irp is_control_device complete_irp
  device_control = do
    ours ← is_control_device
    if not ours
        then forward_irp wdk irp
        else if irp.code == ioctl_get_keyboard wdk
        then get_keyboard
        else if not (irp.code == ioctl_present wdk)
        then complete_irp status_invalid_device_request 0
        else present_frame

  -- The checks and the substitution of IOCTL_INTERNAL_KEYBOARD_CONNECT: the IRP's CONNECT_DATA is
  -- saved, and names this device and its callback from then on.
  pub connect : M R ℕ
  unfolding filter_extension complete_irp forward_irp non_null
  connect = do
    extension ← filter_extension
    if extension.connected
        then complete_irp status_sharing_violation 0
        else if ltb irp.input_length connect_data_bytes
        then complete_irp status_invalid_parameter 0
        else do
          given ← connect_data_of
          if not (has_service given) then complete_irp status_invalid_parameter 0 else do
            upper ← non_null given
            put_filter (record extension { upper = upper; connected = true })
            substitute_callback
            forward_irp wdk irp

  pub internal_device_control : M R ℕ
  unfolding is_control_device complete_irp connect forward_irp
  internal_device_control = do
    ours ← is_control_device
    if ours
        then complete_irp status_invalid_device_request 0
        else if irp.code == ioctl_internal_keyboard_connect
        then connect
        else forward_irp wdk irp

  pub pnp : M R ℕ
  unfolding is_control_device complete_irp forward_irp filter_extension non_null
  pnp = do
    ours ← is_control_device
    if ours
        then complete_irp status_invalid_device_request 0
        else if not (irp.minor == irp_mn_remove_device)
        then forward_irp wdk irp
        else do
          extension ← filter_extension
          call skip_stack_location
          lower ← non_null extension.lower_device
          call (call_driver lower)
          call (detach_device lower)
          remove_self
          pure (wdk.answer lower irp.name)

  pub power : M R ℕ
  unfolding is_control_device complete_irp filter_extension non_null
  power = do
    ours ← is_control_device
    if ours then complete_irp status_success 0 else do
      extension ← filter_extension
      call po_start_next
      call skip_stack_location
      lower ← non_null extension.lower_device
      call (po_call_driver lower)
      pure (wdk.answer lower irp.name)
