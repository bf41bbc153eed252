-- ===== src/Driver/Lifecycle.antt =====
-- DriverEntry, Win0DoomAddDevice and Win0DoomUnload of driver/win0doom-display.c: what they obtain
-- of the kernel, what they give back, and the extensions that they set up. What each kernel call
-- answers is `EntryAnswers` and `AddAnswers`. The driver object's list of devices is an argument of
-- the unload.
pub mod Balance
pub mod Unload
pub mod History
use Prim.Native.Nat.{bit_and, bit_or}
use win0_doom.Shared.{
  ℕ, ◌+◌, ◌-◌, ◌%◌, ◌^◌, List, [], ◌∷◌, ◌++◌, Option, none, some, Bool, true, false, not, ltb,
  replicate, if◌then◌else◌,
}
use win0_doom.Driver.Ring.{Ring, ring_size}
use win0_doom.Driver.Frame.{Words, display_bytes}
use win0_doom.Driver.Irp.Once.{
  Routine, creates_or_closes, controls, internal_controls, plugs, powers,
}
use win0_doom.Driver.Device.{
  Extension, missing, control, filter, ConnectData, ControlExtension, FilterExtension,
}

pub data Resource : Type 0 where
  device : ℕ → Resource
  mapping : Resource
  attachment : ℕ → Resource
  symbolic_link : Resource

-- IoCreateDevice, MmMapIoSpaceEx, IoAttachDeviceToDeviceStack, IoCreateSymbolicLink where they
-- succeed, and IoDeleteDevice, MmUnmapIoSpace, IoDetachDevice, IoDeleteSymbolicLink.
pub data LifeCall : Type 0 where
  obtain release : Resource → LifeCall

-- NT_SUCCESS
abbrev pub nt_success : ℕ → Bool
nt_success status = ltb (status % 2 ^ 32) (2 ^ 31)

pub record Created : Type 0 where
  pub status : ℕ
  pub device : ℕ
  pub flags : ℕ

-- `zero_record` is the record whose bytes are zero.
pub record EntryAnswers (R : Type 0) : Type 0 where
  pub status_success : ℕ
  pub status_insufficient_resources : ℕ
  pub zero_record : R
  pub created : Created
  pub map_io_space : (address bytes : ℕ) → Option Words
  pub link_status : ℕ
  pub do_buffered_io : ℕ
  pub do_device_initializing : ℕ

-- The entries of DriverObject->MajorFunction that DriverEntry sets, by the IRP_MJ_ codes, and the
-- two routines beside that table.
pub data MajorFunction : Type 0 where
  on_create on_close on_device_control on_internal_device_control on_pnp on_power : MajorFunction

pub data Registration : Type 0 where
  major_function : MajorFunction → Routine → Registration
  adds_devices unloads : Registration

-- What DriverEntry leaves: its status, the control device, its flags, g_ControlExtension, what it
-- registers with the driver object, in order, and the calls.
pub record Loaded (R : Type 0) : Type 0 where
  pub status : ℕ
  pub control_device : Option (ℕ × ControlExtension R)
  pub flags : ℕ
  pub global : Option (ControlExtension R)
  pub registered : List Registration
  pub calls : List LifeCall

-- flags &= ~mask, of ULONGs
abbrev pub without : ℕ → ℕ → ℕ
without flags mask = bit_and flags (2 ^ 32 - 1 - mask)

module _ {R : Type 0} (k : EntryAnswers R) where
  load_failed : ℕ → List LifeCall → Loaded R
  load_failed status calls = record {
    status = status;
    control_device = none;
    flags = 0;
    global = none;
    registered = [];
    calls = calls;
  }

  -- The extension after RtlZeroMemory, with the framebuffer mapped.
  zeroed_control : Words → ControlExtension R
  zeroed_control frame_buffer = record {
    frame_buffer = some frame_buffer;
    keyboard = record {
      slots = replicate ring_size k.zero_record;
      read_index = 0;
      write_index = 0;
    };
  }

  pub driver_entry : Loaded R
  unfolding load_failed zeroed_control
  driver_entry =
      let d = k.created.device in
      if not (nt_success k.created.status)
      then load_failed k.created.status []
      else elim (k.map_io_space 0x80000000 display_bytes) [
        | none ↦
            load_failed k.status_insufficient_resources
              (obtain (device d) ∷ release (device d) ∷ [])
        | some frame_buffer ↦
            if not (nt_success k.link_status)
            then load_failed k.link_status
                (obtain (device d) ∷ obtain mapping ∷ release mapping ∷ release (device d) ∷ [])
            else record {
              status = k.status_success;
              control_device = some (d, zeroed_control frame_buffer);
              flags = without (bit_or k.created.flags k.do_buffered_io) k.do_device_initializing;
              global = some (zeroed_control frame_buffer);
              registered =
                  major_function on_create creates_or_closes
                  ∷ major_function on_close creates_or_closes
                  ∷ major_function on_device_control controls
                  ∷ major_function on_internal_device_control internal_controls
                  ∷ major_function on_pnp plugs
                  ∷ major_function on_power powers
                  ∷ adds_devices
                  ∷ unloads
                  ∷ [];
              calls = obtain (device d) ∷ obtain mapping ∷ obtain symbolic_link ∷ [];
            }
      ]

-- `attached` is the device below and its flags, `inherited` the mask of the flags taken over.
pub record AddAnswers : Type 0 where
  pub status_success : ℕ
  pub status_no_such_device : ℕ
  pub created : Created
  pub attached : Option (ℕ × ℕ)
  pub inherited : ℕ
  pub do_device_initializing : ℕ

pub record Added : Type 0 where
  pub status : ℕ
  pub filter_device : Option (ℕ × FilterExtension)
  pub flags : ℕ
  pub calls : List LifeCall

module _ (k : AddAnswers) where
  zeroed_filter : ℕ → FilterExtension
  zeroed_filter lower = record {
    lower_device = some lower;
    upper = record { class_device = 0; class_service = none };
    connected = false;
  }

  pub add_device : Added
  unfolding zeroed_filter
  add_device =
      let d = k.created.device in
      if not (nt_success k.created.status)
      then record { status = k.created.status; filter_device = none; flags = 0; calls = [] }
      else elim k.attached [
        | none ↦ record {
          status = k.status_no_such_device;
          filter_device = none;
          flags = 0;
          calls = obtain (device d) ∷ release (device d) ∷ [];
        }
        | some (lower, lower_flags) ↦ record {
          status = k.status_success;
          filter_device = some (d, zeroed_filter lower);
          flags =
              without (bit_or k.created.flags (bit_and lower_flags k.inherited))
                k.do_device_initializing;
          calls = obtain (device d) ∷ obtain (attachment lower) ∷ [];
        }
      ]

module _ {R : Type 0} where
  -- The releases of one device; `none` is a null pointer followed.
  pub unload_device : ℕ × Extension R → Option (List LifeCall)
  unload_device (d, missing) = none
  unload_device (d, control c) = some (elim c.frame_buffer [
    | none ↦ release (device d) ∷ []
    | some words ↦ release mapping ∷ release (device d) ∷ []
  ])
  unload_device (d, filter f) = some (elim f.lower_device [
    | none ↦ release (device d) ∷ []
    | some lower ↦ release (attachment lower) ∷ release (device d) ∷ []
  ])

  -- while (device != NULL)
  pub unload_devices : List (ℕ × Extension R) → Option (List LifeCall)
  unload_devices [] = some []
  unload_devices (d ∷ ds) =
      let later = unload_devices ds in
      elim (unload_device d) [
        | none ↦ none
        | some calls ↦ elim later [ none ↦ none | some more ↦ some (calls ++ more) ]
      ]

  pub unload : List (ℕ × Extension R) → Option (List LifeCall)
  unfolding unload_devices unload_device
  unload devices = elim (unload_devices devices) [
    | none ↦ none
    | some calls ↦ some (release symbolic_link ∷ calls)
  ]
