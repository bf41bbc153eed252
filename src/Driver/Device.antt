-- ===== src/Driver/Device.antt =====
-- The device objects of driver/win0doom-display.c: the two kinds of extension, an IRP, and the
-- commands over one device that the dispatch routines are made of. What ntddk.h and kbdmou.h give
-- (status values, control codes, the size of a record, the answers of lower drivers) is `Wdk`.
use win0_doom.Shared.{ℕ, ◌<◌, ◌≡◌, List, [], ◌∷◌, ◌++◌, Option, none, some, Bool, true, false}
use win0_doom.Driver.Ring.{Ring}
use win0_doom.Driver.Frame.{Words}

pub record Wdk : Type 0 where
  pub record_bytes : ℕ
  pub record_bytes_pos : 0 < record_bytes
  pub connect_data_bytes : ℕ
  pub status_success : ℕ
  pub status_buffer_too_small : ℕ
  pub status_invalid_device_request : ℕ
  pub status_sharing_violation : ℕ
  pub status_invalid_parameter : ℕ
  pub irp_mj_create : ℕ
  pub irp_mn_remove_device : ℕ
  pub ctl_code : ℕ → ℕ → ℕ → ℕ → ℕ
  pub file_device_unknown : ℕ
  pub method_buffered : ℕ
  pub file_any_access : ℕ
  pub file_write_access : ℕ
  pub ioctl_internal_keyboard_connect : ℕ
  -- The status that the device below returns for an IRP.
  pub answer : (device irp : ℕ) → ℕ

abbrev pub ioctl_present : Wdk → ℕ
ioctl_present w = w.ctl_code w.file_device_unknown 0x800 w.method_buffered w.file_write_access

abbrev pub ioctl_get_keyboard : Wdk → ℕ
ioctl_get_keyboard w = w.ctl_code w.file_device_unknown 0x801 w.method_buffered w.file_any_access

-- A class service routine: the driver's own, or another driver's.
pub data Service : Type 0 where
  win0doom_callback : Service
  foreign : ℕ → Service

-- CONNECT_DATA; `none` is a null routine.
pub record ConnectData : Type 0 where
  pub class_device : ℕ
  pub class_service : Option Service

pub record ControlExtension (R : Type 0) : Type 0 where
  pub frame_buffer : Option Words
  pub keyboard : Ring R

pub record FilterExtension : Type 0 where
  pub lower_device : Option ℕ
  pub upper : ConnectData
  pub connected : Bool

-- The Kind word at the head of an extension is the constructor; `missing` is a null pointer,
-- or what is left of a device that is deleted.
pub data Extension (R : Type 0) : Type 0 where
  missing : Extension R
  control : ControlExtension R → Extension R
  filter : FilterExtension → Extension R

-- The calls of the kernel that a routine makes, in order.
pub data Call : Type 0 where
  complete_request : (status information : ℕ) → Call
  skip_stack_location : Call
  call_driver : ℕ → Call
  po_start_next : Call
  po_call_driver : ℕ → Call
  acquire_lock : Call
  release_lock : Call
  detach_device : ℕ → Call
  delete_device : ℕ → Call
  class_service : Service → (device begin end consumed : ℕ) → Call

pub record Irp : Type 0 where
  pub name : ℕ
  pub major : ℕ
  pub minor : ℕ
  pub code : ℕ
  pub input_length : ℕ
  pub output_length : ℕ
  pub system_buffer : Option Words

-- A device while a routine runs: its extension, the CONNECT_DATA that the IRP points to, the
-- records written to the IRP's buffer, and the calls made so far.
pub record World (R : Type 0) : Type 0 where
  pub device : ℕ
  pub extension : Extension R
  pub connect_data : Option ConnectData
  pub output : List R
  pub calls : List Call

-- A device when a routine is entered.
abbrev pub entered : {R : Type 0} → ℕ → Extension R → Option ConnectData → World R
entered device extension data_of_irp = record {
  device = device;
  extension = extension;
  connect_data = data_of_irp;
  output = [];
  calls = [];
}

-- `none` is a fault: a null or wrongly typed pointer is followed.
abbrev pub M : Type 0 → Type 0 → Type 0
M R A = World R → Option (A × World R)

module _ {R : Type 0} where
  abbrev pub pure : {A : Type 0} → A → M R A
  pure a w = some (a, w)

  infixl 5 ◌>>=◌ ◌>>◌
  abbrev pub ◌>>=◌ : {A B : Type 0} → M R A → (A → M R B) → M R B
  ◌>>=◌ m f w = elim (m w) [ none ↦ none | some (a, w') ↦ f a w' ]

  abbrev pub ◌>>◌ : {B : Type 0} → M R (Unit {0}) → M R B → M R B
  m >> k = m >>= λ _. k

  -- A command whose run is known, and what follows it.
  pub >>=-some :
      {A B : Type 0} (m : M R A) (f : A → M R B) {w w' : World R} {a : A}
      → m w ≡ some (a, w')
      → (m >>= f) w ≡ f a w'
  >>=-some m f e = rw (e, ◌>>=◌)

  abbrev pub fault : {A : Type 0} → M R A
  fault w = none

  abbrev pub call : Call → M R (Unit {0})
  call c w = some (tt, record w { calls = w.calls ++ c ∷ [] })

  -- The pointer casts: a routine reads the extension as the type that it expects.
  unfoldable pub control_extension : M R (ControlExtension R)
  control_extension w = elim w.extension [ control c ↦ some (c, w) | _ ↦ none ]

  unfoldable pub filter_extension : M R FilterExtension
  filter_extension w = elim w.extension [ filter f ↦ some (f, w) | _ ↦ none ]

  abbrev pub put_control : ControlExtension R → M R (Unit {0})
  put_control c w = some (tt, record w { extension = control c })

  abbrev pub put_filter : FilterExtension → M R (Unit {0})
  put_filter f w = some (tt, record w { extension = filter f })

  unfoldable pub non_null : {A : Type 0} → Option A → M R A
  non_null none = fault
  non_null (some a) = pure a

  unfoldable pub is_control_device : M R Bool
  is_control_device w = elim w.extension [ control c ↦ some (true, w) | _ ↦ some (false, w) ]

  -- Win0DoomCompleteIrp
  unfoldable pub complete_irp : ℕ → ℕ → M R ℕ
  complete_irp status information = do call (complete_request status information); pure status

  module _ (wdk : Wdk) (irp : Irp) where
    -- Win0DoomForwardIrp
    unfoldable pub forward_irp : M R ℕ
    unfolding filter_extension non_null
    forward_irp = do
      extension ← filter_extension
      call skip_stack_location
      lower ← non_null extension.lower_device
      call (call_driver lower)
      pure (wdk.answer lower irp.name)
