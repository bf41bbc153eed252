-- ===== src/Fixtures.antt =====
-- The data of the tests: the numbers of the WDK headers, a keyboard of two records, and devices.
pub mod Manager
use win0_doom.Shared.{
  ℕ, ◌/◌, ◌%◌, ◌≡◌, ◌+◌, ◌*◌, ◌^◌, refl, List, [], ◌∷◌, ◌++◌, none, some, true, false, arith,
  replicate,
}
use win0_doom.Driver.Ring.{Ring}
use win0_doom.Driver.Ring.Holds.{Holds}
use win0_doom.Driver.Frame.{Words}
use win0_doom.Client.Keys.{DoomKey, key_unknown, KeyboardApi}
use win0_doom.Driver.Device.{Wdk, ControlExtension, FilterExtension, ConnectData, foreign, Irp}

abbrev pub wdk : Wdk
wdk = record {
  record_bytes = 12;
  record_bytes_pos = omega arith;
  connect_data_bytes = 16;
  status_success = 0;
  status_buffer_too_small = 0xc0000023;
  status_invalid_device_request = 0xc0000010;
  status_sharing_violation = 0xc0000043;
  status_invalid_parameter = 0xc000000d;
  irp_mj_create = 0;
  irp_mn_remove_device = 2;
  ctl_code = λ device function method access.
      device * 2 ^ 16 + access * 2 ^ 14 + function * 2 ^ 2 + method;
  file_device_unknown = 0x22;
  method_buffered = 0;
  file_any_access = 0;
  file_write_access = 2;
  ioctl_internal_keyboard_connect = 0x000b0203;
  answer = λ device irp. 0;
}

-- A ring that goes round: its window starts in the last slot.
abbrev pub wrapped_ring : Ring ℕ
wrapped_ring = record {
  slots = 0x11e ∷ replicate 126 0 ++ 0x1e ∷ [];
  read_index = 127;
  write_index = 1;
}

abbrev pub two_records : List ℕ
two_records = 0x1e ∷ 0x11e ∷ []

pub wrapped_ring-Holds : Holds wrapped_ring two_records
wrapped_ring-Holds = record {
  sized = refl;
  read_in = omega arith;
  write_at = refl;
  fits = omega arith;
  window = (refl, (refl, tt));
}

-- The ring with no record.
abbrev pub empty_ring : Ring ℕ
empty_ring = record { slots = replicate 128 0; read_index = 0; write_index = 0 }

pub empty_ring-Holds : Holds empty_ring []
empty_ring-Holds = record {
  sized = refl;
  read_in = omega arith;
  write_at = refl;
  fits = omega arith;
  window = tt;
}

abbrev pub black : Words
black i = 0

abbrev pub ramp : Words
ramp i = i

abbrev pub display : ControlExtension ℕ
display = record { frame_buffer = some black; keyboard = wrapped_ring }

abbrev pub class_driver : ConnectData
class_driver = record { class_device = 7; class_service = some (foreign 3) }

abbrev pub fresh_filter : FilterExtension
fresh_filter = record {
  lower_device = some 5;
  upper = record { class_device = 0; class_service = none };
  connected = false;
}

abbrev pub connected_filter : FilterExtension
connected_filter = record { lower_device = some 5; upper = class_driver; connected = true }

-- An IRP with this control code or minor function.
abbrev pub request : ℕ → ℕ → Irp
request code minor = record {
  name = 1;
  major = 0;
  minor = minor;
  code = code;
  input_length = 256000;
  output_length = 384;
  system_buffer = some ramp;
}

-- A numbering of the keys that tells the unknown one from the others.
abbrev pub number_of : DoomKey → ℕ
number_of key_unknown = 0
number_of _ = 1

pub unknown_is_zero : (key : DoomKey) → number_of key ≡ number_of key_unknown → key ≡ key_unknown
unknown_is_zero key_unknown e = refl
unknown_is_zero _ e = absurd (omega arith)

-- A record as a number: the make code in the low byte, the flags above it.
abbrev pub keyboard : KeyboardApi ℕ
keyboard = record {
  record_bytes = 12;
  record_bytes_pos = omega arith;
  make_code = λ r. r % 256;
  flags = λ r. r / 256;
  key_number = number_of;
  unknown_alone = unknown_is_zero;
}
