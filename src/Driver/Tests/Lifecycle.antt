-- ===== src/Driver/Tests/Lifecycle.antt =====
-- The life of the driver with a kernel that grants what is asked.
use win0_doom.Shared.{
  ℕ, ◌≡◌, ◌⊎◌, refl, List, [], ◌∷◌, arith, Option, none, some, Bool, true, false,
}
use win0_doom.Fixtures.{wdk, request, ramp, black}
use win0_doom.Driver.Ring.Holds.{Holds}
use win0_doom.Driver.Device.{control, filter, ControlExtension, FilterExtension}
use win0_doom.Driver.Irp.Once.{
  IsReady, creates_or_closes, controls, internal_controls, plugs, powers,
}
use win0_doom.Driver.Lifecycle.{
  on_create, on_close, on_device_control, on_internal_device_control, on_pnp, on_power,
  major_function, adds_devices, unloads, Resource, device, LifeCall, nt_success, EntryAnswers,
  driver_entry, AddAnswers, add_device,
}
use win0_doom.Driver.Lifecycle.Balance.{obtained, released, driver_entry_lem, add_device_lem}
use win0_doom.Driver.Lifecycle.History.{
  DriverEvent, added, sent_to_control, sent_to_filter, called_back, life,
}
use win0_doom.Driver.Lifecycle.History.Life.{life_balances}

abbrev granting : EntryAnswers ℕ
granting = record {
  status_success = 0;
  status_insufficient_resources = 0xc000009a;
  zero_record = 0;
  created = record { status = 0; device = 1; flags = 0x80 };
  map_io_space = λ address bytes. some black;
  link_status = 0;
  do_buffered_io = 4;
  do_device_initializing = 0x80;
}

abbrev keyboard_added : Option (ℕ × ℕ) → AddAnswers
keyboard_added attached = record {
  status_success = 0;
  status_no_such_device = 0xc000000e;
  created = record { status = 0; device = 2; flags = 0x80 };
  attached = attached;
  inherited = 0x2014;
  do_device_initializing = 0x80;
}

-- Every device.
abbrev is_device : Resource → Bool
is_device (device d) = true
is_device _ = false

driver_entry_lem_example :
    ((c : ControlExtension ℕ) × ((driver_entry granting).status ≡ 0)
      × ((driver_entry granting).control_device ≡ some (1, c))
      × ((driver_entry granting).global ≡ some c)
      × ((driver_entry granting).registered
          ≡ major_function on_create creates_or_closes
            ∷ major_function on_close creates_or_closes
            ∷ major_function on_device_control controls
            ∷ major_function on_internal_device_control internal_controls
            ∷ major_function on_pnp plugs
            ∷ major_function on_power powers
            ∷ adds_devices
            ∷ unloads
            ∷ [])
      × IsReady (control c)
      × Holds c.keyboard [])
    ⊎ ((nt_success (driver_entry granting).status ≡ false)
        × ((driver_entry granting).control_device ≡ none)
        × ((driver_entry granting).global ≡ none)
        × ((driver_entry granting).registered ≡ [])
        × (obtained is_device (driver_entry granting).calls
            ≡ released is_device (driver_entry granting).calls))
driver_entry_lem_example = driver_entry_lem granting is_device refl

add_device_lem_example :
    ((f : FilterExtension) × ((add_device (keyboard_added none)).status ≡ 0)
      × ((add_device (keyboard_added none)).filter_device ≡ some (2, f))
      × (f.connected ≡ false)
      × IsReady {R = ℕ} (filter f))
    ⊎ ((nt_success (add_device (keyboard_added none)).status ≡ false)
        × ((add_device (keyboard_added none)).filter_device ≡ none)
        × (obtained is_device (add_device (keyboard_added none)).calls
            ≡ released is_device (add_device (keyboard_added none)).calls))
add_device_lem_example = add_device_lem ℕ (keyboard_added none) is_device refl

-- Two keyboards, of which the second is not attached, a key on the first, the open of the display,
-- and the removal of the first keyboard.
abbrev history : List (DriverEvent ℕ)
history =
    added (keyboard_added (some (9, 4)))
    ∷ added (keyboard_added none)
    ∷ called_back 2 ramp 10 12 0
    ∷ sent_to_control creates_or_closes (request 0 0) none
    ∷ sent_to_filter 2 plugs (record (request 0 0) { minor = wdk.irp_mn_remove_device }) none
    ∷ []

life_balances_example :
    (calls : List LifeCall) × (life ℕ wdk granting history ≡ some calls)
    × (obtained is_device calls ≡ released is_device calls)
life_balances_example =
    life_balances wdk granting history is_device (tt, (tt, (tt, (omega arith, (tt, tt)))))
