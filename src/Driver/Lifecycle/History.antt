-- ===== src/Driver/Lifecycle/History.antt =====
-- The driver over time: the control device of DriverEntry, the filters of Win0DoomAddDevice, newest
-- first, and any sequence of keyboards that are added, IRPs and keyboard callbacks.
pub mod Serves
pub mod Steps
pub mod Life
use win0_doom.Shared.{
  ℕ, List, [], ◌∷◌, ◌++◌, Option, none, some, Bool, true, false, ◌==◌, if◌then◌else◌,
}
use win0_doom.Driver.Device.{
  Wdk, Extension, control, filter, missing, ConnectData, ControlExtension, FilterExtension, Call,
  detach_device, delete_device, Irp, World, entered,
}
use win0_doom.Driver.Irp.Once.{Routine, dispatch}
use win0_doom.Driver.Callback.{service_callback}
use win0_doom.Driver.Lifecycle.{
  Resource, device, attachment, LifeCall, release, EntryAnswers, driver_entry, AddAnswers,
  add_device, unload,
}

-- g_ControlExtension points to `display`.
pub record DriverState (R : Type 0) : Type 0 where
  pub control_device : ℕ
  pub display : ControlExtension R
  pub filters : List (ℕ × FilterExtension)

-- An IRP for the control device or for a filter, and a callback on a filter, name the device.
pub data DriverEvent (R : Type 0) : Type 0 where
  added : AddAnswers → DriverEvent R
  sent_to_control : Routine → Irp → Option ConnectData → DriverEvent R
  sent_to_filter : (name : ℕ) → Routine → Irp → Option ConnectData → DriverEvent R
  called_back : (name : ℕ) → (memory : ℕ → R) → (begin end consumed : ℕ) → DriverEvent R

-- What a routine's calls give back.
pub life_calls : List Call → List LifeCall
life_calls [] = []
life_calls (detach_device lower ∷ calls) = release (attachment lower) ∷ life_calls calls
life_calls (delete_device d ∷ calls) = release (device d) ∷ life_calls calls
life_calls (_ ∷ calls) = life_calls calls

abbrev pub found : ℕ → List (ℕ × FilterExtension) → Option FilterExtension
found name [] = none
found name ((d, f) ∷ filters) = if d == name then some f else found name filters

module _ {R : Type 0} where
  -- DriverObject->DeviceObject and the devices behind it.
  abbrev pub filter_devices : List (ℕ × FilterExtension) → List (ℕ × Extension R)
  filter_devices [] = []
  filter_devices ((d, f) ∷ filters) = (d, filter f) ∷ filter_devices filters

  abbrev pub devices_of : DriverState R → List (ℕ × Extension R)
  devices_of s = filter_devices s.filters ++ (s.control_device, control s.display) ∷ []

module _ (R : Type 0) (wdk : Wdk) where
  -- The filter after an IRP; one that is deleted is in the list no more.
  pub served_filter :
      ℕ
      → Option (ℕ × World R)
      → List (ℕ × FilterExtension)
      → Option (List LifeCall × List (ℕ × FilterExtension))
  unfolding life_calls
  served_filter d none filters = none
  served_filter d (some (status, w)) filters = elim w.extension [
    | filter f ↦ some (life_calls w.calls, (d, f) ∷ filters)
    | missing ↦ some (life_calls w.calls, filters)
    | control c ↦ none
  ]

  -- No device has the name of a filter that is gone.
  pub send_to_filter :
      ℕ
      → Routine
      → Irp
      → Option ConnectData
      → List (ℕ × FilterExtension)
      → Option (List LifeCall × List (ℕ × FilterExtension))
  unfolding served_filter
  send_to_filter name routine irp cd [] = some ([], [])
  send_to_filter name routine irp cd ((d, f) ∷ filters) =
      let later = send_to_filter name routine irp cd filters in
      if d == name
      then served_filter d (dispatch {R = R} wdk irp routine (entered d (filter f) cd)) filters
      else elim later [ none ↦ none | some (calls, others) ↦ some (calls, (d, f) ∷ others) ]

  pub step : DriverEvent R → DriverState R → Option (List LifeCall × DriverState R)
  unfolding send_to_filter life_calls
  step (added a) s = some (
    (add_device a).calls,
    elim (add_device a).filter_device [ none ↦ s | some f ↦ record s { filters = f ∷ s.filters } ],
  )
  step (sent_to_control routine irp cd) s =
      elim (dispatch wdk irp routine (entered s.control_device (control s.display) cd)) [
        | none ↦ none
        | some (status, w) ↦ elim w.extension [
          | control c ↦ some (life_calls w.calls, record s { display = c })
          | _ ↦ none
        ]
      ]
  step (sent_to_filter name routine irp cd) s =
      elim (send_to_filter name routine irp cd s.filters) [
        | none ↦ none
        | some (calls, filters) ↦ some (calls, record s { filters = filters })
      ]
  step (called_back name memory begin end consumed) s = elim (found name s.filters) [
    | none ↦ some ([], s)
    | some f ↦ elim (service_callback memory (some s.display) f begin end consumed).global [
      | none ↦ none
      | some c ↦ some ([], record s { display = c })
    ]
  ]

  pub steps : List (DriverEvent R) → DriverState R → Option (List LifeCall × DriverState R)
  unfolding step
  steps [] s = some ([], s)
  steps (e ∷ es) s = elim (step e s) [
    | none ↦ none
    | some (calls, s') ↦ elim (steps es s') [
      | none ↦ none
      | some (more, last) ↦ some (calls ++ more, last)
    ]
  ]

  -- DriverEntry, the events, and, unless DriverEntry failed, Win0DoomUnload. `none` is a null or
  -- wrongly typed pointer followed.
  pub life : EntryAnswers R → List (DriverEvent R) → Option (List LifeCall)
  unfolding steps
  life k events = elim (driver_entry k).control_device [
    | none ↦ some (driver_entry k).calls
    | some (d, c) ↦ elim (steps events (record { control_device = d; display = c; filters = [] })) [
      | none ↦ none
      | some (calls, s) ↦ elim (unload (devices_of s)) [
        | none ↦ none
        | some last ↦ some ((driver_entry k).calls ++ (calls ++ last))
      ]
    ]
  ]
