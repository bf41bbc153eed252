-- ===== src/Driver/Lifecycle/Balance.antt =====
-- What the life of the driver obtains, it gives back; and what it sets up is fit for the routines.
use win0_doom.Shared.{
  ℕ, ◌+◌, ◌≡◌, refl, List, [], ◌∷◌, none, some, Bool, false, arith, ◌⊎◌, inl, inr, if◌then◌else◌,
  Bool-cases, Option-cases, length-replicate, replicate,
}
use win0_doom.Driver.Ring.{Ring, ring_size}
use win0_doom.Driver.Ring.Holds.{Holds, Holds-IsValid}
use win0_doom.Driver.Frame.{display_bytes}
use win0_doom.Driver.Device.{control, filter, ControlExtension, FilterExtension}
use win0_doom.Driver.Irp.Once.{
  IsReady, creates_or_closes, controls, internal_controls, plugs, powers,
}
use win0_doom.Driver.Lifecycle.{
  on_create, on_close, on_device_control, on_internal_device_control, on_pnp, on_power,
  major_function, adds_devices, unloads, Resource, LifeCall, obtain, release, nt_success,
  EntryAnswers, driver_entry, AddAnswers, add_device,
}

-- How often a resource of a kind is obtained, and given back.
abbrev pub obtained : (Resource → Bool) → List LifeCall → ℕ
obtained p [] = 0
obtained p (obtain r ∷ calls) = (if p r then 1 else 0) + obtained p calls
obtained p (release r ∷ calls) = obtained p calls

abbrev pub released : (Resource → Bool) → List LifeCall → ℕ
released p [] = 0
released p (obtain r ∷ calls) = released p calls
released p (release r ∷ calls) = (if p r then 1 else 0) + released p calls

abbrev pub zeroed_ring : {R : Type 0} → R → Ring R
zeroed_ring z = record { slots = replicate ring_size z; read_index = 0; write_index = 0 }

pub zeroed_ring-Holds : {R : Type 0} (z : R) → Holds (zeroed_ring z) []
zeroed_ring-Holds z = record {
  sized = length-replicate ring_size z;
  read_in = omega arith;
  write_at = refl;
  fits = omega arith;
  window = tt;
}

-- For all answers of the kernel, and with STATUS_INSUFFICIENT_RESOURCES a failure: DriverEntry
-- succeeds, registers a routine for each of the six major functions, one to add a device and one to
-- unload, and leaves a control device that is fit for them, with an empty
-- ring, which g_ControlExtension points to; or it fails with no device left, registers nothing, and
-- has given back what it obtained, resource by resource.
pub driver_entry_lem :
    {R : Type 0} (k : EntryAnswers R) (p : Resource → Bool)
    → nt_success k.status_insufficient_resources ≡ false
    → ((c : ControlExtension R) × ((driver_entry k).status ≡ k.status_success)
        × ((driver_entry k).control_device ≡ some (k.created.device, c))
        × ((driver_entry k).global ≡ some c)
        × ((driver_entry k).registered
            ≡ major_function on_create creates_or_closes
              ∷ major_function on_close creates_or_closes
              ∷ major_function on_device_control controls
              ∷ major_function on_internal_device_control internal_controls
              ∷ major_function on_pnp plugs
              ∷ major_function on_power powers
              ∷ adds_devices
              ∷ unloads
              ∷ [])
        × IsReady (control c)
        × Holds c.keyboard [])
      ⊎ ((nt_success (driver_entry k).status ≡ false)
          × ((driver_entry k).control_device ≡ none)
          × ((driver_entry k).global ≡ none)
          × ((driver_entry k).registered ≡ [])
          × (obtained p (driver_entry k).calls ≡ released p (driver_entry k).calls))
unfolding driver_entry
driver_entry_lem k p fails = elim (Bool-cases (nt_success k.created.status)) [
  | inr bad ↦ inr (ground arith)
  | inl good ↦ elim (Option-cases (k.map_io_space 0x80000000 display_bytes)) [
    | inl unmapped ↦ inr (ground arith)
    | inr (words, mapped) ↦ elim (Bool-cases (nt_success k.link_status)) [
      | inr bad ↦ inr (ground arith)
      | inl linked ↦ inl (
        record { frame_buffer = some words; keyboard = zeroed_ring k.zero_record },
        ground arith,
        ground arith,
        ground arith,
        ground arith,
        ((words, refl), Holds-IsValid (zeroed_ring-Holds k.zero_record)),
        zeroed_ring-Holds k.zero_record,
      )
    ]
  ]
]

-- For all answers of the kernel, and with STATUS_NO_SUCH_DEVICE a failure: Win0DoomAddDevice
-- succeeds and leaves a filter, attached and not connected, that is fit for the routines; or it
-- fails with no device left and has given back what it obtained, resource by resource.
pub add_device_lem :
    (R : Type 0) (k : AddAnswers) (p : Resource → Bool)
    → nt_success k.status_no_such_device ≡ false
    → ((f : FilterExtension) × ((add_device k).status ≡ k.status_success)
        × ((add_device k).filter_device ≡ some (k.created.device, f))
        × (f.connected ≡ false)
        × IsReady {R = R} (filter f))
      ⊎ ((nt_success (add_device k).status ≡ false)
          × ((add_device k).filter_device ≡ none)
          × (obtained p (add_device k).calls ≡ released p (add_device k).calls))
unfolding add_device
add_device_lem R k p fails = elim (Bool-cases (nt_success k.created.status)) [
  | inr bad ↦ inr (ground arith)
  | inl good ↦ elim (Option-cases k.attached) [
    | inl alone ↦ inr (ground arith)
    | inr ((lower, flags), e) ↦ inl (
      record {
        lower_device = some lower;
        upper = record { class_device = 0; class_service = none };
        connected = false;
      },
      ground arith,
      ground arith,
      refl,
      (lower, refl),
    )
  ]
]
