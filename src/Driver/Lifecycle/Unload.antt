-- ===== src/Driver/Lifecycle/Unload.antt =====
-- What devices hold, and the calls that obtain it and give it back.
use win0_doom.Shared.{
  ℕ, ◌+◌, ◌≡◌, refl, List, [], ◌∷◌, ◌++◌, Option, none, some, Bool, arith, ◌⊎◌, inl, inr,
  if◌then◌else◌, Bool-cases, Option-cases,
}
use win0_doom.Driver.Device.{Extension, missing, control, filter, ControlExtension, FilterExtension}
use win0_doom.Driver.Lifecycle.{
  Resource, device, mapping, attachment, symbolic_link, LifeCall, obtain, release, nt_success,
  EntryAnswers, driver_entry, AddAnswers, add_device, unload_device, unload_devices,
}
use win0_doom.Driver.Lifecycle.Balance.{obtained, released, zeroed_ring, zeroed_ring-Holds}
use win0_doom.Driver.Irp.Once.{IsReady}
use win0_doom.Driver.Ring.Holds.{Holds-IsValid}
use win0_doom.Driver.Frame.{display_bytes}

pub obtained-append :
    (p : Resource → Bool) (xs ys : List LifeCall)
    → obtained p (xs ++ ys) ≡ obtained p xs + obtained p ys
obtained-append p [] ys = omega arith
obtained-append p (obtain r ∷ xs) ys = omega (arith, obtained-append p xs ys)
obtained-append p (release r ∷ xs) ys = omega (arith, obtained-append p xs ys)

pub released-append :
    (p : Resource → Bool) (xs ys : List LifeCall)
    → released p (xs ++ ys) ≡ released p xs + released p ys
released-append p [] ys = omega arith
released-append p (obtain r ∷ xs) ys = omega (arith, released-append p xs ys)
released-append p (release r ∷ xs) ys = omega (arith, released-append p xs ys)

abbrev pub once : (Resource → Bool) → Resource → ℕ
once p r = if p r then 1 else 0

-- What an unload that does not fault gives back.
pub record Frees (p : Resource → Bool) (result : Option (List LifeCall)) (count : ℕ) : Type 0 where
  pub calls : List LifeCall
  pub runs : result ≡ some calls
  pub obtains : obtained p calls ≡ 0
  pub frees : released p calls ≡ count

module _ {R : Type 0} where
  abbrev pub with_filter :
      Option (ℕ × FilterExtension) → List (ℕ × Extension R) → List (ℕ × Extension R)
  with_filter none ds = ds
  with_filter (some (d, f)) ds = (d, filter f) ∷ ds

  -- How often a device, and how often these devices, hold a resource of a kind.
  abbrev pub owned : (Resource → Bool) → ℕ × Extension R → ℕ
  owned p (d, missing) = 0
  owned p (d, control c) =
      (elim c.frame_buffer [ none ↦ 0 | some words ↦ once p mapping ]) + once p (device d)
  owned p (d, filter f) =
      (elim f.lower_device [ none ↦ 0 | some lower ↦ once p (attachment lower) ])
      + once p (device d)

  abbrev pub held : (Resource → Bool) → List (ℕ × Extension R) → ℕ
  held p [] = 0
  held p (d ∷ ds) = owned p d + held p ds

  pub held-append :
      (p : Resource → Bool) (xs ys : List (ℕ × Extension R))
      → held p (xs ++ ys) ≡ held p xs + held p ys
  held-append p [] ys = omega arith
  held-append p (x ∷ xs) ys = omega (arith, held-append p xs ys)

  -- Each device has an extension.
  abbrev pub IsPresent : ℕ × Extension R → Type 0
  IsPresent (d, missing) = ⊥
  IsPresent (d, _) = Unit

  abbrev pub ArePresent : List (ℕ × Extension R) → Type 0
  ArePresent [] = Unit
  ArePresent (d ∷ ds) = IsPresent d × ArePresent ds

  unload_device-Frees :
      (p : Resource → Bool) (d : ℕ × Extension R)
      → IsPresent d
      → Frees p (unload_device d) (owned p d)
  unfolding unload_device
  unload_device-Frees p (d, missing) h = absurd h
  unload_device-Frees p (d, control c) h = elim (Option-cases c.frame_buffer) [
    | inl e ↦ record {
      calls = release (device d) ∷ [];
      runs = rw e refl;
      obtains = refl;
      frees = rw e (omega arith);
    }
    | inr (words, e) ↦ record {
      calls = release mapping ∷ release (device d) ∷ [];
      runs = rw e refl;
      obtains = refl;
      frees = rw e (omega arith);
    }
  ]
  unload_device-Frees p (d, filter f) h = elim (Option-cases f.lower_device) [
    | inl e ↦ record {
      calls = release (device d) ∷ [];
      runs = rw e refl;
      obtains = refl;
      frees = rw e (omega arith);
    }
    | inr (lower, e) ↦ record {
      calls = release (attachment lower) ∷ release (device d) ∷ [];
      runs = rw e refl;
      obtains = refl;
      frees = rw e (omega arith);
    }
  ]

  pub unload_devices-Frees :
      (p : Resource → Bool) (ds : List (ℕ × Extension R))
      → ArePresent ds
      → Frees p (unload_devices ds) (held p ds)
  unfolding unload_devices
  unload_devices-Frees p [] h = record { calls = []; runs = refl; obtains = refl; frees = refl }
  unload_devices-Frees p (d ∷ ds) (h, hs) =
      let first = unload_device-Frees p d h in
      let rest = unload_devices-Frees p ds hs in
      record {
        calls = first.calls ++ rest.calls;
        runs = rw (first.runs, unload_devices, rest.runs);
        obtains =
            omega (arith, obtained-append p first.calls rest.calls, first.obtains, rest.obtains);
        frees = omega (arith, released-append p first.calls rest.calls, first.frees, rest.frees);
      }

  -- One call of Win0DoomAddDevice obtains what its filter holds, beside what it gives back.
  pub add_device_holds :
      (p : Resource → Bool) (a : AddAnswers) (ds : List (ℕ × Extension R))
      → obtained p (add_device a).calls + held p ds
        ≡ released p (add_device a).calls + held p (with_filter (add_device a).filter_device ds)
  unfolding add_device
  add_device_holds p a ds = elim (Bool-cases (nt_success a.created.status)) [
    | inr bad ↦ rw bad refl
    | inl good ↦ elim (Option-cases a.attached) [
      | inl alone ↦ rw (good, alone) (omega arith)
      | inr ((lower, flags), e) ↦ rw (good, e) (omega arith)
    ]
  ]

  -- What DriverEntry leaves to give back.
  pub driver_entry_holds :
      (p : Resource → Bool) (k : EntryAnswers R)
      → (((driver_entry k).control_device ≡ none)
          × (obtained p (driver_entry k).calls ≡ released p (driver_entry k).calls))
        ⊎ ((d : ℕ) × (c : ControlExtension R) × ((driver_entry k).control_device ≡ some (d, c))
            × (obtained p (driver_entry k).calls
                ≡ released p (driver_entry k).calls + once p symbolic_link + owned p (d, control c))
            × IsReady (control c))
  unfolding driver_entry
  driver_entry_holds p k = elim (Bool-cases (nt_success k.created.status)) [
    | inr bad ↦ inl (ground arith)
    | inl good ↦ elim (Option-cases (k.map_io_space 0x80000000 display_bytes)) [
      | inl unmapped ↦ inl (ground arith)
      | inr (words, mapped) ↦ elim (Bool-cases (nt_success k.link_status)) [
        | inr bad ↦ inl (ground arith)
        | inl linked ↦ inr (
          k.created.device,
          record { frame_buffer = some words; keyboard = zeroed_ring k.zero_record },
          ground arith,
          rw (good, mapped, linked) (omega arith),
          ((words, refl), Holds-IsValid (zeroed_ring-Holds k.zero_record)),
        )
      ]
    ]
  ]
