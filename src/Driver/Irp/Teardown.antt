-- ===== src/Driver/Irp/Teardown.antt =====
-- Which IRPs take a device down.
use win0_doom.Shared.{
  ℕ, ◌≡◌, refl, List, [], ◌∷◌, Option, none, some, Bool, true, false, arith, inl, ◌⊎◌,
}
use win0_doom.Driver.Device.{
  Wdk, Extension, missing, control, filter, ConnectData, ControlExtension, FilterExtension, Call,
  detach_device, delete_device, Irp, World, entered,
}
use win0_doom.Driver.Irp.{
  create_close, get_keyboard, present_frame, drain_into_buffer, device_control, connect,
  internal_device_control, pnp, power,
}
use win0_doom.Driver.Irp.Once.{
  Routine, creates_or_closes, controls, internal_controls, plugs, powers, dispatch,
}

-- The calls that detach and delete devices.
abbrev pub teardown : List Call → List Call
teardown [] = []
teardown (detach_device lower ∷ calls) = detach_device lower ∷ teardown calls
teardown (delete_device d ∷ calls) = delete_device d ∷ teardown calls
teardown (_ ∷ calls) = teardown calls

-- The device that a filter is attached to, and whether a device is the control device.
abbrev pub attached_to : {R : Type 0} → Extension R → Option ℕ
attached_to (filter f) = f.lower_device
attached_to _ = none

abbrev pub is_display : {R : Type 0} → Extension R → Bool
is_display (control c) = true
is_display _ = false

module _ {R : Type 0} where
  -- A filter stays and keeps its attachment, or it is detached and deleted.
  abbrev pub Filtered : ℕ → ℕ → Option (ℕ × World R) → Type 0
  Filtered d lower none = ⊥
  Filtered d lower (some (status, w)) =
      ((attached_to w.extension ≡ some lower) × (teardown w.calls ≡ []))
      ⊎ ((w.extension ≡ missing) × (teardown w.calls ≡ detach_device lower ∷ delete_device d ∷ []))

  abbrev pub Runs : Option (ℕ × World R) → Type 0
  Runs none = ⊥
  Runs (some r) = Unit

  abbrev pub Controlled : Option (ℕ × World R) → Type 0
  Controlled none = ⊥
  Controlled (some (status, w)) = (is_display w.extension ≡ true) × (teardown w.calls ≡ [])

module _ (R : Type 0) (wdk : Wdk) (irp : Irp) where
  pub dispatch-Filtered :
      (routine : Routine) (d lower : ℕ) (f : FilterExtension) (cd : Option ConnectData)
      → f.lower_device ≡ some lower
      → Filtered {R = R} d lower (dispatch wdk irp routine (entered d (filter f) cd))
  unfolding dispatch create_close device_control internal_device_control connect pnp power
  dispatch-Filtered creates_or_closes d lower f cd e = rw e (inl (refl, refl))
  dispatch-Filtered controls d lower f cd e = rw e (inl (refl, refl))
  dispatch-Filtered internal_controls d lower f cd e = ground arith
  dispatch-Filtered plugs d lower f cd e = ground arith
  dispatch-Filtered powers d lower f cd e = rw e (inl (refl, refl))

  pub dispatch-Controlled :
      (routine : Routine) (d : ℕ) (c : ControlExtension R) (cd : Option ConnectData)
      → Runs {R = R} (dispatch wdk irp routine (entered d (control c) cd))
      → Controlled {R = R} (dispatch wdk irp routine (entered d (control c) cd))
  unfolding dispatch create_close device_control internal_device_control get_keyboard present_frame
      pnp power drain_into_buffer
  dispatch-Controlled creates_or_closes d c cd e = ground arith
  dispatch-Controlled controls d c cd e = ground arith
  dispatch-Controlled internal_controls d c cd e = (refl, refl)
  dispatch-Controlled plugs d c cd e = (refl, refl)
  dispatch-Controlled powers d c cd e = (refl, refl)
