-- ===== src/Driver/Irp/Once.antt =====
-- Every dispatch routine disposes of its IRP exactly once: it completes it, or passes it down.
use win0_doom.Shared.{
  ℕ, ◌<◌, ◌^◌, ◌≡◌, refl, List, [], ◌∷◌, Option, none, some, Bool, true, false, ◌⊎◌, ◌&&◌, ◌==◌,
  ◌||◌, arith, ltb, Bool-cases, inl, inr,
}
use win0_doom.Driver.Ring.Holds.{IsValid, discard_records-IsValid}
use win0_doom.Driver.Ring.Drain.{drain_keyboard-IsValid}
use win0_doom.Driver.Frame.{Words}
use win0_doom.Driver.Device.{
  Wdk, Extension, control, filter, missing, ConnectData, ControlExtension, FilterExtension, Call,
  complete_request, call_driver, po_call_driver, Irp, World, M, entered,
}
use win0_doom.Driver.Irp.{
  create_close, get_keyboard, present_frame, device_control, connect, internal_device_control, pnp,
  power, is_none,
}
use win0_doom.Driver.Irp.Control.{get_keyboard_lem}

-- What DriverEntry and AddDevice establish: the framebuffer is mapped and the ring's indices are
-- in range, or the filter is attached to a device.
abbrev pub IsReady : {R : Type 0} → Extension R → Type 0
IsReady missing = ⊥
IsReady (control c) = ((b : Words) × (c.frame_buffer ≡ some b)) × IsValid c.keyboard
IsReady (filter f) = (l : ℕ) × (f.lower_device ≡ some l)

pub data Routine : Type 0 where
  creates_or_closes controls internal_controls plugs powers : Routine

-- DriverObject->MajorFunction
unfoldable pub dispatch : {R : Type 0} → Wdk → Irp → Routine → M R ℕ
unfolding create_close device_control internal_device_control pnp power
dispatch wdk irp creates_or_closes = create_close wdk irp
dispatch wdk irp controls = device_control wdk irp
dispatch wdk irp internal_controls = internal_device_control wdk irp
dispatch wdk irp plugs = pnp wdk irp
dispatch wdk irp powers = power wdk irp

-- Whether an IRP is the removal of a filter.
abbrev pub is_plugs : Routine → Bool
is_plugs plugs = true
is_plugs _ = false

abbrev pub removes : {R : Type 0} → Wdk → Irp → Routine → Extension R → Bool
removes wdk irp routine missing = false
removes wdk irp routine (control c) = false
removes wdk irp routine (filter f) = is_plugs routine && irp.minor == wdk.irp_mn_remove_device

-- A device that is removed is gone, and any other is fit for the next IRP.
abbrev pub Leaves : {R : Type 0} → (removed : Bool) → Extension R → Type 0
Leaves removed extension =
    ((removed ≡ false) × IsReady extension) ⊎ ((removed ≡ true) × (extension ≡ missing))

-- The statuses with which an IRP is completed or returned by the device below, by these calls.
abbrev pub dispositions : Wdk → Irp → List Call → List ℕ
dispositions wdk irp [] = []
dispositions wdk irp (complete_request status information ∷ cs) = status ∷ dispositions wdk irp cs
dispositions wdk irp (call_driver d ∷ cs) = wdk.answer d irp.name ∷ dispositions wdk irp cs
dispositions wdk irp (po_call_driver d ∷ cs) = wdk.answer d irp.name ∷ dispositions wdk irp cs
dispositions wdk irp (_ ∷ cs) = dispositions wdk irp cs

module _ (R : Type 0) (wdk : Wdk) (irp : Irp) (is_ulong : irp.output_length < 2 ^ 32) where
  abbrev Disposed : Bool → Option (ℕ × World R) → Type 0
  Disposed removed none = ⊥
  Disposed removed (some (status, w)) =
      Leaves removed w.extension × (dispositions wdk irp w.calls ≡ status ∷ [])

  Disposed-some :
      (removed : Bool) (o : Option (ℕ × World R))
      → Disposed removed o
      → (status : ℕ) × (w : World R) × (o ≡ some (status, w))
        × Leaves removed w.extension
        × (dispositions wdk irp w.calls ≡ status ∷ [])
  Disposed-some removed none d = absurd d
  Disposed-some removed (some (status, w)) d = (status, w, refl, d.0, d.1)

  filter_disposes :
      (routine : Routine) (device : ℕ) (f : FilterExtension) (cd : Option ConnectData)
      → IsReady {R = R} (filter f)
      → Disposed
          (removes {R = R} wdk irp routine (filter f))
          (dispatch wdk irp routine (entered device (filter f) cd))
  unfolding dispatch connect
  filter_disposes creates_or_closes device f cd (l, e) = rw e (inl (refl, (l, refl)), refl)
  filter_disposes controls device f cd (l, e) = rw e (inl (refl, (l, refl)), refl)
  filter_disposes internal_controls device f cd (l, e) = ground arith
  filter_disposes plugs device f cd (l, e) = ground arith
  filter_disposes powers device f cd (l, e) = rw e (inl (refl, (l, refl)), refl)

  get_keyboard_disposes :
      (device : ℕ) (c : ControlExtension R) (cd : Option ConnectData)
      → IsReady {R = R} (control c)
      → Disposed false (get_keyboard wdk irp (entered device (control c) cd))
  unfolding get_keyboard
  get_keyboard_disposes device c cd (mapped, v) =
      let (d, runs, v') =
        drain_keyboard-IsValid wdk.record_bytes irp.output_length is_ulong wdk.record_bytes_pos v in
      elim (Bool-cases (is_none irp.system_buffer || ltb irp.output_length wdk.record_bytes)) [
        | inl short ↦ rw short (inl (refl, (mapped, v)), refl)
        | inr fits ↦
            rw (get_keyboard_lem wdk irp device c cd d runs fits) (inl (refl, (mapped, v')), refl)
      ]

  control_disposes :
      (routine : Routine) (device : ℕ) (c : ControlExtension R) (cd : Option ConnectData)
      → IsReady {R = R} (control c)
      → Disposed false (dispatch wdk irp routine (entered device (control c) cd))
  unfolding dispatch present_frame
  control_disposes creates_or_closes device c cd r =
      ground (arith, discard_records-IsValid c.keyboard r.1)
  control_disposes controls device c cd r = ground (arith, get_keyboard_disposes device c cd r)
  control_disposes internal_controls device c cd r = (inl (refl, r), refl)
  control_disposes plugs device c cd r = (inl (refl, r), refl)
  control_disposes powers device c cd r = (inl (refl, r), refl)

  -- For each of the five dispatch routines and an IRP whose output length is a ULONG, on the
  -- control device with a mapped framebuffer and ring indices in range, or on a filter that is
  -- attached to a device: the routine follows no null pointer, disposes of its IRP exactly once (by
  -- completing it or by passing it down), returns the status of that, and leaves the device fit for
  -- the next IRP, unless the IRP is the removal of a filter, which leaves no device.
  pub dispatch_disposes :
      (routine : Routine) (device : ℕ) (extension : Extension R) (cd : Option ConnectData)
      → IsReady extension
      → (status : ℕ) × (w : World R) × (dispatch wdk irp routine (entered device extension cd)
          ≡ some (status, w))
        × Leaves (removes wdk irp routine extension) w.extension
        × (dispositions wdk irp w.calls ≡ status ∷ [])
  dispatch_disposes routine device missing cd r = absurd r
  dispatch_disposes routine device (control c) cd r =
      Disposed-some false _ (control_disposes routine device c cd r)
  dispatch_disposes routine device (filter f) cd r =
      Disposed-some _ _ (filter_disposes routine device f cd r)
