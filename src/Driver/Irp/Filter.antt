-- ===== src/Driver/Irp/Filter.antt =====
-- IOCTL_INTERNAL_KEYBOARD_CONNECT on a keyboard filter, and what a removal does.
use win0_doom.Shared.{
  ℕ, ◌≡◌, ◌≤◌, ◌≢◌, refl, [], ◌∷◌, Option, some, true, false, arith, ◌==◌, Bool-cases, ◌⊎◌, inl,
  inr,
}
use win0_doom.Driver.Device.{
  missing, Wdk, Service, win0doom_callback, ConnectData, FilterExtension, filter, complete_request,
  skip_stack_location, call_driver, detach_device, delete_device, Irp, World, entered,
}
use win0_doom.Driver.Irp.{connect, internal_device_control, pnp}
use win0_doom.Driver.Device.{class_service}

module _ {R : Type 0} (wdk : Wdk) (irp : Irp) (device lower : ℕ) (f : FilterExtension) where
  -- A connect request of any length and data on the filter that an accepted first connect request
  -- leaves is refused with a sharing violation, and changes neither the filter nor its own data.
  pub connect_twice :
      (given : ConnectData) (s : Service) (irp' : Irp) (cd : Option ConnectData)
      → irp.code ≡ wdk.ioctl_internal_keyboard_connect
      → f.connected ≡ false
      → f.lower_device ≡ some lower
      → wdk.connect_data_bytes ≤ irp.input_length
      → given.class_service ≡ some s
      → irp'.code ≡ wdk.ioctl_internal_keyboard_connect
      → (w : World R) × (internal_device_control wdk irp (entered device (filter f) (some given))
          ≡ some (wdk.answer lower irp.name, w))
        × (internal_device_control wdk irp' (entered device w.extension cd)
            ≡ some (
              wdk.status_sharing_violation,
              record (entered device w.extension cd) {
                calls = complete_request wdk.status_sharing_violation 0 ∷ [];
              },
            ))
  unfolding internal_device_control connect
  connect_twice given s irp' cd asked fresh attached long named again = (
    record {
      device = device;
      extension = filter (record f { upper = given; connected = true });
      connect_data =
          some (record { class_device = device; class_service = some win0doom_callback });
      output = [];
      calls = skip_stack_location ∷ call_driver lower ∷ [];
    },
    ground arith,
    ground arith,
  )

  -- An attached filter passes every plug-and-play IRP down and returns the status from below; on
  -- IRP_MN_REMOVE_DEVICE it then detaches from the device below and deletes itself, in this order,
  -- and its extension is gone; on any other it keeps its extension and does nothing else.
  pub pnp_removes :
      (cd : Option ConnectData)
      → f.lower_device ≡ some lower
      → (w : World R) × (pnp wdk irp (entered device (filter f) cd)
          ≡ some (wdk.answer lower irp.name, w))
        × (((irp.minor ≡ wdk.irp_mn_remove_device)
              × (w.extension ≡ missing)
              × (w.calls
                  ≡ skip_stack_location
                    ∷ call_driver lower
                    ∷ detach_device lower
                    ∷ delete_device device
                    ∷ []))
            ⊎ ((irp.minor ≢ wdk.irp_mn_remove_device)
                × (w.extension ≡ filter f)
                × (w.calls ≡ skip_stack_location ∷ call_driver lower ∷ [])))
  unfolding pnp
  pnp_removes cd attached = elim (Bool-cases (irp.minor == wdk.irp_mn_remove_device)) [
    | inl e ↦ (
      record (entered device (filter f) cd) {
        extension = missing;
        calls =
            skip_stack_location
            ∷ call_driver lower
            ∷ detach_device lower
            ∷ delete_device device
            ∷ [];
      },
      ground arith,
      inl (ground arith, refl, refl),
    )
    | inr e ↦ (
      record (entered device (filter f) cd) {
        calls = skip_stack_location ∷ call_driver lower ∷ [];
      },
      ground arith,
      inr (λ same. absurd (ground arith), refl, refl),
    )
  ]
