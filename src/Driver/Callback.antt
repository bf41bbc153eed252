-- ===== src/Driver/Callback.antt =====
-- Win0DoomQueueKeyboardAtDpc and Win0DoomKeyboardServiceCallback of driver/win0doom-display.c. The
-- callback runs at dispatch level on a filter device, and reaches the ring by g_ControlExtension.
pub mod Forward
use win0_doom.Shared.{
  ℕ, zero, suc, ◌+◌, ◌-◌, ◌%◌, ◌^◌, List, [], ◌∷◌, ◌++◌, Option, none, some, leb, if◌then◌else◌,
}
use win0_doom.Driver.Ring.{queue_records}
use win0_doom.Driver.Device.{
  Service, ConnectData, ControlExtension, FilterExtension, Call, acquire_lock, release_lock,
  class_service,
}

-- The calls that a callback makes, beside what g_ControlExtension points to (`none` is null).
pub record AtDpc (R : Type 0) : Type 0 where
  pub global : Option (ControlExtension R)
  pub calls : List Call

module _ {R : Type 0} where
  pub queue_keyboard_at_dpc : Option (ControlExtension R) → List R → AtDpc R
  queue_keyboard_at_dpc none records = record { global = none; calls = [] }
  queue_keyboard_at_dpc (some c) records = record {
    global = some (record c { keyboard = queue_records c.keyboard records });
    calls = acquire_lock ∷ release_lock ∷ [];
  }

  module _ (memory : ℕ → R) where
    -- The records of an array of the class driver, from a pointer on. A pointer counts in records.
    pub records_from : ℕ → ℕ → List R
    records_from begin zero = []
    records_from begin (suc n) = memory begin ∷ records_from (begin + 1) n

    -- The three system arguments are `begin`, `end` and the class driver's count of consumed
    -- records; the count of records is cast to a ULONG.
    pub service_callback :
        Option (ControlExtension R) → FilterExtension → (begin end consumed : ℕ) → AtDpc R
    unfolding queue_keyboard_at_dpc
    service_callback global extension begin end consumed =
        let queued : AtDpc R =
          if leb begin end
          then queue_keyboard_at_dpc global (records_from begin ((end - begin) % 2 ^ 32))
          else record { global = global; calls = [] } in
        elim extension.upper.class_service [
          | none ↦ queued
          | some routine ↦ record queued {
            calls =
                queued.calls
                ++ class_service routine extension.upper.class_device begin end consumed ∷ [];
          }
        ]
