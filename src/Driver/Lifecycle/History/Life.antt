-- ===== src/Driver/Lifecycle/History/Life.antt =====
-- The driver from DriverEntry over any history to Win0DoomUnload.
use win0_doom.Shared.{ℕ, ◌≡◌, refl, List, [], ◌∷◌, ◌++◌, some, Bool, arith, inl, inr}
use win0_doom.Driver.Device.{Wdk, control, ControlExtension, FilterExtension}
use win0_doom.Driver.Lifecycle.{
  Resource, symbolic_link, LifeCall, release, EntryAnswers, driver_entry, unload,
}
use win0_doom.Driver.Lifecycle.Balance.{obtained, released}
use win0_doom.Driver.Lifecycle.Unload.{
  obtained-append, released-append, ArePresent, unload_devices-Frees, driver_entry_holds,
}
use win0_doom.Driver.Lifecycle.History.{
  DriverState, DriverEvent, added, sent_to_control, sent_to_filter, called_back, step, steps,
  filter_devices, devices_of, life,
}
use win0_doom.Driver.Lifecycle.History.Serves.{AreAttached}
use win0_doom.Driver.Lifecycle.History.Steps.{
  IsFit, Steps, added-Steps, control-Steps, filter-Steps, callback-Steps, IsUlong, AreUlongs,
}

module _ (R : Type 0) (wdk : Wdk) (p : Resource → Bool) where
  step-Steps :
      (e : DriverEvent R) (s : DriverState R)
      → IsUlong e
      → IsFit s
      → Steps R wdk p s (step R wdk e s)
  step-Steps (added a) s u fit = added-Steps R wdk p a s fit
  step-Steps (sent_to_control routine irp cd) s u fit = control-Steps R wdk p routine irp cd s u fit
  step-Steps (sent_to_filter name routine irp cd) s u fit =
      filter-Steps R wdk p name routine irp cd s fit
  step-Steps (called_back name memory begin end consumed) s u fit =
      callback-Steps R wdk p name memory begin end consumed s fit

  steps-Steps :
      (es : List (DriverEvent R)) (s : DriverState R)
      → AreUlongs es
      → IsFit s
      → Steps R wdk p s (steps R wdk es s)
  unfolding steps
  steps-Steps [] s u fit = record { calls = []; next = s; runs = refl; fit = fit; balance = refl }
  steps-Steps (e ∷ es) s (u, us) fit =
      let first = step-Steps e s u fit in
      let later = steps-Steps es first.next us first.fit in
      record {
        calls = first.calls ++ later.calls;
        next = later.next;
        runs = rw (steps, first.runs, later.runs) refl;
        fit = later.fit;
        balance = omega (
          arith,
          obtained-append p first.calls later.calls,
          released-append p first.calls later.calls,
          first.balance,
          later.balance,
        );
      }

devices_of-ArePresent :
    {R : Type 0} (d : ℕ) (c : ControlExtension R) (filters : List (ℕ × FilterExtension))
    → AreAttached filters
    → ArePresent (filter_devices filters ++ (d, control c) ∷ [])
devices_of-ArePresent d c [] h = (tt, tt)
devices_of-ArePresent d c (f ∷ filters) (here, h) = (tt, devices_of-ArePresent d c filters h)

-- From DriverEntry to the end of Win0DoomUnload, for all answers of the kernel and any sequence in
-- between of keyboards that are added, IRPs for any dispatch routine on any device, the removal of
-- filters among them, and keyboard callbacks: no routine follows a null pointer, and each resource (a
-- device, the framebuffer mapping, an attachment, the symbolic link) is given back as often as it is
-- obtained; `p` selects the resources that are counted. The output lengths of the IRPs are ULONGs.
pub life_balances :
    {R : Type 0} (wdk : Wdk) (k : EntryAnswers R) (events : List (DriverEvent R))
    (p : Resource → Bool)
    → AreUlongs events
    → (calls : List LifeCall) × (life R wdk k events ≡ some calls)
      × (obtained p calls ≡ released p calls)
unfolding life unload
life_balances {R} wdk k events p ulongs = elim (driver_entry_holds p k) [
  | inl (unloaded, even) ↦ ((driver_entry k).calls, rw (life, unloaded) refl, even)
  | inr (d, c, loaded, owes, ready) ↦
      let start : DriverState R = record { control_device = d; display = c; filters = [] } in
      let going = steps-Steps R wdk p events start ulongs (ready, tt) in
      let last = unload_devices-Frees p (devices_of going.next) (
        devices_of-ArePresent going.next.control_device going.next.display going.next.filters
          going.fit.1) in
      let closing = release symbolic_link ∷ last.calls in
      (
        (driver_entry k).calls ++ (going.calls ++ closing),
        rw (life, loaded, going.runs, unload, last.runs) refl,
        omega (
          arith,
          obtained-append p (driver_entry k).calls (going.calls ++ closing),
          released-append p (driver_entry k).calls (going.calls ++ closing),
          obtained-append p going.calls closing,
          released-append p going.calls closing,
          going.balance,
          last.obtains,
          last.frees,
          owes,
        ),
      )
]
