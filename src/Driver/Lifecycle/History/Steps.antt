-- ===== src/Driver/Lifecycle/History/Steps.antt =====
-- One event of the driver.
use win0_doom.Shared.{
  ℕ, ◌+◌, ◌-◌, ◌%◌, ◌<◌, ◌^◌, ◌≡◌, refl, ap, subst, ◌∙◌, sym, List, [], ◌∷◌, Option, none, some,
  Bool, false, arith, ◌⊎◌, inl, inr, Bool-cases, Option-cases, dec_le,
}
use win0_doom.Driver.Ring.{queue_records}
use win0_doom.Driver.Ring.Holds.{IsValid-Holds, Holds-IsValid}
use win0_doom.Driver.Ring.Queue.{queue_records-Holds}
use win0_doom.Driver.Device.{
  Wdk, Extension, control, ConnectData, ControlExtension, FilterExtension, Irp,
}
use mathlib.Core.Bool.{false≢true}
use win0_doom.Driver.Irp.Once.{Leaves, Routine, IsReady, dispatch_disposes}
use win0_doom.Driver.Irp.Teardown.{Controlled, dispatch-Controlled}
use win0_doom.Driver.Callback.{records_from, service_callback}
use win0_doom.Driver.Callback.Forward.{queued_global, skipped_global}
use win0_doom.Driver.Lifecycle.{
  Resource, device, mapping, LifeCall, nt_success, AddAnswers, add_device,
}
use win0_doom.Driver.Lifecycle.Balance.{obtained, released}
use win0_doom.Driver.Lifecycle.Unload.{once, with_filter, held, held-append, add_device_holds}
use win0_doom.Driver.Lifecycle.History.{
  DriverState, DriverEvent, added, sent_to_control, sent_to_filter, called_back, found, step,
  filter_devices, devices_of,
}
use win0_doom.Driver.Lifecycle.History.Serves.{
  life_calls-teardown, is_display-control, AreAttached, held_by, send_to_filter-Serves,
}

Leaves-IsReady : {R : Type 0} {x : Extension R} → Leaves false x → IsReady x
Leaves-IsReady (inl (stays, ready)) = ready
Leaves-IsReady (inr (gone, is)) = absurd (false≢true gone)

module _ {R : Type 0} where
  -- A display and filters that the routines can serve.
  abbrev pub IsFit : DriverState R → Type 0
  IsFit s = IsReady (control s.display) × AreAttached s.filters

  -- The output length of an IRP is a ULONG.
  abbrev pub IsUlong : DriverEvent R → Type 0
  IsUlong (sent_to_control routine irp cd) = irp.output_length < 2 ^ 32
  IsUlong _ = Unit

  abbrev pub AreUlongs : List (DriverEvent R) → Type 0
  AreUlongs [] = Unit
  AreUlongs (e ∷ es) = IsUlong e × AreUlongs es

module _ (R : Type 0) (wdk : Wdk) (p : Resource → Bool) where
  pub record Steps (s : DriverState R) (result : Option (List LifeCall × DriverState R))
      : Type 0 where
    pub calls : List LifeCall
    pub next : DriverState R
    pub runs : result ≡ some (calls, next)
    pub fit : IsFit next
    pub balance :
        obtained p calls + held p (devices_of s) ≡ released p calls + held p (devices_of next)

  pub held_devices :
      (s : DriverState R)
      → IsReady (control s.display)
      → held p (devices_of s)
        ≡ held_by R wdk p s.filters + once p mapping + once p (device s.control_device)
  held_devices s ((words, e), v) = rw (held-append, e) (omega arith)

  callback-IsReady :
      (c : ControlExtension R) (f : FilterExtension) (memory : ℕ → R) (begin end consumed : ℕ)
      → IsReady (control c)
      → (c' : ControlExtension R) × ((service_callback memory (some c) f begin end consumed).global
          ≡ some c')
        × IsReady (control c')
  callback-IsReady c f memory begin end consumed (mapped, v) = elim (dec_le begin end) [
    | yes order ↦
        let (q, h) = IsValid-Holds v in
        (
          record c {
            keyboard =
                queue_records c.keyboard (records_from memory begin ((end - begin) % 2 ^ 32));
          },
          queued_global memory c f begin end consumed order,
          (mapped, Holds-IsValid (queue_records-Holds _ q h)),
        )
    | no skipped ↦ (c, skipped_global memory c f begin end consumed (omega arith), (mapped, v))
  ]

  -- A filter that Win0DoomAddDevice leaves is attached.
  add_device-attached :
      (a : AddAnswers)
      → ((add_device a).filter_device ≡ none)
        ⊎ ((d : ℕ) × (lower : ℕ) × (f : FilterExtension) × ((add_device a).filter_device
              ≡ some (d, f))
            × (f.lower_device ≡ some lower))
  unfolding add_device
  add_device-attached a = elim (Bool-cases (nt_success a.created.status)) [
    | inr bad ↦ inl (ground arith)
    | inl good ↦ elim (Option-cases a.attached) [
      | inl alone ↦ inl (ground arith)
      | inr ((lower, flags), e) ↦ inr (
        a.created.device,
        lower,
        record {
          lower_device = some lower;
          upper = record { class_device = 0; class_service = none };
          connected = false;
        },
        rw (good, e) refl,
        refl,
      )
    ]
  ]

  added-balance :
      (a : AddAnswers) (s : DriverState R) {made : Option (ℕ × FilterExtension)}
      → (add_device a).filter_device ≡ made
      → obtained p (add_device a).calls + held p (devices_of s)
        ≡ released p (add_device a).calls + held p (with_filter made (devices_of s))
  added-balance a s e =
      subst
        (λ made.
          obtained p (add_device a).calls + held p (devices_of s)
          ≡ released p (add_device a).calls + held p (with_filter made (devices_of s)))
        e (add_device_holds p a (devices_of s))

  pub added-Steps :
      (a : AddAnswers) (s : DriverState R) → IsFit s → Steps s (step R wdk (added a) s)
  unfolding step
  added-Steps a s (ready, attached) = elim (add_device-attached a) [
    | inl failed ↦ record {
      calls = (add_device a).calls;
      next = s;
      runs = rw failed refl;
      fit = (ready, attached);
      balance = added-balance a s failed;
    }
    | inr (d, lower, f, made, e) ↦ record {
      calls = (add_device a).calls;
      next = record s { filters = (d, f) ∷ s.filters };
      runs = rw made refl;
      fit = (ready, ((lower, e), attached));
      balance = added-balance a s made;
    }
  ]

  -- A step that keeps the filters, and gives nothing back.
  display-balance :
      (s : DriverState R) (c : ControlExtension R)
      → IsReady (control s.display)
      → IsReady (control c)
      → 0 + held p (devices_of s) ≡ 0 + held p (devices_of (record s { display = c }))
  display-balance s c ready ready' =
      ap (λ n. 0 + n) (held_devices s ready ∙ sym (held_devices (record s { display = c }) ready'))

  pub control-Steps :
      (routine : Routine) (irp : Irp) (cd : Option ConnectData) (s : DriverState R)
      → irp.output_length < 2 ^ 32
      → IsFit s
      → Steps s (step R wdk (sent_to_control routine irp cd) s)
  unfolding step
  control-Steps routine irp cd s u (ready, attached) =
      let (status, w, runs, ready', once_disposed) =
        dispatch_disposes R wdk irp u routine s.control_device (control s.display) cd ready in
      let (displays, torn) =
        subst Controlled runs
          (dispatch-Controlled R wdk irp routine s.control_device s.display cd (rw runs tt)) in
      let (c, is) = is_display-control w.extension displays in
      let ready'' = subst IsReady is (Leaves-IsReady ready') in
      record {
        calls = [];
        next = record s { display = c };
        runs = rw (runs, step, is, life_calls-teardown w.calls, torn) refl;
        fit = (ready'', attached);
        balance = display-balance s c ready ready'';
      }

  pub filter-Steps :
      (name : ℕ) (routine : Routine) (irp : Irp) (cd : Option ConnectData) (s : DriverState R)
      → IsFit s
      → Steps s (step R wdk (sent_to_filter name routine irp cd) s)
  unfolding step
  filter-Steps name routine irp cd s (ready, attached) =
      let served = send_to_filter-Serves R wdk p name routine irp cd s.filters attached in
      let rest : List (ℕ × Extension R) = (s.control_device, control s.display) ∷ [] in
      record {
        calls = served.calls;
        next = record s { filters = served.left };
        runs = rw (step, served.runs) refl;
        fit = (ready, served.attached);
        balance = omega (
          arith,
          held-append p (filter_devices s.filters) rest,
          held-append p (filter_devices served.left) rest,
          served.obtains,
          served.frees,
        );
      }

  pub callback-Steps :
      (name : ℕ) (memory : ℕ → R) (begin end consumed : ℕ) (s : DriverState R)
      → IsFit s
      → Steps s (step R wdk (called_back name memory begin end consumed) s)
  unfolding step
  callback-Steps name memory begin end consumed s (ready, attached) =
      elim (Option-cases (found name s.filters)) [
        | inl gone ↦ record {
          calls = [];
          next = s;
          runs = rw (step, gone) refl;
          fit = (ready, attached);
          balance = refl;
        }
        | inr (f, here) ↦
            let (c, runs, ready') = callback-IsReady s.display f memory begin end consumed ready in
            record {
              calls = [];
              next = record s { display = c };
              runs = rw (step, here, runs) refl;
              fit = (ready', attached);
              balance = display-balance s c ready ready';
            }
      ]
