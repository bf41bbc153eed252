-- ===== src/Driver/Lifecycle/History/Serves.antt =====
-- An IRP for a filter, and what the filters hold afterwards.
use win0_doom.Shared.{
  ℕ, ◌+◌, ◌≡◌, refl, ap, List, [], ◌∷◌, Option, none, some, Bool, true, arith, inl, inr, Bool-cases,
  ◌==◌,
}
use win0_doom.Driver.Device.{
  Wdk, Extension, missing, control, filter, ConnectData, ControlExtension, FilterExtension, Call,
  detach_device, delete_device, Irp, World,
}
use win0_doom.Driver.Irp.Once.{Routine}
use win0_doom.Driver.Irp.Teardown.{teardown, attached_to, is_display, Filtered, dispatch-Filtered}
use win0_doom.Driver.Lifecycle.{Resource, device, attachment, LifeCall, release}
use win0_doom.Driver.Lifecycle.Balance.{obtained, released}
use win0_doom.Driver.Lifecycle.Unload.{held}
use win0_doom.Driver.Lifecycle.History.{life_calls, served_filter, send_to_filter, filter_devices}

pub life_calls-teardown : (calls : List Call) → life_calls calls ≡ life_calls (teardown calls)
unfolding life_calls
life_calls-teardown [] = refl
life_calls-teardown (detach_device lower ∷ calls) =
    ap (λ xs. release (attachment lower) ∷ xs) (life_calls-teardown calls)
life_calls-teardown (delete_device d ∷ calls) =
    ap (λ xs. release (device d) ∷ xs) (life_calls-teardown calls)
life_calls-teardown (_ ∷ calls) = life_calls-teardown calls

abbrev pub AreAttached : List (ℕ × FilterExtension) → Type 0
AreAttached [] = Unit
AreAttached ((d, f) ∷ filters) = ((lower : ℕ) × (f.lower_device ≡ some lower)) × AreAttached filters

attached-filter :
    {R : Type 0} (x : Extension R) (lower : ℕ)
    → attached_to x ≡ some lower
    → (f : FilterExtension) × (x ≡ filter f) × (f.lower_device ≡ some lower)
attached-filter missing lower e = ground arith
attached-filter (control c) lower e = ground arith
attached-filter (filter f) lower e = (f, refl, e)

pub is_display-control :
    {R : Type 0} (x : Extension R)
    → is_display x ≡ true
    → (c : ControlExtension R) × (x ≡ control c)
is_display-control missing e = ground arith
is_display-control (control c) e = (c, refl)
is_display-control (filter f) e = ground arith

module _ (R : Type 0) (wdk : Wdk) (p : Resource → Bool) where
  -- What the filters hold.
  abbrev pub held_by : List (ℕ × FilterExtension) → ℕ
  held_by filters = held {R = R} p (filter_devices filters)

  pub record Serves (filters : List (ℕ × FilterExtension))
      (result : Option (List LifeCall × List (ℕ × FilterExtension))) : Type 0 where
    pub calls : List LifeCall
    pub left : List (ℕ × FilterExtension)
    pub runs : result ≡ some (calls, left)
    pub attached : AreAttached left
    pub obtains : obtained p calls ≡ 0
    pub frees : released p calls + held_by left ≡ held_by filters

  served_filter-Serves :
      (d lower : ℕ) (f : FilterExtension) (filters : List (ℕ × FilterExtension))
      (o : Option (ℕ × World R))
      → f.lower_device ≡ some lower
      → AreAttached filters
      → Filtered d lower o
      → Serves ((d, f) ∷ filters) (served_filter R wdk d o filters)
  unfolding served_filter
  served_filter-Serves d lower f filters none e others h = absurd h
  served_filter-Serves d lower f filters (some (status, w)) e others (inl (stays, none_gone)) =
      let (f', is, e') = attached-filter w.extension lower stays in
      let calls = life_calls-teardown w.calls in
      record {
        calls = [];
        left = (d, f') ∷ filters;
        runs = rw (is, calls, none_gone) refl;
        attached = ((lower, e'), others);
        obtains = refl;
        frees = rw (e, e') (omega arith);
      }
  served_filter-Serves d lower f filters (some (status, w)) e others (inr (is, torn)) =
      let calls = life_calls-teardown w.calls in
      record {
        calls = release (attachment lower) ∷ release (device d) ∷ [];
        left = filters;
        runs = rw (is, calls, torn) refl;
        attached = others;
        obtains = refl;
        frees = rw e (omega arith);
      }

  pub send_to_filter-Serves :
      (name : ℕ) (routine : Routine) (irp : Irp) (cd : Option ConnectData)
      (filters : List (ℕ × FilterExtension))
      → AreAttached filters
      → Serves filters (send_to_filter R wdk name routine irp cd filters)
  unfolding send_to_filter
  send_to_filter-Serves name routine irp cd [] h = record {
    calls = [];
    left = [];
    runs = refl;
    attached = tt;
    obtains = refl;
    frees = refl;
  }
  send_to_filter-Serves name routine irp cd ((d, f) ∷ filters) ((lower, e), others) =
      elim (Bool-cases (d == name)) [
        | inl here ↦ rw here (
            served_filter-Serves d lower f filters _ e others
              (dispatch-Filtered R wdk irp routine d lower f cd e))
        | inr elsewhere ↦
            let later = send_to_filter-Serves name routine irp cd filters others in
            record {
              calls = later.calls;
              left = (d, f) ∷ later.left;
              runs = rw (elsewhere, send_to_filter, later.runs) refl;
              attached = ((lower, e), later.attached);
              obtains = later.obtains;
              frees = omega (arith, later.frees);
            }
      ]
