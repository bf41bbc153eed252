-- ===== src/System/Turn.antt =====
-- One turn of the frame loop, answered by the driver.
use win0_doom.Shared.{
  ℕ, ◌*◌, ◌^◌, ◌<◌, ◌≡◌, refl, sym, ap, ◌∙◌, List, [], ◌∷◌, ◌++◌, none, some, true, false, map,
  take, drop, arith,
}
use win0_doom.Driver.Ring.Holds.{Holds}
use win0_doom.Driver.Frame.{Words, present}
use win0_doom.Driver.Device.{Wdk, control, ControlExtension, complete_request, Irp, World, entered}
use win0_doom.Driver.Irp.{device_control}
use win0_doom.Driver.Irp.Control.{present_frame_lem}
use win0_doom.Client.File.{failed}
use win0_doom.Client.Keys.{
  KeyboardApi, KeyEvent, IoctlResult, engine, get_keyboard, poll_keyboard, buffer_records,
}
use win0_doom.Client.Keys.Dispatch.{events_in}
use win0_doom.Client.Main.{MainCall, keyboard, update, delay, frame_ticks}
use win0_doom.Client.Main.Frames.{frame_goes_on}
use win0_doom.Keyboard.{
  CompletesBuffered, HasCodes, ioctl_codes_agree, poll_keyboard-device_control,
}
use win0_doom.System.{display_of, keyboard_irp, picture_irp, ioctl, keyboard_ioctl, turn}

-- What the program, the driver and the I/O manager have to agree on.
pub record Agrees {R : Type 0} (wdk : Wdk) (api : KeyboardApi R) (io : World R → IoctlResult R)
    : Type 0 where
  pub same_records : api.record_bytes ≡ wdk.record_bytes
  pub small_records : buffer_records * wdk.record_bytes < 2 ^ 32
  pub success : failed wdk.status_success ≡ false
  pub completes : CompletesBuffered wdk.record_bytes io
  pub codes : HasCodes wdk

-- The engine's events among the calls of a run.
abbrev pub engine_events : List MainCall → List KeyEvent
engine_events [] = []
engine_events (keyboard (engine e) ∷ calls) = e ∷ engine_events calls
engine_events (_ ∷ calls) = engine_events calls

module _ {R : Type 0} where
  -- A display that is fit to use: its ring holds q, and its framebuffer is mapped.
  pub record Shows (c : ControlExtension R) (q : List R) (screen : Words) : Type 0 where
    pub holds : Holds c.keyboard q
    pub mapped : c.frame_buffer ≡ some screen

module _ {R : Type 0} (wdk : Wdk) (api : KeyboardApi R) (io : World R → IoctlResult R)
    (agrees : Agrees wdk api io) (device : ℕ) (base : Irp) (scratch : Words) where
  -- An ioctl, from what the driver does with its IRP.
  ioctl_lem :
      (irp : Irp) (c c' : ControlExtension R) {status : ℕ} (w : World R)
      → device_control wdk irp (entered device (control c) none) ≡ some (status, w)
      → w.extension ≡ control c'
      → ioctl wdk api io device base scratch irp c ≡ some (io w, c')
  unfolding ioctl
  ioctl_lem irp c c' w runs left =
      let found : display_of w.extension ≡ some c' = ap display_of left in rw (runs, ioctl, found)

  record Polled (c : ControlExtension R) (q : List R) (screen : Words) : Type 0 where
    keys : IoctlResult R
    polled : ControlExtension R
    runs :
        keyboard_ioctl wdk api io device base scratch
          (record { display = c; keyboard_available = true })
        ≡ some (keys, polled)
    polls :
        poll_keyboard api true (λ capacity. keys)
        ≡ some (record {
          keyboard_available = true;
          calls =
              get_keyboard (buffer_records * api.record_bytes)
              ∷ map engine (events_in api (take 32 q));
        })
    shows : Shows polled (drop 32 q) screen

  keyboard_ioctl-Polled :
      {c : ControlExtension R} {q : List R} {screen : Words} → Shows c q screen → Polled c q screen
  unfolding keyboard_ioctl
  keyboard_ioctl-Polled {c} {q} {screen} h =
      let (w, k, runs, polls, ext, left) =
        poll_keyboard-device_control wdk api (keyboard_irp wdk api io device base scratch) io device
          c none {q = q} agrees.same_records agrees.small_records agrees.success agrees.completes
          agrees.codes refl refl (ap (λ n. buffer_records * n) agrees.same_records) h.holds in
      record {
        keys = io w;
        polled = record c { keyboard = k };
        runs =
            ioctl_lem (keyboard_irp wdk api io device base scratch) c (record c { keyboard = k }) w
              runs ext;
        polls = polls;
        shows = record { holds = left; mapped = h.mapped };
      }

  pub record Drawn (c : ControlExtension R) (q : List R) (screen : Words) (picture : Words)
      : Type 0 where
    pub shown : IoctlResult R
    pub drawn : ControlExtension R
    pub runs :
        ioctl wdk api io device base scratch (picture_irp wdk api io device base scratch picture) c
        ≡ some (shown, drawn)
    pub presents : failed shown.status ≡ false
    pub shows : Shows drawn q (present picture screen)

  pub ioctl-Drawn :
      {c : ControlExtension R} {q : List R} {screen : Words} (picture : Words)
      → Shows c q screen
      → Drawn c q screen picture
  ioctl-Drawn {c} {q} {screen} picture h =
      let drawn : ControlExtension R = record c { frame_buffer = some (present picture screen) } in
      let w : World R = record (entered device (control c) none) {
        extension = control drawn;
        calls = complete_request wdk.status_success 0 ∷ [];
      } in
      let (keyboard_code, picture_code) = ioctl_codes_agree wdk agrees.codes in
      let irp = picture_irp wdk api io device base scratch picture in
      let runs =
        present_frame_lem wdk irp device c none (omega (arith, keyboard_code, picture_code))
          (sym picture_code) refl (omega arith) h.mapped in
      let (status, information) = agrees.completes.reports w [] wdk.status_success 0 refl in
      record {
        shown = io w;
        drawn = drawn;
        runs = ioctl_lem irp c drawn w runs refl;
        presents = ap failed status ∙ agrees.success;
        shows = record { holds = h.holds; mapped = refl };
      }

  -- The calls of a turn in which the engine gets these events.
  abbrev pub turn_calls : List KeyEvent → List MainCall
  turn_calls events =
      (map keyboard (get_keyboard (buffer_records * api.record_bytes) ∷ map engine events)
        ++ update ∷ MainCall.present ∷ [])
      ++ delay frame_ticks ∷ []

  pub turn_lem :
      {c : ControlExtension R} {q : List R} {screen : Words} (picture : Words)
      → Shows c q screen
      → (c' : ControlExtension R) × (turn wdk api io device base scratch
            (record { display = c; keyboard_available = true })
            picture
          ≡ some (record {
            machine = record { display = c'; keyboard_available = true };
            exited = none;
            calls = turn_calls (events_in api (take 32 q));
          }))
        × Shows c' (drop 32 q) (present picture screen)
  unfolding turn
  turn_lem picture h =
      let first = keyboard_ioctl-Polled h in
      let second = ioctl-Drawn picture first.shows in
      (
        second.drawn,
        rw (first.runs, turn, second.runs, frame_goes_on api true _ _ first.polls second.presents),
        second.shows,
      )
