-- ===== src/System/Plays.antt =====
-- The program and the driver over any keys that are typed and any number of frames.
use win0_doom.Shared.{
  ℕ, suc, ◌+◌, ◌-◌, ◌*◌, ◌/◌, ◌^◌, ◌<◌, ◌≡◌, refl, sym, ap, ◌∙◌, List, [], ◌∷◌, ◌++◌, Option, none,
  some, true, map, take, drop, last_n, append_assoc, append-nil, ap₂,
}
use win0_doom.Driver.Frame.{Words, present, to_pixel, frame_width, display_width, display_height}
use win0_doom.Driver.Frame.Scale.{present_scales}
use win0_doom.Driver.Device.{Wdk, ControlExtension, FilterExtension, Irp, World}
use win0_doom.Driver.Callback.{records_from}
use win0_doom.Driver.Callback.Forward.{service_callback_mirrors}
use win0_doom.Client.Keys.{KeyboardApi, KeyEvent, IoctlResult, engine, get_keyboard, buffer_records}
use win0_doom.Client.Keys.Dispatch.{events_in, events_of}
use win0_doom.Client.Main.{MainCall, keyboard, update, delay, frame_ticks}
use win0_doom.Client.Main.Calls.{frame_calls, whole_frames, frame_calls-append, frame_calls_frame}
use win0_doom.System.{Happening, typed, framed, Outcome, run_system}
use win0_doom.System.Turn.{Agrees, engine_events, Shows, turn_calls, turn_lem}

pub engine_events-append :
    (xs ys : List MainCall) → engine_events (xs ++ ys) ≡ engine_events xs ++ engine_events ys
engine_events-append [] ys = refl
engine_events-append (keyboard (engine e) ∷ xs) ys = ap (◌∷◌ e) (engine_events-append xs ys)
engine_events-append (_ ∷ xs) ys = engine_events-append xs ys

engine_events-map : (es : List KeyEvent) → engine_events (map keyboard (map engine es)) ≡ es
engine_events-map [] = refl
engine_events-map (e ∷ es) = ap (◌∷◌ e) (engine_events-map es)

events_in-append :
    {R : Type 0} (api : KeyboardApi R) (xs ys : List R)
    → events_in api (xs ++ ys) ≡ events_in api xs ++ events_in api ys
unfolding events_in
events_in-append api [] ys = refl
events_in-append api (x ∷ xs) ys =
    rw (events_in-append api xs ys)
      (sym (append_assoc (events_of _ _) (events_in api xs) (events_in api ys)))

module _ {R : Type 0} where
  -- A keyboard callback passes fewer than 2 ^ 32 records.
  abbrev pub AreBursts : List (Happening R) → Type 0
  AreBursts [] = Unit
  AreBursts (typed memory begin end consumed ∷ hs) = (end < begin + 2 ^ 32) × AreBursts hs
  AreBursts (framed picture ∷ hs) = AreBursts hs

  -- The records that the frames take, in order, from a queue of the last 127 records typed, 32 a
  -- frame; and what is left in it.
  unfoldable pub delivered : List R → List (Happening R) → List R
  delivered q [] = []
  delivered q (typed memory begin end consumed ∷ hs) =
      delivered (last_n 127 (q ++ records_from memory begin (end - begin))) hs
  delivered q (framed picture ∷ hs) = take 32 q ++ delivered (drop 32 q) hs

  unfoldable pub left : List R → List (Happening R) → List R
  left q [] = q
  left q (typed memory begin end consumed ∷ hs) =
      left (last_n 127 (q ++ records_from memory begin (end - begin))) hs
  left q (framed picture ∷ hs) = left (drop 32 q) hs

  -- The framebuffer after the frames.
  unfoldable pub screen_after : Words → List (Happening R) → Words
  screen_after screen [] = screen
  screen_after screen (typed memory begin end consumed ∷ hs) = screen_after screen hs
  screen_after screen (framed picture ∷ hs) = screen_after (present picture screen) hs

  -- The word at (x, y) of the display: the pixel at (x / 4, y / 4) of the last frame, if there is one.
  unfoldable pub pixel_after : (x y word : ℕ) → List (Happening R) → ℕ
  pixel_after x y word [] = word
  pixel_after x y word (typed memory begin end consumed ∷ hs) = pixel_after x y word hs
  pixel_after x y word (framed picture ∷ hs) =
      pixel_after x y (to_pixel (picture (y / 4 * frame_width + x / 4))) hs

  abbrev pub turns : List (Happening R) → ℕ
  turns [] = 0
  turns (typed memory begin end consumed ∷ hs) = turns hs
  turns (framed picture ∷ hs) = suc (turns hs)

  pub screen_after-pixel_after :
      (x y : ℕ) (hs : List (Happening R)) (screen : Words)
      → x < display_width
      → y < display_height
      → screen_after screen hs (y * display_width + x)
        ≡ pixel_after x y (screen (y * display_width + x)) hs
  unfolding screen_after pixel_after
  screen_after-pixel_after x y [] screen hx hy = refl
  screen_after-pixel_after x y (typed memory begin end consumed ∷ hs) screen hx hy =
      screen_after-pixel_after x y hs screen hx hy
  screen_after-pixel_after x y (framed picture ∷ hs) screen hx hy =
      screen_after-pixel_after x y hs (present picture screen) hx hy
      ∙ ap (λ word. pixel_after x y word hs) (present_scales picture screen x y hx hy)

module _ {R : Type 0} (wdk : Wdk) (api : KeyboardApi R) (io : World R → IoctlResult R)
    (agrees : Agrees wdk api io) (device : ℕ) (base : Irp) (scratch : Words)
    (f : FilterExtension) where
  engine_events-turn_calls :
      (es : List KeyEvent)
      → engine_events (turn_calls wdk api io agrees device base scratch es) ≡ es
  engine_events-turn_calls es =
      engine_events-append (map keyboard (map engine es) ++ update ∷ MainCall.present ∷ [])
        (delay frame_ticks ∷ [])
      ∙ append-nil _
      ∙ engine_events-append (map keyboard (map engine es)) (update ∷ MainCall.present ∷ [])
      ∙ append-nil _
      ∙ engine_events-map es

  -- How a run over these happenings, from a queue and a screen, ends.
  pub record Plays (q : List R) (screen : Words) (hs : List (Happening R))
      (result : Option (Outcome R)) : Type 0 where
    pub display : ControlExtension R
    pub calls : List MainCall
    pub runs :
        result
        ≡ some (record {
          machine = record { display = display; keyboard_available = true };
          exited = none;
          calls = calls;
        })
    pub shows : Shows display (left q hs) (screen_after screen hs)
    pub events : engine_events calls ≡ events_in api (delivered q hs)
    pub presents : frame_calls calls ≡ whole_frames (turns hs)

  pub run_system-Plays :
      (hs : List (Happening R)) {c : ControlExtension R} (q : List R) (screen : Words)
      → AreBursts hs
      → Shows c q screen
      → Plays q screen hs (
          run_system wdk api io device base scratch f
            (record { display = c; keyboard_available = true })
            hs)
  unfolding run_system left delivered screen_after events_in
  run_system-Plays [] {c} q screen bursts h = record {
    display = c;
    calls = [];
    runs = refl;
    shows = h;
    events = refl;
    presents = refl;
  }
  run_system-Plays (typed memory begin end consumed ∷ hs) {c} q screen (small, bursts) h =
      let (c', queued, kept, holds) =
        service_callback_mirrors memory c f {q = q} begin end consumed h.holds small in
      let rest =
        run_system-Plays hs {c = c'} (last_n 127 (q ++ records_from memory begin (end - begin)))
          screen bursts (record { holds = holds; mapped = kept ∙ h.mapped }) in
      record {
        display = rest.display;
        calls = rest.calls;
        runs = rw (queued, run_system) rest.runs;
        shows = rest.shows;
        events = rest.events;
        presents = rest.presents;
      }
  run_system-Plays (framed picture ∷ hs) {c} q screen bursts h =
      let (c', turned, shows) = turn_lem wdk api io agrees device base scratch picture h in
      let rest = run_system-Plays hs {c = c'} (drop 32 q) (present picture screen) bursts shows in
      let first = turn_calls wdk api io agrees device base scratch (events_in api (take 32 q)) in
      record {
        display = rest.display;
        calls = first ++ rest.calls;
        runs = rw (turned, run_system, rest.runs);
        shows = rest.shows;
        events =
            engine_events-append first rest.calls
            ∙ ap₂ ◌++◌ (engine_events-turn_calls (events_in api (take 32 q))) rest.events
            ∙ sym (events_in-append api (take 32 q) (delivered (drop 32 q) hs));
        presents =
            frame_calls-append first rest.calls
            ∙ ap₂ ◌++◌
                (frame_calls_frame
                  (get_keyboard (buffer_records * api.record_bytes)
                    ∷ map engine (events_in api (take 32 q)))
                  (delay frame_ticks ∷ []))
                rest.presents;
      }
