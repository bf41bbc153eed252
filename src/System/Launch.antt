-- ===== src/System/Launch.antt =====
-- The program from its start, on a display whose ring holds what was typed before.
use win0_doom.Shared.{
  ℕ, ◌+◌, ◌*◌, ◌<◌, ◌≤◌, ◌≡◌, refl, sym, ap, ap₂, subst, ◌∙◌, List, [], ◌∷◌, ◌++◌, none, some, true,
  false, arith, inl, inr, length, take, drop, take_all, drop_all, append_assoc, map, take-take-drop,
  drop_add,
}
use win0_doom.Driver.Ring.Holds.{Holds}
use win0_doom.Driver.Frame.{Words, display_width, display_height}
use win0_doom.Driver.Device.{
  Wdk, control, ControlExtension, FilterExtension, Irp, World, acquire_lock, release_lock, entered,
}
use win0_doom.Driver.Irp.{create_close}
use win0_doom.Driver.Irp.Control.{create_close_resets}
use win0_doom.Client.File.{failed}
use win0_doom.Client.Keys.{KeyboardApi, IoctlResult}
use win0_doom.Client.Keys.Dispatch.{events_in}
use win0_doom.Client.Main.{open_display, start_calls}
use win0_doom.Client.Main.Start.{opened_calls, frame_calls-start_calls, process_startup_opened}
use win0_doom.Client.Main.Calls.{frame_calls, whole_frames, frame_calls-append}
use win0_doom.System.{
  Happening, typed, framed, Outcome, after, display_of, started, run_system, launch,
}
use win0_doom.System.Turn.{Agrees, engine_events, Shows}
use win0_doom.System.Plays.{
  AreBursts, delivered, left, screen_after, pixel_after, turns, screen_after-pixel_after,
  engine_events-append, run_system-Plays,
}

engine_events-start_calls : engine_events start_calls ≡ []
unfolding start_calls
engine_events-start_calls = refl

module _ {R : Type 0} where
  delivered-append :
      (hs hs' : List (Happening R)) (q : List R)
      → delivered q (hs ++ hs') ≡ delivered q hs ++ delivered (left q hs) hs'
  unfolding delivered left
  delivered-append [] hs' q = refl
  delivered-append (typed memory begin end consumed ∷ hs) hs' q = delivered-append hs hs' _
  delivered-append (framed picture ∷ hs) hs' q =
      ap (λ xs. take 32 q ++ xs) (delivered-append hs hs' (drop 32 q))
      ∙ sym (
          append_assoc (take 32 q) (delivered (drop 32 q) hs) (delivered (left (drop 32 q) hs) hs'))

  left-append :
      (hs hs' : List (Happening R)) (q : List R) → left q (hs ++ hs') ≡ left (left q hs) hs'
  unfolding left
  left-append [] hs' q = refl
  left-append (typed memory begin end consumed ∷ hs) hs' q = left-append hs hs' _
  left-append (framed picture ∷ hs) hs' q = left-append hs hs' (drop 32 q)

  AreBursts-append :
      (hs : List (Happening R)) (pictures : List Words)
      → AreBursts hs
      → AreBursts (hs ++ map framed pictures)
  AreBursts-append [] [] h = tt
  AreBursts-append [] (p ∷ pictures) h = AreBursts-append [] pictures tt
  AreBursts-append (typed memory begin end consumed ∷ hs) pictures (small, h) =
      (small, AreBursts-append hs pictures h)
  AreBursts-append (framed picture ∷ hs) pictures h = AreBursts-append hs pictures h

  delivered-map :
      (pictures : List Words) (q : List R)
      → delivered q (map framed pictures) ≡ take (length pictures * 32) q
  unfolding delivered
  delivered-map [] q = refl
  delivered-map (p ∷ pictures) q =
      ap (λ xs. take 32 q ++ xs) (delivered-map pictures (drop 32 q))
      ∙ take-take-drop 32 (length pictures * 32) q
      ∙ ap (λ n. take n q) (omega arith)

  left-map :
      (pictures : List Words) (q : List R)
      → left q (map framed pictures) ≡ drop (length pictures * 32) q
  unfolding left
  left-map [] q = refl
  left-map (p ∷ pictures) q =
      left-map pictures (drop 32 q)
      ∙ sym (drop_add 32 (length pictures * 32) q)
      ∙ ap (λ n. drop n q) (omega arith)

module _ {R : Type 0} (wdk : Wdk) (api : KeyboardApi R) (io : World R → IoctlResult R)
    (agrees : Agrees wdk api io) (device : ℕ) (base : Irp) (scratch : Words) where
  -- The display after the open of the program, and what the open gives the program.
  pub record OpensFor (c : ControlExtension R) (screen : Words) : Type 0 where
    pub opened : ControlExtension R
    pub w : World R
    pub runs :
        create_close wdk
          (record base { major = wdk.irp_mj_create })
          (entered device (control c) none)
        ≡ some (wdk.status_success, w)
    pub found : display_of w.extension ≡ some opened
    pub shows : Shows opened [] screen
    pub succeeds : failed (io w).status ≡ false

  pub create_close-OpensFor :
      {c : ControlExtension R} {q : List R} {screen : Words} → Shows c q screen → OpensFor c screen
  create_close-OpensFor {c} h =
      let (w, k, runs, ext, ends) =
        create_close_resets wdk (record base { major = wdk.irp_mj_create }) device c none h.holds in
      elim ends [
        | inl (create, holds, calls) ↦
            let (status, information) =
              agrees.completes.reports w (acquire_lock ∷ release_lock ∷ []) wdk.status_success 0
                calls in
            record {
              opened = record c { keyboard = k };
              w = w;
              runs = runs;
              found = ap display_of ext;
              shows = record { holds = holds; mapped = h.mapped };
              succeeds = ap failed status ∙ agrees.success;
            }
        | inr (other, kept, calls) ↦ absurd (other refl)
      ]

  module _ (f : FilterExtension) where
    launch_runs :
        (hs : List (Happening R)) {c : ControlExtension R} {q : List R} {screen : Words}
        → Shows c q screen
        → (opened : ControlExtension R) × Shows opened [] screen
          × (launch wdk api io device base scratch f c hs
              ≡ after opened_calls (
                  run_system wdk api io device base scratch f
                    (record { display = opened; keyboard_available = true })
                    hs))
    unfolding launch started
    launch_runs hs {c} {q} {screen} h =
        let o = create_close-OpensFor h in
        (
          o.opened,
          o.shows,
          rw (
            o.runs,
            launch,
            o.found,
            process_startup_opened api (io o.w).status o.succeeds,
            started,
          ),
        )

    -- How the program goes, from its start over these happenings.
    abbrev pub Goes : (x y : ℕ) → Words → List (Happening R) → Outcome R → Type 0
    Goes x y screen hs o =
        (o.exited ≡ none)
        × (engine_events o.calls ≡ events_in api (delivered [] hs))
        × (frame_calls o.calls ≡ opened_calls ++ whole_frames (turns hs))
        × Holds o.machine.display.keyboard (left [] hs)
        × ((s : Words) × (o.machine.display.frame_buffer ≡ some s)
            × (s (y * display_width + x) ≡ pixel_after x y (screen (y * display_width + x)) hs))

    -- On a display with a mapped framebuffer, whatever its ring holds, and for any sequence of keyboard
    -- callbacks of fewer than 2 ^ 32 records and of frames, the program starts, and neither ends nor
    -- faults. It updates, presents and waits once a frame. The engine gets the events of what was
    -- typed since the start, of each record once and in order, where each frame takes 32 records of a
    -- queue of the last 127, and of nothing that was typed before. Each word of the display shows the
    -- pixel of the last frame at a quarter of its coordinates. The two programs and the I/O manager
    -- agree on the size of a record, on the control codes, and on success.
    pub launch_plays :
        (hs : List (Happening R)) (x y : ℕ) {c : ControlExtension R} {q : List R} {screen : Words}
        → AreBursts hs
        → Shows c q screen
        → x < display_width
        → y < display_height
        → (o : Outcome R) × (launch wdk api io device base scratch f c hs ≡ some o)
          × Goes x y screen hs o
    launch_plays hs x y {c} {q} {screen} bursts h hx hy =
        let (opened, shows, starts) = launch_runs hs h in
        let p =
          run_system-Plays wdk api io agrees device base scratch f hs {c = opened} [] screen bursts
            shows in
        (
          record {
            machine = record { display = p.display; keyboard_available = true };
            exited = none;
            calls = opened_calls ++ p.calls;
          },
          starts ∙ ap (after opened_calls) p.runs,
          (
            refl,
            engine_events-append opened_calls p.calls
                ∙ ap (λ es. es ++ engine_events p.calls) engine_events-start_calls
                ∙ p.events,
            frame_calls-append opened_calls p.calls
                ∙ ap₂ (λ xs ys. open_display ∷ (xs ++ ys)) frame_calls-start_calls p.presents,
            p.shows.holds,
            (screen_after screen hs, p.shows.mapped, screen_after-pixel_after x y hs screen hx hy),
          ),
        )

    -- After any history, every record that the ring then holds reaches the engine within the next four
    -- frames, if no key is typed meanwhile: after four or more of them the ring is empty, and the engine
    -- has got the events of what the frames of the history took and then of all that was left, in
    -- order. The conditions are those of a start on a mapped display.
    pub launch_delivers :
        (hs : List (Happening R)) (pictures : List Words) {c : ControlExtension R} {q : List R}
        {screen : Words}
        → AreBursts hs
        → Shows c q screen
        → 4 ≤ length pictures
        → (o : Outcome R) × (launch wdk api io device base scratch f c (hs ++ map framed pictures)
            ≡ some o)
          × (o.exited ≡ none)
          × (engine_events o.calls ≡ events_in api (delivered [] hs ++ left [] hs))
          × Holds o.machine.display.keyboard []
    launch_delivers hs pictures {c} {q} {screen} bursts h enough =
        let (opened, shows, starts) = launch_runs hs h in
        let before =
          run_system-Plays wdk api io agrees device base scratch f hs {c = opened} [] screen bursts
            shows in
        let few : length (left [] hs) ≤ length pictures * 32 =
          omega (arith, before.shows.holds.fits) in
        let (o, runs, (going, events, framing, holds, showing)) =
          launch_plays (hs ++ map framed pictures) 0 0 {c = c} {q = q} {screen = screen}
            (AreBursts-append hs pictures bursts) h (omega arith) (omega arith) in
        let all : delivered [] (hs ++ map framed pictures) ≡ delivered [] hs ++ left [] hs =
          delivered-append hs (map framed pictures) []
          ∙ ap (λ xs. delivered [] hs ++ xs)
              (delivered-map pictures (left [] hs)
                ∙ take_all (length pictures * 32) (left [] hs) few) in
        let none_left : left [] (hs ++ map framed pictures) ≡ [] =
          left-append hs (map framed pictures) []
          ∙ left-map pictures (left [] hs)
          ∙ drop_all (length pictures * 32) (left [] hs) few in
        (
          o,
          runs,
          going,
          events ∙ ap (events_in api) all,
          subst (λ xs. Holds o.machine.display.keyboard xs) none_left holds,
        )
