-- ===== src/System/Tests.antt =====
-- The program and the driver, with two keys held, then a burst typed and two frames.
use win0_doom.Shared.{ℕ, ◌≡◌, refl, List, [], ◌∷◌, ◌++◌, ◌+◌, ◌*◌, some, none, arith, map}
use win0_doom.Fixtures.{
  wdk, keyboard, wrapped_ring-Holds, two_records, display, request, connected_filter, black, ramp,
}
use win0_doom.Fixtures.Manager.{finish, finish-CompletesBuffered, wdk-HasCodes}
use win0_doom.Driver.Ring.Holds.{Holds}
use win0_doom.Driver.Frame.{Words}
use win0_doom.Client.Keys.Dispatch.{events_in}
use win0_doom.Driver.Device.{ControlExtension}
use win0_doom.Probes.Pattern.{fb_picture}
use win0_doom.Probes.Pattern.Agree.{Resembles}
use win0_doom.Probes.Screens.{ScreenRun}
use win0_doom.System.DisplayTest.{test_display, test_display_lem}
use win0_doom.System.{Happening, typed, framed, Outcome, launch}
use win0_doom.System.Turn.{Agrees, engine_events, Shows}
use win0_doom.System.Plays.{delivered, left}
use win0_doom.System.Launch.{Goes, launch_plays, launch_delivers}

all-Agrees : Agrees wdk keyboard finish
all-Agrees = record {
  same_records = refl;
  small_records = omega arith;
  success = refl;
  completes = finish-CompletesBuffered;
  codes = wdk-HasCodes;
}

display-Shows : Shows display two_records black
display-Shows = record { holds = wrapped_ring-Holds; mapped = refl }

abbrev burst : List (Happening ℕ)
burst = typed ramp 0x1e 0x21 0 ∷ framed ramp ∷ []

launch_plays_example :
    (o : Outcome ℕ) × (launch wdk keyboard finish 1
        (request 0 0)
        black
        connected_filter
        display
        burst
      ≡ some o)
    × Goes wdk keyboard finish all-Agrees 1 (request 0 0) black connected_filter 5 6 black burst o
launch_plays_example =
    launch_plays wdk keyboard finish all-Agrees 1 (request 0 0) black connected_filter burst 5 6
      (omega arith, tt) display-Shows (omega arith) (omega arith)

abbrev four_frames : List Words
four_frames = ramp ∷ black ∷ ramp ∷ black ∷ []

launch_delivers_example :
    (o : Outcome ℕ) × (launch wdk keyboard finish 1
        (request 0 0)
        black
        connected_filter
        display
        (burst ++ map framed four_frames)
      ≡ some o)
    × (o.exited ≡ none)
    × (engine_events o.calls ≡ events_in keyboard (delivered [] burst ++ left [] burst))
    × Holds o.machine.display.keyboard []
launch_delivers_example =
    launch_delivers wdk keyboard finish all-Agrees 1 (request 0 0) black connected_filter burst
      four_frames (omega arith, tt) display-Shows (omega arith)

test_display_lem_example :
    (r : ScreenRun) × (c' : ControlExtension ℕ) × (s : Words) × (test_display wdk keyboard finish 1
        (request 0 0)
        black
        2
        black
        display
      ≡ some (r, c'))
    × (r.exited ≡ none)
    × (c'.frame_buffer ≡ some s)
    × Resembles (s (6 * 1280 + 5)) (fb_picture ramp (6 * 1280 + 5))
test_display_lem_example =
    test_display_lem wdk keyboard finish 1 (request 0 0) black all-Agrees 2 black ramp 5 6
      display-Shows (omega arith) (omega arith)
