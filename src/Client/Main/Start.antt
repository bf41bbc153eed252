-- ===== src/Client/Main/Start.antt =====
-- What NtProcessStartup does before the frame loop.
use win0_doom.Shared.{ℕ, ◌≡◌, refl, List, [], ◌∷◌, some, none, true, false}
use win0_doom.Client.File.{failed}
use win0_doom.Client.Keys.{KeyboardApi}
use win0_doom.Client.Main.{MainCall, open_display, start_calls, process_startup}
use win0_doom.Client.Main.Calls.{frame_calls}

-- The calls once the display is open.
abbrev pub opened_calls : List MainCall
opened_calls = open_display ∷ start_calls

pub frame_calls-start_calls : frame_calls start_calls ≡ start_calls
unfolding start_calls
frame_calls-start_calls = refl

-- The start on a display that is open, before any frame.
pub process_startup_opened :
    {R : Type 0} (api : KeyboardApi R) (status : ℕ)
    → failed status ≡ false
    → process_startup api status []
      ≡ some (record { keyboard_available = true; exited = none; calls = opened_calls })
unfolding process_startup
process_startup_opened api status good = rw good refl
