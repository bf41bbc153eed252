-- ===== src/Client/Main.antt =====
-- NtProcessStartup of native/win0-doom.c: what the process asks of the system and of the engine, in
-- order. What the calls answer in one turn of the frame loop is `FrameAnswers`; the loop runs over a
-- list of them. native_exit ends the process: NtTerminateProcess does not return.
pub mod Calls
pub mod Frames
pub mod Start
use win0_doom.Shared.{
  ℕ, List, [], ◌∷◌, ◌++◌, Option, none, some, Bool, true, false, if◌then◌else◌, map,
}
use win0_doom.Client.Path.{codes}
use win0_doom.Client.File.{failed}
use win0_doom.Client.Keys.{
  DoomKey, key_w, key_s, key_a, key_d, key_e, KeyboardApi, IoctlResult, PollCall, poll_keyboard,
}

-- The flags of doom_init: DOOM_FLAG_HIDE_MOUSE_OPTIONS and so on, one bit each.
pub data DoomFlag : Type 0 where
  hide_mouse_options hide_sound_options hide_music_options : DoomFlag

pub data MainCall : Type 0 where
  open_display : MainCall
  print : (text : List ℕ) → MainCall
  set_print : MainCall
  set_malloc : MainCall
  set_file_io : MainCall
  set_gettime : MainCall
  set_exit : MainCall
  set_getenv : MainCall
  set_default : (name : List ℕ) → DoomKey → MainCall
  init : (arguments : List (List ℕ)) → List DoomFlag → MainCall
  keyboard : PollCall → MainCall
  update : MainCall
  present : MainCall
  delay : (ticks : ℕ) → MainCall
  terminate : (status : ℕ) → MainCall

pub record FrameAnswers (R : Type 0) : Type 0 where
  pub ioctl : (capacity : ℕ) → IoctlResult R
  pub present_status : ℕ

-- The static keyboard_available, the status that the process ended with, and the calls made.
pub record Run : Type 0 where
  pub keyboard_available : Bool
  pub exited : Option ℕ
  pub calls : List MainCall

abbrev pub frame_ticks : ℕ
frame_ticks = 100000

-- The calls of a frame that is not presented, from the diagnosis on.
abbrev pub present_failed : ℕ → List MainCall
present_failed status = print (codes "\r\nwin0 doom: present failed.\r\n") ∷ terminate status ∷ []

-- The calls before the frame loop.
unfoldable pub start_calls : List MainCall
start_calls =
    set_print
    ∷ set_malloc
    ∷ set_file_io
    ∷ set_gettime
    ∷ set_exit
    ∷ set_getenv
    ∷ set_default (codes "key_up") key_w
    ∷ set_default (codes "key_down") key_s
    ∷ set_default (codes "key_strafeleft") key_a
    ∷ set_default (codes "key_straferight") key_d
    ∷ set_default (codes "key_use") key_e
    ∷ print (codes "\r\nwin0 doom: initializing puredoom...\r\n")
    ∷ init (codes "win0doom.exe" ∷ codes "-iwad" ∷ codes "doom1.wad" ∷ [])
        (hide_mouse_options ∷ hide_sound_options ∷ hide_music_options ∷ [])
    ∷ []

-- A run, and what comes before it.
abbrev pub after_calls : List MainCall → Option Run → Option Run
after_calls calls none = none
after_calls calls (some r) = some (record r { calls = calls ++ r.calls })

module _ {R : Type 0} (api : KeyboardApi R) where
  -- One turn of the loop.
  pub frame : Bool → FrameAnswers R → Option Run
  frame available a = elim (poll_keyboard api available a.ioctl) [
    | none ↦ none
    | some polled ↦
        let shown = map keyboard polled.calls ++ update ∷ present ∷ [] in
        if failed a.present_status
        then some (record {
          keyboard_available = polled.keyboard_available;
          exited = some a.present_status;
          calls = shown ++ present_failed a.present_status;
        })
        else some (record {
          keyboard_available = polled.keyboard_available;
          exited = none;
          calls = shown ++ delay frame_ticks ∷ [];
        })
  ]

  -- for (;;), over as many turns as there are answers.
  pub frames : Bool → List (FrameAnswers R) → Option Run
  unfolding frame
  frames available [] = some (record { keyboard_available = available; exited = none; calls = [] })
  frames available (a ∷ answers) = elim (frame available a) [
    | none ↦ none
    | some r ↦
        let later = frames r.keyboard_available answers in
        elim r.exited [ none ↦ after_calls r.calls later | some status ↦ some r ]
  ]

  pub process_startup : (display_status : ℕ) → List (FrameAnswers R) → Option Run
  unfolding frames start_calls
  process_startup display_status answers =
      if failed display_status
      then some (record {
        keyboard_available = true;
        exited = some display_status;
        calls =
            open_display
            ∷ print (codes "\r\nwin0 doom: display driver is unavailable.\r\n")
            ∷ terminate display_status
            ∷ [];
      })
      else after_calls (open_display ∷ start_calls) (frames true answers)
