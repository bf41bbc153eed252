-- ===== src/Client/Main/Frames.antt =====
-- The frame loop over any number of frames.
use win0_doom.Shared.{
  ℕ, zero, suc, ◌+◌, ◌*◌, ◌≤◌, ◌≡◌, refl, List, [], ◌∷◌, ◌++◌, none, some, Bool, true, false, ◌⊎◌,
  map, length,
}
use win0_doom.Client.Path.{codes}
use win0_doom.Client.File.{failed}
use win0_doom.Client.Keys.{KeyboardApi, buffer_records, Polled, poll_keyboard}
use win0_doom.Client.Main.{
  print, terminate, keyboard, update, present, delay, FrameAnswers, Run, frame_ticks, frame,
}
use win0_doom.Client.Main.Calls.{frame_calls, diagnoses, count, whole_frames}

module _ {R : Type 0} (api : KeyboardApi R) where
  open api use {record_bytes}

  -- An ioctl fails, or reports no more bytes than it was asked for. What it leaves is
  -- keyboard_buffer, an array of 32 records.
  abbrev pub IsServed : FrameAnswers R → Type 0
  IsServed a =
      let io = a.ioctl (buffer_records * record_bytes) in
      (failed io.status ≡ true) ⊎ ((length io.buffer ≡ 32) × (io.information ≤ 32 * record_bytes))

  abbrev pub AreServed : List (FrameAnswers R) → Type 0
  AreServed [] = Unit
  AreServed (a ∷ answers) = IsServed a × AreServed answers

  record Polls (available : Bool) (a : FrameAnswers R) : Type 0 where
    polled : Polled
    runs : poll_keyboard api available a.ioctl ≡ some polled
    pauses :
        diagnoses (map keyboard polled.calls) + count polled.keyboard_available ≡ count available

  -- That every frame is presented, and that `k` frames are, and the next fails with this status.
  abbrev pub AllPresented : List (FrameAnswers R) → Type 0
  AllPresented [] = Unit
  AllPresented (a ∷ answers) = (failed a.present_status ≡ false) × AllPresented answers

  abbrev pub FailsAfter : ℕ → ℕ → List (FrameAnswers R) → Type 0
  FailsAfter k status [] = ⊥
  FailsAfter zero status (a ∷ answers) =
      (failed a.present_status ≡ true) × (a.present_status ≡ status)
  FailsAfter (suc k) status (a ∷ answers) =
      (failed a.present_status ≡ false) × FailsAfter k status answers

  -- How a run over these frames ends.
  abbrev pub Ends : List (FrameAnswers R) → Run → Type 0
  Ends answers r =
      (AllPresented answers
        × (r.exited ≡ none)
        × (frame_calls r.calls ≡ whole_frames (length answers)))
      ⊎ ((k : ℕ) × (status : ℕ) × FailsAfter k status answers
          × (r.exited ≡ some status)
          × (frame_calls r.calls
              ≡ whole_frames k
                ++ update
                  ∷ present
                  ∷ print (codes "\r\nwin0 doom: present failed.\r\n")
                  ∷ terminate status
                  ∷ []))

  -- A frame that is presented, from what the poll gives.
  pub frame_goes_on :
      (available : Bool) (a : FrameAnswers R) (polled : Polled)
      → poll_keyboard api available a.ioctl ≡ some polled
      → failed a.present_status ≡ false
      → frame api available a
        ≡ some (record {
          keyboard_available = polled.keyboard_available;
          exited = none;
          calls = (map keyboard polled.calls ++ update ∷ present ∷ []) ++ delay frame_ticks ∷ [];
        })
  unfolding frame
  frame_goes_on available a polled runs good = rw (runs, frame, good) refl
