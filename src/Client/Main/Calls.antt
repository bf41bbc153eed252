-- ===== src/Client/Main/Calls.antt =====
-- The calls of a run of the frame loop, sorted into those of the polls and the others.
use win0_doom.Shared.{
  ℕ, zero, suc, ◌+◌, ◌≡◌, refl, ap, ◌∙◌, List, [], ◌∷◌, ◌++◌, Bool, if◌then◌else◌, map, arith,
}
use win0_doom.Client.Keys.{KeyEvent, PollCall, engine}
use win0_doom.Client.Main.{MainCall, keyboard, update, present, delay}

-- The calls of a run that are not those of a poll.
abbrev pub frame_calls : List MainCall → List MainCall
frame_calls [] = []
frame_calls (keyboard c ∷ calls) = frame_calls calls
frame_calls (c ∷ calls) = c ∷ frame_calls calls

-- How often poll_keyboard pauses after a failed ioctl.
abbrev pub diagnoses : List MainCall → ℕ
diagnoses [] = 0
diagnoses (keyboard (PollCall.delay t) ∷ calls) = suc (diagnoses calls)
diagnoses (_ ∷ calls) = diagnoses calls

abbrev pub count : Bool → ℕ
count b = if b then 1 else 0

-- n whole frames, with a delay of 10 ms in units of 100 ns.
abbrev pub whole_frames : ℕ → List MainCall
whole_frames zero = []
whole_frames (suc n) = update ∷ present ∷ delay 100000 ∷ whole_frames n

pub diagnoses-append : (xs ys : List MainCall) → diagnoses (xs ++ ys) ≡ diagnoses xs + diagnoses ys
diagnoses-append [] ys = omega arith
diagnoses-append (keyboard (PollCall.delay t) ∷ xs) ys = omega (arith, diagnoses-append xs ys)
diagnoses-append (_ ∷ xs) ys = diagnoses-append xs ys

pub diagnoses-map : (es : List KeyEvent) → diagnoses (map keyboard (map engine es)) ≡ 0
diagnoses-map [] = refl
diagnoses-map (e ∷ es) = diagnoses-map es

pub frame_calls-map :
    (cs : List PollCall) (ys : List MainCall) → frame_calls (map keyboard cs ++ ys) ≡ frame_calls ys
frame_calls-map [] ys = refl
frame_calls-map (c ∷ cs) ys = frame_calls-map cs ys

pub frame_calls-append :
    (xs ys : List MainCall) → frame_calls (xs ++ ys) ≡ frame_calls xs ++ frame_calls ys
frame_calls-append [] ys = refl
frame_calls-append (keyboard c ∷ xs) ys = frame_calls-append xs ys
frame_calls-append (x ∷ xs) ys = ap (◌∷◌ x) (frame_calls-append xs ys)

-- The calls of a frame: a poll's, the update and the present, and what follows.
pub diagnoses_frame :
    (cs : List PollCall) (ys : List MainCall)
    → diagnoses ((map keyboard cs ++ update ∷ present ∷ []) ++ ys)
      ≡ diagnoses (map keyboard cs) + diagnoses ys
diagnoses_frame cs ys = omega (
  arith,
  diagnoses-append (map keyboard cs ++ update ∷ present ∷ []) ys,
  diagnoses-append (map keyboard cs) (update ∷ present ∷ []),
)

pub frame_calls_frame :
    (cs : List PollCall) (ys : List MainCall)
    → frame_calls ((map keyboard cs ++ update ∷ present ∷ []) ++ ys)
      ≡ update ∷ present ∷ frame_calls ys
frame_calls_frame cs ys =
    frame_calls-append (map keyboard cs ++ update ∷ present ∷ []) ys
    ∙ ap (λ xs. xs ++ frame_calls ys) (frame_calls-map cs (update ∷ present ∷ []))
