-- ===== src/Client/Tests/Main.antt =====
-- Two frames: the keyboard is polled and fails in the first, and the second is not presented.
use win0_doom.Shared.{ℕ, List, [], ◌∷◌, ◌++◌, replicate}
use win0_doom.Fixtures.{two_records}
use win0_doom.Client.Main.{FrameAnswers}

-- keyboard_buffer, with two records at its front.
abbrev whole_buffer : List ℕ
whole_buffer = two_records ++ replicate 30 0

abbrev two_frames : List (FrameAnswers ℕ)
two_frames =
    record {
      ioctl = λ capacity. record { status = 0xc0000010; information = 0; buffer = whole_buffer };
      present_status = 0;
    }
    ∷ record {
      ioctl = λ capacity. record { status = 0; information = 0; buffer = whole_buffer };
      present_status = 0xc0000023;
    }
    ∷ []
