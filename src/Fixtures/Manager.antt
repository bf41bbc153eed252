-- ===== src/Fixtures/Manager.antt =====
-- An I/O manager for the tests.
use win0_doom.Shared.{ℕ, ◌≡◌, refl, ap, ◌∙◌, sym, List, [], ◌∷◌, ◌++◌, append-nil}
use win0_doom.Fixtures.{wdk}
use win0_doom.Driver.Device.{World, Call, complete_request}
use win0_doom.Client.Keys.{IoctlResult}
use win0_doom.Keyboard.{CompletesBuffered, HasCodes}

pub wdk-HasCodes : HasCodes wdk
wdk-HasCodes = record {
  layout = λ device function method access. refl;
  unknown = refl;
  buffered = refl;
  any_access = refl;
  write_access = refl;
}

-- The status and the information of the last completion.
pub completion : ℕ × ℕ → List Call → ℕ × ℕ
completion last [] = last
completion last (complete_request status information ∷ calls) =
    completion (status, information) calls
completion last (_ ∷ calls) = completion last calls

completion-append :
    (last : ℕ × ℕ) (before : List Call) (status information : ℕ)
    → completion last (before ++ complete_request status information ∷ []) ≡ (status, information)
unfolding completion
completion-append last [] status information = refl
completion-append last (complete_request s i ∷ before) status information =
    completion-append (s, i) before status information
completion-append last (_ ∷ before) status information =
    completion-append last before status information

abbrev pub finish : World ℕ → IoctlResult ℕ
finish w = record {
  status = (completion (0, 0) w.calls).0;
  information = (completion (0, 0) w.calls).1;
  buffer = w.output;
}

pub finish-CompletesBuffered : CompletesBuffered 12 finish
finish-CompletesBuffered = record {
  reports = λ w before status information e.
      let whole : completion (0, 0) w.calls ≡ (status, information) =
        ap (completion (0, 0)) e ∙ completion-append (0, 0) before status information in
      (ap (λ p. p.0) whole, ap (λ p. p.1) whole);
  copies = λ w before status e. ([], sym (append-nil w.output));
}
