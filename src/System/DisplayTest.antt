-- ===== src/System/DisplayTest.antt =====
-- native/driver-display-test.c on the driver: its open and its present are IRPs that
-- driver/win0doom-display.c serves.
use mathlib.Core.Option
use win0_doom.Shared.{
  ℕ, ◌+◌, ◌*◌, ◌<◌, ◌≡◌, refl, none, some, Option, List, if◌then◌else◌, inl, inr, sym, ◌∙◌,
}
use mathlib.Core.Bool.{false≢true}
use win0_doom.Driver.Frame.{Words, present, display_width, display_height}
use win0_doom.Driver.Device.{Wdk, control, ControlExtension, Irp, World, entered}
use win0_doom.Driver.Irp.{create_close}
use win0_doom.Client.File.{failed}
use win0_doom.Client.Keys.{KeyboardApi, IoctlResult}
use win0_doom.Probes.Pattern.{fb_picture, frame_picture}
use win0_doom.Probes.Pattern.Agree.{Resembles, present-frame_picture}
use win0_doom.Probes.Screens.{ScreenRun, display_startup}
use win0_doom.Probes.Screens.Ends.{display_startup_ends}
use win0_doom.System.{display_of, picture_irp, ioctl}
use win0_doom.System.Turn.{Agrees, Shows, ioctl-Drawn}
use win0_doom.System.Launch.{create_close-OpensFor}

module _ {R : Type 0} (wdk : Wdk) (api : KeyboardApi R) (io : World R → IoctlResult R) (device : ℕ)
    (base : Irp) (scratch : Words) where
  -- The run of the program, and the device afterwards. `none` stands for a fault.
  pub test_display :
      (turns : ℕ) → (frame : Words) → ControlExtension R → Option (ScreenRun × ControlExtension R)
  test_display turns frame c =
      elim (create_close wdk (record base { major = wdk.irp_mj_create })
        (entered device (control c) none)) [
          | none ↦ none
          | some (status, w) ↦ elim (display_of w.extension) [
            | none ↦ none
            | some opened ↦
                let picture = picture_irp wdk api io device base scratch (frame_picture frame) in
                if failed (io w).status
                then Option.map (λ r. (r, opened))
                    (display_startup turns (io w).status (λ picture. 0) frame)
                else elim (ioctl wdk api io device base scratch picture opened) [
                  | none ↦ none
                  | some (shown, drawn) ↦
                      Option.map (λ r. (r, drawn))
                        (display_startup turns (io w).status (λ picture. shown.status) frame)
                ]
          ]
        ]

  module _ (agrees : Agrees wdk api io) where
    -- On a display with a mapped framebuffer, native/driver-display-test.c neither ends nor faults,
    -- and each word of the framebuffer then shows what native/fb-test.c would draw there, up to one
    -- level of red and of green. The two programs and the I/O manager agree on the size of a record,
    -- on the control codes, and on success.
    pub test_display_lem :
        (turns : ℕ) (frame buf : Words) (x y : ℕ) {c : ControlExtension R} {q : List R}
        {screen : Words}
        → Shows c q screen
        → x < display_width
        → y < display_height
        → (r : ScreenRun) × (c' : ControlExtension R) × (s : Words) × (test_display turns frame c
            ≡ some (r, c'))
          × (r.exited ≡ none)
          × (c'.frame_buffer ≡ some s)
          × Resembles (s (y * display_width + x)) (fb_picture buf (y * display_width + x))
    unfolding test_display
    test_display_lem turns frame buf x y {c} {q} {screen} h hx hy =
        let o = create_close-OpensFor wdk api io agrees device base scratch h in
        let d = ioctl-Drawn wdk api io agrees device base scratch (frame_picture frame) o.shows in
        let (r, runs, ends) =
          display_startup_ends turns (io o.w).status (λ picture. d.shown.status) frame in
        elim ends [
          | inr (inr (opens, good, stays, picture)) ↦ (
            r,
            d.drawn,
            present (frame_picture frame) screen,
            rw (o.runs, test_display, o.found, o.succeeds, d.runs, runs) refl,
            stays,
            d.shows.mapped,
            present-frame_picture frame screen buf x y hx hy,
          )
          | inr (inl (opens, bad, gave)) ↦ absurd (false≢true (sym d.presents ∙ bad))
          | inl (bad, gave) ↦ absurd (false≢true (sym o.succeeds ∙ bad))
        ]
