-- ===== src/Probes/Screens/Ends.antt =====
-- How the screen tests end, and what they have drawn.
use win0_doom.Shared.{
  ℕ, ◌+◌, ◌*◌, ◌/◌, ◌%◌, ◌^◌, ◌≤◌, ◌<◌, ◌≡◌, refl, List, [], ◌∷◌, ◌++◌, Option, none, some, true,
  false, Bool-cases, leb, ◌⊎◌, inl, inr, length,
}
use win0_doom.Driver.Frame.{Words}
use win0_doom.Client.File.{failed}
use win0_doom.Client.Text.{print_hex_text}
use win0_doom.Client.Path.{codes}
use win0_doom.Probes.Pattern.{fb_picture, frame_picture}
use win0_doom.Probes.Pattern.Agree.{tile, fb_picture_lem}
use win0_doom.Probes.Status.{print_status, display_print_status}
use win0_doom.Probes.Status.Text.{print_status_lem}
use win0_doom.Probes.Screens.{
  ScreenCall, ScreenRun, display, terminate, give_up, stay, fb_opened, fb_mapped, fb_startup,
  display_opened, display_presented, display_startup,
}

-- The process has shown a message that ends in `value`, and ended with `status`.
abbrev pub GaveUp : (value status : ℕ) → Option Words → ScreenRun → Type 0
GaveUp value status picture r =
    (r.exited ≡ some status)
    × (r.picture ≡ picture)
    × ((before : List ScreenCall) × (prefix : List ℕ) × (r.calls
          ≡ before
            ++ display (prefix ++ print_hex_text (value % 2 ^ 32) ++ 13 ∷ 10 ∷ [])
              ∷ terminate status
              ∷ []))

pub give_up-GaveUp :
    (before : List ScreenCall) (prefix : List ℕ) (value status : ℕ) (picture : Option Words)
    → leb (length prefix) 83 ≡ true
    → (r : ScreenRun) × (give_up print_status before prefix value status picture ≡ some r)
      × GaveUp value status picture r
unfolding give_up
give_up-GaveUp before prefix value status picture short = (
  record {
    exited = some status;
    calls =
        before
        ++ display (prefix ++ print_hex_text (value % 2 ^ 32) ++ 13 ∷ 10 ∷ [])
          ∷ terminate status
          ∷ [];
    picture = picture;
  },
  rw (print_status_lem prefix value, short) refl,
  (refl, refl, (before, prefix, refl)),
)

-- The process stays, and its framebuffer shows the test picture at (x, y).
abbrev pub Stays : (x y : ℕ) → (kept j : ℕ) → ScreenRun → Type 0
Stays x y kept j r =
    (r.exited ≡ none)
    × ((picture : Words) × (r.picture ≡ some picture)
        × (picture (y * 1280 + x)
            ≡ x * 255 / 1279 * 65536 + y * 255 / 799 * 256 + tile (x / 64) (y / 64))
        × (picture j ≡ kept))

-- native/fb-test.c ends without an overrun of a buffer, whatever the calls answer. Where a call fails,
-- it shows that call's status and ends with it; else it stays, with each word of the 1280 by 800
-- drawn and none behind them written.
pub fb_startup_ends :
    (turns open_status map_status : ℕ) (words : Words) (x y j : ℕ)
    → x < 1280
    → y < 800
    → 1280 * 800 ≤ j
    → (r : ScreenRun) × (fb_startup turns open_status map_status words ≡ some r)
      × (((failed open_status ≡ true) × GaveUp open_status open_status none r)
          ⊎ ((failed open_status ≡ false)
              × (failed map_status ≡ true)
              × GaveUp map_status map_status none r)
          ⊎ ((failed open_status ≡ false) × (failed map_status ≡ false) × Stays x y (words j) j r))
unfolding fb_startup
fb_startup_ends turns open_status map_status words x y j hx hy behind =
    elim (Bool-cases (failed open_status)) [
      | inl bad ↦
          let (r, runs, ends) =
            give_up-GaveUp fb_opened (codes "\r\nNtOpenSection failed: ") open_status open_status
              none refl in
          (r, rw bad runs, inl (bad, ends))
      | inr opened ↦ elim (Bool-cases (failed map_status)) [
        | inl bad ↦
            let (r, runs, ends) =
              give_up-GaveUp fb_mapped (codes "\r\nNtMapViewOfSection failed: ") map_status
                map_status none refl in
            (r, rw (opened, bad) runs, inr (inl (opened, bad, ends)))
        | inr mapped ↦
            let (drawn, kept, _, _) = fb_picture_lem words x y j hx hy behind in
            (
              stay fb_mapped turns (fb_picture words),
              rw (opened, mapped) refl,
              inr (inr (opened, mapped, (refl, (fb_picture words, refl, drawn, kept)))),
            )
      ]
    ]

-- native/driver-display-test.c ends without an overrun of a buffer, whatever the calls answer. Where
-- the open or the present of its picture fails, it shows that call's status and ends with it; else it
-- stays.
pub display_startup_ends :
    (turns open_status : ℕ) (present : Words → ℕ) (frame : Words)
    → let shown = present (frame_picture frame) in
      (r : ScreenRun) × (display_startup turns open_status present frame ≡ some r)
      × (((failed open_status ≡ true) × GaveUp open_status open_status (some frame) r)
          ⊎ ((failed open_status ≡ false)
              × (failed shown ≡ true)
              × GaveUp shown shown (some (frame_picture frame)) r)
          ⊎ ((failed open_status ≡ false)
              × (failed shown ≡ false)
              × (r.exited ≡ none)
              × (r.picture ≡ some (frame_picture frame))))
unfolding display_startup display_print_status
display_startup_ends turns open_status present frame =
    let shown = present (frame_picture frame) in
    elim (Bool-cases (failed open_status)) [
      | inl bad ↦
          let (r, runs, ends) =
            give_up-GaveUp display_opened (codes "\r\nopen win0 doom display failed: ") open_status
              open_status (some frame) refl in
          (r, rw bad runs, inl (bad, ends))
      | inr opened ↦ elim (Bool-cases (failed shown)) [
        | inl bad ↦
            let (r, runs, ends) =
              give_up-GaveUp display_presented (codes "\r\npresent ioctl failed: ") shown shown
                (some (frame_picture frame)) refl in
            (r, rw (opened, bad) runs, inr (inl (opened, bad, ends)))
        | inr good ↦ (
          stay display_presented turns (frame_picture frame),
          rw (opened, good) refl,
          inr (inr (opened, good, refl, refl)),
        )
      ]
    ]
