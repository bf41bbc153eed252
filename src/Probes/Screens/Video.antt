-- ===== src/Probes/Screens/Video.antt =====
-- How native/video-test.c ends.
use win0_doom.Shared.{
  ℕ, ◌*◌, ◌≤◌, ◌<◌, ◌≡◌, refl, ◌∙◌, none, some, true, false, Bool-cases, dec_lt, ltb, ◌⊎◌, inl, inr,
  arith,
}
use win0_doom.Driver.Frame.{Words}
use win0_doom.Client.File.{failed}
use win0_doom.Client.Path.{codes}
use win0_doom.Probes.Pattern.{video_picture}
use win0_doom.Probes.Pattern.Agree.{fb_picture_lem}
use win0_doom.Probes.Status.{video_print_status}
use win0_doom.Probes.Screens.{
  ScreenRun, stay, VideoMemoryInformation, video_opened, video_mapped, video_startup,
}
use win0_doom.Probes.Screens.Ends.{GaveUp, give_up-GaveUp, Stays}

-- native/video-test.c ends without an overrun of a buffer, whatever the calls answer. Where a call
-- fails, it shows that call's status and ends with it. Where the framebuffer is null or too small for
-- the picture, it shows the length, writes no word, and ends with STATUS_BUFFER_TOO_SMALL. Else it
-- stays, with each word of the 1280 by 800 drawn and none behind the framebuffer's length written.
pub video_startup_ends :
    (turns open_status map_status frame_buffer_length : ℕ) (words : Words) (x y j : ℕ)
    → x < 1280
    → y < 800
    → frame_buffer_length ≤ j * 4
    → let memory : VideoMemoryInformation = record {
      frame_buffer = some words;
      frame_buffer_length = frame_buffer_length;
    } in
      let null : VideoMemoryInformation = record {
        frame_buffer = none;
        frame_buffer_length = frame_buffer_length;
      } in
      (r : ScreenRun) × (video_startup turns open_status map_status memory ≡ some r)
      × (r0 : ScreenRun) × (video_startup turns open_status map_status null ≡ some r0)
      × (((failed open_status ≡ true)
            × GaveUp open_status open_status none r
            × GaveUp open_status open_status none r0)
          ⊎ ((failed open_status ≡ false)
              × (failed map_status ≡ true)
              × GaveUp map_status map_status none r
              × GaveUp map_status map_status none r0)
          ⊎ ((failed open_status ≡ false)
              × (failed map_status ≡ false)
              × GaveUp frame_buffer_length 0xc0000023 none r0
              × (((frame_buffer_length < 1280 * 800 * 4)
                    × GaveUp frame_buffer_length 0xc0000023 (some words) r)
                  ⊎ ((1280 * 800 * 4 ≤ frame_buffer_length) × Stays x y (words j) j r))))
unfolding video_startup video_print_status
video_startup_ends turns open_status map_status n words x y j hx hy behind =
    elim (Bool-cases (failed open_status)) [
      | inl bad ↦
          let (r, runs, ends) =
            give_up-GaveUp video_opened (codes "\r\nopen \\Device\\Video0 failed: ") open_status
              open_status none refl in
          (r, rw bad runs, r, rw bad runs, inl (bad, ends, ends))
      | inr opened ↦ elim (Bool-cases (failed map_status)) [
        | inl bad ↦
            let (r, runs, ends) =
              give_up-GaveUp video_mapped (codes "\r\nmap video memory ioctl failed: ") map_status
                map_status none refl in
            (
              r,
              rw (opened, bad) runs,
              r,
              rw (opened, bad) runs,
              inr (inl (opened, bad, ends, ends)),
            )
        | inr mapped ↦
            let small =
              give_up-GaveUp video_mapped (codes "\r\nframebuffer too small, length: ") n
                0xc0000023 in
            let (r0, runs0, ends0) = small none refl in
            elim (dec_lt n (1280 * 800 * 4)) [
              | yes short ↦
                  let test : ltb n (1280 * 800 * 4) ≡ true = ground arith in
                  let (r, runs, ends) = small (some words) refl in
                  (
                    r,
                    rw (opened, mapped, test) runs,
                    r0,
                    rw (opened, mapped) runs0,
                    inr (inr (opened, mapped, ends0, inl (short, ends))),
                  )
              | no long ↦
                  let test : ltb n (1280 * 800 * 4) ≡ false = ground arith in
                  let (drawn, _, same, kept) = fb_picture_lem words x y j hx hy (omega arith) in
                  (
                    stay video_mapped turns (video_picture words),
                    rw (opened, mapped, test) refl,
                    r0,
                    rw (opened, mapped) runs0,
                    inr (
                        inr (
                          opened,
                          mapped,
                          ends0,
                          inr (
                            omega arith,
                            (refl, (video_picture words, refl, same ∙ drawn, kept)),
                          ),
                        )),
                  )
            ]
      ]
    ]
