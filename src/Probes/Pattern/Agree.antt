-- ===== src/Probes/Pattern/Agree.antt =====
-- What the test pictures show, drawn directly and through the driver.
use win0_doom.Shared.{
  ℕ, ◌+◌, ◌*◌, ◌/◌, ◌%◌, ◌^◌, ◌≤◌, ◌<◌, ◌≡◌, refl, sym, ap, ◌∙◌, inr, arith, ◌==◌, if◌then◌else◌,
}
use win0_doom.Shared.Bits.{bit_and_1, bit_xor_parity, bit_or_disjoint, bit_or_disjoint_low}
use win0_doom.Driver.Frame.{Words, present, to_pixel}
use win0_doom.Driver.Frame.Pixel.{to_pixel_lem}
use win0_doom.Driver.Frame.Scale.{present_scales}
use win0_doom.Probes.Pattern.{
  checker, blue_of, screen_pixel, frame_pixel, fb_picture, video_picture, frame_picture,
}
use win0_doom.Probes.Pattern.Fill.{fill_rows-in, fill_rows-out}

checker_lem : (shift x y : ℕ) → checker shift x y ≡ (x / 2 ^ shift + y / 2 ^ shift) % 2
checker_lem shift x y = bit_and_1 _ ∙ bit_xor_parity (x / 2 ^ shift) (y / 2 ^ shift)

-- The blue level of the tile at a row and a column of tiles.
abbrev pub tile : (column row : ℕ) → ℕ
tile column row = if (column + row) % 2 == 0 then 0x20 else 0xd0

screen_pixel_lem :
    (x y : ℕ)
    → x < 1280
    → y < 800
    → screen_pixel x y ≡ x * 255 / 1279 * 65536 + y * 255 / 799 * 256 + tile (x / 64) (y / 64)
unfolding screen_pixel
screen_pixel_lem x y hx hy = ground (
  arith,
  checker_lem 6 x y,
  bit_or_disjoint 16 (x * 255 / 1279) (y * 255 / 799 * 256),
  bit_or_disjoint 8 (x * 255 / 1279 * 256 + y * 255 / 799) (blue_of (checker 6 x y)),
)

frame_pixel_lem :
    (x y : ℕ)
    → x < 320
    → y < 200
    → frame_pixel x y
      ≡ 0xff000000 + tile (x / 16) (y / 16) * 65536 + y * 255 / 199 * 256 + x * 255 / 319
unfolding frame_pixel
frame_pixel_lem x y hx hy = ground (
  arith,
  checker_lem 4 x y,
  bit_or_disjoint_low 8 (y * 255 / 199) (x * 255 / 319),
  bit_or_disjoint_low 16 (blue_of (checker 4 x y)) (y * 255 / 199 * 256 + x * 255 / 319),
  bit_or_disjoint_low 24 255
      (blue_of (checker 4 x y) * 65536 + y * 255 / 199 * 256 + x * 255 / 319),
)

-- The word at (x, y) of the framebuffer after native/fb-test.c or native/video-test.c has drawn: a
-- red level that grows from left to right, a green one that grows from top to bottom, and a blue one
-- that alternates between tiles of 64 by 64. No word behind the 1280 by 800 is written.
pub fb_picture_lem :
    (buf : Words) (x y j : ℕ)
    → x < 1280
    → y < 800
    → 1280 * 800 ≤ j
    → (fb_picture buf (y * 1280 + x)
        ≡ x * 255 / 1279 * 65536 + y * 255 / 799 * 256 + tile (x / 64) (y / 64))
      × (fb_picture buf j ≡ buf j)
      × (video_picture buf (y * 1280 + x) ≡ fb_picture buf (y * 1280 + x))
      × (video_picture buf j ≡ buf j)
unfolding fb_picture video_picture
fb_picture_lem buf x y j hx hy behind =
    let drawn =
      fill_rows-in 1280 screen_pixel (omega arith) 800 0 buf x y (omega arith) hx (omega arith)
        (omega arith) in
    let kept =
      fill_rows-out 1280 screen_pixel (omega arith) 800 0 buf j (omega arith) (inr (omega arith)) in
    (drawn ∙ screen_pixel_lem x y hx hy, kept, refl, kept)

tile_fits : (column row : ℕ) → tile column row < 256
tile_fits column row = ground arith

frame_channels :
    (word red green blue : ℕ)
    → word ≡ 0xff000000 + blue * 65536 + green * 256 + red
    → red < 256
    → green < 256
    → blue < 256
    → word % 256 * 65536 + word / 256 % 256 * 256 + word / 65536 % 256
      ≡ red * 65536 + green * 256 + blue
frame_channels word red green blue eq hr hg hb =
    let low : word % 256 ≡ red = omega arith in
    let middle : word / 256 % 256 ≡ green = omega arith in
    let high : word / 65536 % 256 ≡ blue = omega arith in omega arith

tile_of_frame : (x y : ℕ) → tile (x / 4 / 16) (y / 4 / 16) ≡ tile (x / 64) (y / 64)
tile_of_frame x y =
    let column : x / 4 / 16 ≡ x / 64 = omega arith in
    let row : y / 4 / 16 ≡ y / 64 = omega arith in rw (column, row) refl

-- A frame's pixel as the driver shows it.
to_pixel-frame_pixel :
    (x y : ℕ)
    → x < 1280
    → y < 800
    → to_pixel (frame_pixel (x / 4) (y / 4))
      ≡ x / 4 * 255 / 319 * 65536 + y / 4 * 255 / 199 * 256 + tile (x / 64) (y / 64)
to_pixel-frame_pixel x y hx hy =
    let pixel = frame_pixel_lem (x / 4) (y / 4) (omega arith) (omega arith) in
    let channels = to_pixel_lem (frame_pixel (x / 4) (y / 4)) in
    channels
    ∙ frame_channels (frame_pixel (x / 4) (y / 4)) (x / 4 * 255 / 319) (y / 4 * 255 / 199)
        (tile (x / 4 / 16) (y / 4 / 16)) pixel (omega arith) (omega arith)
        (tile_fits (x / 4 / 16) (y / 4 / 16))
    ∙ ap (λ blue. x / 4 * 255 / 319 * 65536 + y / 4 * 255 / 199 * 256 + blue) (tile_of_frame x y)

red_close :
    (x : ℕ)
    → x < 1280
    → (x / 4 * 255 / 319 ≤ x * 255 / 1279 + 1) × (x * 255 / 1279 ≤ x / 4 * 255 / 319 + 1)
red_close x hx = (omega arith, omega arith)

green_close :
    (y : ℕ)
    → y < 800
    → (y / 4 * 255 / 199 ≤ y * 255 / 799 + 1) × (y * 255 / 799 ≤ y / 4 * 255 / 199 + 1)
green_close y hy = (omega arith, omega arith)

-- The channels of a word.
channels_lem :
    (word red green blue : ℕ)
    → word ≡ red * 65536 + green * 256 + blue
    → green < 256
    → blue < 256
    → (word % 256 ≡ blue) × (word / 256 % 256 ≡ green) × (word / 65536 ≡ red)
channels_lem word red green blue eq hg hb = (omega arith, omega arith, omega arith)

frame_picture-in :
    (frame : Words) (x y : ℕ)
    → x < 320
    → y < 200
    → frame_picture frame (y * 320 + x) ≡ frame_pixel x y
unfolding frame_picture
frame_picture-in frame x y hx hy =
    fill_rows-in 320 frame_pixel (omega arith) 200 0 frame x y (omega arith) hx (omega arith)
      (omega arith)

-- The same blue level, and red and green ones that differ by at most one.
abbrev pub Resembles : (shown direct : ℕ) → Type 0
Resembles shown direct =
    (shown % 256 ≡ direct % 256)
    × (shown / 65536 ≤ direct / 65536 + 1)
    × (direct / 65536 ≤ shown / 65536 + 1)
    × (shown / 256 % 256 ≤ direct / 256 % 256 + 1)
    × (direct / 256 % 256 ≤ shown / 256 % 256 + 1)

-- What the driver shows of the frame of native/driver-display-test.c is what native/fb-test.c draws
-- there, up to one level of red and green.
pub present-frame_picture :
    (frame screen buf : Words) (x y : ℕ)
    → x < 1280
    → y < 800
    → Resembles
        (present (frame_picture frame) screen (y * 1280 + x))
        (fb_picture buf (y * 1280 + x))
present-frame_picture frame screen buf x y hx hy =
    let shown : present (frame_picture frame) screen (y * 1280 + x) ≡ _ =
      present_scales (frame_picture frame) screen x y hx hy
      ∙ ap to_pixel (frame_picture-in frame (x / 4) (y / 4) (omega arith) (omega arith))
      ∙ to_pixel-frame_pixel x y hx hy in
    let direct = (fb_picture_lem buf x y (1280 * 800) hx hy (omega arith)).0 in
    let fits = tile_fits (x / 64) (y / 64) in
    let of_shown = channels_lem _ _ _ _ shown (omega arith) fits in
    let of_direct = channels_lem _ _ _ _ direct (omega arith) fits in
    let red = red_close x hx in
    let green = green_close y hy in
    (of_shown.0 ∙ sym of_direct.0, omega arith, omega arith, omega arith, omega arith)
