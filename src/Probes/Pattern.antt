-- ===== src/Probes/Pattern.antt =====
-- The test pictures: a gradient with a checkered blue channel. The loops of native/fb-test.c and
-- native/video-test.c draw 1280 by 800 words into a framebuffer, that of
-- native/driver-display-test.c a frame of 320 by 200 words for the driver.
pub mod Fill
pub mod Agree
use Prim.Native.Nat.{bit_and, bit_or, bit_xor}
use win0_doom.Shared.{ℕ, zero, suc, ◌+◌, ◌-◌, ◌*◌, ◌/◌, ◌^◌, ◌==◌, if◌then◌else◌}
use win0_doom.Driver.Frame.{Words, store, ulong}

-- ((x >> shift) ^ (y >> shift)) & 1
abbrev pub checker : (shift x y : ℕ) → ℕ
checker shift x y = bit_and (bit_xor (x / 2 ^ shift) (y / 2 ^ shift)) 1

-- (at * 255) / last
abbrev pub level : (at last : ℕ) → ℕ
level at last = ulong (at * 255) / last

abbrev pub blue_of : (checker : ℕ) → ℕ
blue_of checker = if checker == 0 then 0x20 else 0xd0

-- (red << 16) | (green << 8) | blue
pub screen_pixel : (x y : ℕ) → ℕ
screen_pixel x y =
    let red = level x (1280 - 1) in
    let green = level y (800 - 1) in
    bit_or (bit_or (ulong (red * 2 ^ 16)) (ulong (green * 2 ^ 8))) (blue_of (checker 6 x y))

-- red | (green << 8) | (blue << 16) | 0xff000000UL
pub frame_pixel : (x y : ℕ) → ℕ
frame_pixel x y =
    let red = level x (320 - 1) in
    let green = level y (200 - 1) in
    bit_or (bit_or (bit_or red (ulong (green * 2 ^ 8))) (ulong (blue_of (checker 4 x y) * 2 ^ 16)))
      0xff000000

module _ (width : ℕ) (pixel : (x y : ℕ) → ℕ) where
  -- The loop over x, with the rounds left; `row` is the offset of the row.
  pub fill_row : (rounds x y row : ℕ) → Words → Words
  fill_row zero x y row buf = buf
  fill_row (suc rounds) x y row buf =
      fill_row rounds (x + 1) y row (store buf (row + x) (pixel x y))

  -- The loop over y.
  pub fill_rows : (rounds y : ℕ) → Words → Words
  fill_rows zero y buf = buf
  fill_rows (suc rounds) y buf =
      fill_rows rounds (y + 1) (fill_row width 0 y (ulong (y * width)) buf)

-- native/fb-test.c
pub fb_picture : Words → Words
unfolding fill_rows fill_row screen_pixel
fb_picture buf = fill_rows 1280 screen_pixel 800 0 buf

-- native/video-test.c
pub video_picture : Words → Words
unfolding fill_rows fill_row screen_pixel
video_picture buf = fill_rows 1280 screen_pixel 800 0 buf

-- native/driver-display-test.c
pub frame_picture : Words → Words
unfolding fill_rows fill_row frame_pixel
frame_picture buf = fill_rows 320 frame_pixel 200 0 buf
