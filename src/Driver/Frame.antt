-- ===== src/Driver/Frame.antt =====
-- The frame loop of Win0DoomDeviceControl in driver/win0doom-display.c: 320 by 200 RGBA pixels,
-- each repeated four times in both directions, into the 1280 by 800 framebuffer.
-- A framebuffer and a source buffer are functions from an index of ULONGs; the pointers of the
-- source (`destination`, `source_row`) are offsets into them.
pub mod Pixel
pub mod Scale
use Prim.Native.Nat.{bit_and, bit_or}
use win0_doom.Shared.{ℕ, zero, suc, ◌+◌, ◌*◌, ◌/◌, ◌%◌, ◌^◌, ◌==◌, if◌then◌else◌}

abbrev pub frame_width : ℕ
frame_width = 320

abbrev pub frame_height : ℕ
frame_height = 200

abbrev pub frame_bytes : ℕ
frame_bytes = frame_width * frame_height * 4

abbrev pub display_width : ℕ
display_width = 1280

abbrev pub display_height : ℕ
display_height = 800

abbrev pub display_bytes : ℕ
display_bytes = 16 * 1024 * 1024

-- The value of a ULONG expression.
abbrev pub ulong : ℕ → ℕ
ulong x = x % 2 ^ 32

-- From the engine's byte order R, G, B, A to the 0x00RRGGBB of the display.
unfoldable pub to_pixel : ℕ → ℕ
to_pixel rgba =
    let red = bit_and rgba 0xff in
    let green = bit_and (rgba / 2 ^ 8) 0xff in
    let blue = bit_and (rgba / 2 ^ 16) 0xff in
    bit_or (bit_or (ulong (red * 2 ^ 16)) (ulong (green * 2 ^ 8))) blue

abbrev pub Words : Type 0
Words = ℕ → ℕ

abbrev pub store : Words → ℕ → ℕ → Words
store buf i v = λ j. if i == j then v else buf j

module _ (source : Words) where
  -- One source pixel at the offset `destination`. The offset of a row and the loop counters are
  -- far below 2 ^ 32.
  pub put_pixel : ℕ → ℕ → ℕ → Words → Words
  put_pixel destination source_row source_x buf =
      let pixel = to_pixel (source (source_row + source_x)) in
      let x = destination + ulong (source_x * 4) in
      store (store (store (store buf (x + 0) pixel) (x + 1) pixel) (x + 2) pixel) (x + 3) pixel

  -- The loop over source_x, with the rounds left.
  pub row_loop : ℕ → ℕ → ℕ → ℕ → Words → Words
  row_loop zero destination source_row x buf = buf
  row_loop (suc rounds) destination source_row x buf =
      row_loop rounds destination source_row (x + 1) (put_pixel destination source_row x buf)

  -- The loop over scale_y.
  pub scale_loop : ℕ → ℕ → ℕ → Words → Words
  scale_loop zero source_y scale_y buf = buf
  scale_loop (suc rounds) source_y scale_y buf = scale_loop rounds source_y (scale_y + 1) (
      row_loop frame_width (ulong ((source_y * 4 + scale_y) * display_width))
        (ulong (source_y * frame_width)) 0 buf)

  -- The loop over source_y.
  pub frame_loop : ℕ → ℕ → Words → Words
  frame_loop zero source_y buf = buf
  frame_loop (suc rounds) source_y buf =
      frame_loop rounds (source_y + 1) (scale_loop 4 source_y 0 buf)

  unfoldable pub present : Words → Words
  unfolding frame_loop scale_loop row_loop put_pixel
  present buf = frame_loop frame_height 0 buf
