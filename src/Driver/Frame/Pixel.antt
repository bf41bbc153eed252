-- ===== src/Driver/Frame/Pixel.antt =====
-- The channel swap of one pixel.
use win0_doom.Shared.{ℕ, ◌+◌, ◌*◌, ◌/◌, ◌%◌, ◌^◌, ◌<◌, ◌≡◌, arith}
use win0_doom.Shared.Bits.{bit_or_disjoint, bit_and_255}
use win0_doom.Driver.Frame.{to_pixel}

-- The masks and shifts as arithmetic.
pub to_pixel_lem : (w : ℕ) → to_pixel w ≡ w % 256 * 65536 + w / 256 % 256 * 256 + w / 65536 % 256
unfolding to_pixel
to_pixel_lem w =
    let r = bit_and_255 w in
    let g = bit_and_255 (w / 2 ^ 8) in
    let b = bit_and_255 (w / 2 ^ 16) in
    rw (r, g, b)
      (ground (
        arith,
        bit_or_disjoint 16 (w % 256) (w / 256 % 256 * 256),
        bit_or_disjoint 8 (w % 256 * 256 + w / 256 % 256) (w / 65536 % 256),
      ))

-- For every ULONG, the display word is below 2 ^ 24, has the red, green and blue bytes of the
-- engine's word in reverse order, and swapping it again gives back all but the alpha byte.
pub to_pixel_channels :
    (w : ℕ)
    → (to_pixel w < 2 ^ 24)
      × (to_pixel w / 65536 ≡ w % 256)
      × (to_pixel w / 256 % 256 ≡ w / 256 % 256)
      × (to_pixel w % 256 ≡ w / 65536 % 256)
      × (to_pixel (to_pixel w) ≡ w % 2 ^ 24)
to_pixel_channels w = omega (arith, to_pixel_lem w, to_pixel_lem (to_pixel w))
