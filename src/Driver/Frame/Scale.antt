-- ===== src/Driver/Frame/Scale.antt =====
-- Which source pixel each word of the framebuffer shows after a frame.
use win0_doom.Shared.{
  ℕ, zero, suc, ◌+◌, ◌-◌, ◌*◌, ◌/◌, ◌%◌, ◌<◌, ◌≤◌, ◌≡◌, refl, sym, ◌∙◌, ◌⊎◌, arith, ap, dec_lt,
}
use win0_doom.Driver.Frame.{
  Words, ulong, frame_width, frame_height, frame_bytes, display_width, display_height,
  display_bytes, to_pixel, put_pixel, row_loop, scale_loop, frame_loop, present,
}

module _ (source : Words) where
  put_pixel_hit :
      (d row x : ℕ) (buf : Words) (j : ℕ)
      → x < frame_width
      → d + 4 * x ≤ j
      → j < d + 4 * x + 4
      → put_pixel source d row x buf j ≡ to_pixel (source (row + x))
  unfolding put_pixel
  put_pixel_hit d row x buf j w lo hi = ground arith

  put_pixel_miss :
      (d row x : ℕ) (buf : Words) (j : ℕ)
      → x < frame_width
      → (j < d + 4 * x) ⊎ (d + 4 * x + 4 ≤ j)
      → put_pixel source d row x buf j ≡ buf j
  unfolding put_pixel
  put_pixel_miss d row x buf j w h = ground arith

  row_outside :
      (n d row x : ℕ) (buf : Words) (j : ℕ)
      → x + n ≤ frame_width
      → (j < d + 4 * x) ⊎ (d + 4 * (x + n) ≤ j)
      → row_loop source n d row x buf j ≡ buf j
  unfolding row_loop
  row_outside zero d row x buf j w h = refl
  row_outside (suc n) d row x buf j w h =
      row_outside n d row (x + 1) (put_pixel source d row x buf) j (omega arith) (omega arith)
      ∙ put_pixel_miss d row x buf j (omega arith) (omega arith)

  row_inside :
      (n d row x : ℕ) (buf : Words) (j : ℕ)
      → x + n ≤ frame_width
      → d + 4 * x ≤ j
      → j < d + 4 * (x + n)
      → row_loop source n d row x buf j ≡ to_pixel (source (row + (j - d) / 4))
  unfolding row_loop
  row_inside zero d row x buf j w lo hi = absurd (omega arith)
  row_inside (suc n) d row x buf j w lo hi = elim (dec_lt j (d + 4 * x + 4)) [
    | yes here ↦
        row_outside n d row (x + 1) (put_pixel source d row x buf) j (omega arith) (omega arith)
        ∙ put_pixel_hit d row x buf j (omega arith) lo here
        ∙ ap (λ k. to_pixel (source (row + k))) (omega arith)
    | no later ↦
        row_inside n d row (x + 1) (put_pixel source d row x buf) j (omega arith) (omega arith)
          (omega arith)
  ]

  -- The 1280 words of the display row `line` show one source row.
  line_outside :
      (y s : ℕ) (buf : Words) (j : ℕ)
      → y < frame_height
      → s < 4
      → (j < (y * 4 + s) * display_width) ⊎ ((y * 4 + s + 1) * display_width ≤ j)
      → row_loop source frame_width
          (ulong ((y * 4 + s) * display_width))
          (ulong (y * frame_width))
          0
          buf
          j
        ≡ buf j
  line_outside y s buf j hy hs h =
      row_outside frame_width (ulong ((y * 4 + s) * display_width)) (ulong (y * frame_width)) 0 buf
        j (omega arith) (omega arith)

  line_inside :
      (y s : ℕ) (buf : Words) (j : ℕ)
      → y < frame_height
      → s < 4
      → (y * 4 + s) * display_width ≤ j
      → j < (y * 4 + s + 1) * display_width
      → row_loop source frame_width
          (ulong ((y * 4 + s) * display_width))
          (ulong (y * frame_width))
          0
          buf
          j
        ≡ to_pixel (source (y * frame_width + j % display_width / 4))
  line_inside y s buf j hy hs lo hi =
      row_inside frame_width (ulong ((y * 4 + s) * display_width)) (ulong (y * frame_width)) 0 buf j
        (omega arith) (omega arith) (omega arith)
      ∙ ap (λ k. to_pixel (source k)) (omega arith)

  band_outside :
      (n y s : ℕ) (buf : Words) (j : ℕ)
      → y < frame_height
      → s + n ≤ 4
      → (j < (y * 4 + s) * display_width) ⊎ ((y * 4 + s + n) * display_width ≤ j)
      → scale_loop source n y s buf j ≡ buf j
  unfolding scale_loop
  band_outside zero y s buf j hy hs h = refl
  band_outside (suc n) y s buf j hy hs h =
      band_outside n y (s + 1) _ j hy (omega arith) (omega arith)
      ∙ line_outside y s buf j hy (omega arith) (omega arith)

  band_inside :
      (n y s : ℕ) (buf : Words) (j : ℕ)
      → y < frame_height
      → s + n ≤ 4
      → (y * 4 + s) * display_width ≤ j
      → j < (y * 4 + s + n) * display_width
      → scale_loop source n y s buf j ≡ to_pixel (source (y * frame_width + j % display_width / 4))
  unfolding scale_loop
  band_inside zero y s buf j hy hs lo hi = absurd (omega arith)
  band_inside (suc n) y s buf j hy hs lo hi = elim (dec_lt j ((y * 4 + s + 1) * display_width)) [
    | yes here ↦
        band_outside n y (s + 1) _ j hy (omega arith) (omega arith)
        ∙ line_inside y s buf j hy (omega arith) lo here
    | no later ↦ band_inside n y (s + 1) _ j hy (omega arith) (omega arith) (omega arith)
  ]

  frame_outside :
      (n y : ℕ) (buf : Words) (j : ℕ)
      → y + n ≤ frame_height
      → (j < y * 4 * display_width) ⊎ ((y + n) * 4 * display_width ≤ j)
      → frame_loop source n y buf j ≡ buf j
  unfolding frame_loop
  frame_outside zero y buf j hy h = refl
  frame_outside (suc n) y buf j hy h =
      frame_outside n (y + 1) _ j (omega arith) (omega arith)
      ∙ band_outside 4 y 0 buf j (omega arith) (omega arith) (omega arith)

  frame_inside :
      (n y : ℕ) (buf : Words) (j : ℕ)
      → y + n ≤ frame_height
      → y * 4 * display_width ≤ j
      → j < (y + n) * 4 * display_width
      → frame_loop source n y buf j
        ≡ to_pixel (source (j / display_width / 4 * frame_width + j % display_width / 4))
  unfolding frame_loop
  frame_inside zero y buf j hy lo hi = absurd (omega arith)
  frame_inside (suc n) y buf j hy lo hi = elim (dec_lt j ((y + 1) * 4 * display_width)) [
    | yes here ↦
        frame_outside n (y + 1) _ j (omega arith) (omega arith)
        ∙ band_inside 4 y 0 buf j (omega arith) (omega arith) (omega arith) (omega arith)
        ∙ ap (λ k. to_pixel (source (k * frame_width + j % display_width / 4))) (omega arith)
    | no later ↦ frame_inside n (y + 1) _ j (omega arith) (omega arith) (omega arith)
  ]

  -- After a frame the word at column x and row y of the 1280 by 800 display shows the source pixel
  -- at column x / 4 and row y / 4, channels swapped, whatever stood there before.
  pub present_scales :
      (buf : Words) (x y : ℕ)
      → x < display_width
      → y < display_height
      → present source buf (y * display_width + x) ≡ to_pixel (source (y / 4 * frame_width + x / 4))
  unfolding present
  present_scales buf x y hx hy =
      frame_inside frame_height 0 buf (y * display_width + x) (omega arith) (omega arith)
        (omega arith)
      ∙ ap (λ k. to_pixel (source k)) (omega arith)

  -- A frame writes no word from the end of the 1280 by 800 display on; all that it may write lies
  -- within the 16 MB that are mapped.
  pub present_bounds :
      (buf : Words) (j : ℕ)
      → display_width * display_height ≤ j
      → (present source buf j ≡ buf j) × (display_width * display_height * 4 ≤ display_bytes)
  unfolding present
  present_bounds buf j h =
      (frame_outside frame_height 0 buf j (omega arith) (omega arith), omega arith)

-- A frame reads only the 320 * 200 words that the length check of the input buffer guarantees: two
-- sources that agree on the words of those bytes give the same display.
pub present_reads :
    (source other : Words) (buf : Words) (bytes : ℕ)
    → frame_bytes ≤ bytes
    → ((i : ℕ) → 4 * i + 4 ≤ bytes → source i ≡ other i)
    → (j : ℕ) → present source buf j ≡ present other buf j
present_reads source other buf bytes fits same j =
    elim (dec_lt j (display_width * display_height)) [
      | yes inside ↦
          let x : ℕ = j % display_width in
          let y : ℕ = j / display_width in
          let at : j ≡ y * display_width + x = omega arith in
          rw at (
            present_scales source buf x y (omega arith) (omega arith)
            ∙ ap to_pixel (same (y / 4 * frame_width + x / 4) (omega arith))
            ∙ sym (present_scales other buf x y (omega arith) (omega arith)))
      | no outside ↦
          (present_bounds source buf j (omega arith)).0
          ∙ sym (present_bounds other buf j (omega arith)).0
    ]
