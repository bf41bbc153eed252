-- ===== src/Probes/Pattern/Fill.antt =====
-- Which word each turn of the loops writes.
use win0_doom.Shared.{
  ℕ, zero, suc, ◌+◌, ◌*◌, ◌^◌, ◌≤◌, ◌<◌, ◌≡◌, ◌⊎◌, inl, refl, ap, ◌∙◌, arith, dec_lt,
}
use win0_doom.Driver.Frame.{Words, ulong}
use win0_doom.Probes.Pattern.{fill_row, fill_rows}

module _ (width : ℕ) (pixel : (x y : ℕ) → ℕ) where
  fill_row-out :
      (rounds x y row : ℕ) (buf : Words) (j : ℕ)
      → (j < row + x) ⊎ (row + x + rounds ≤ j)
      → fill_row width pixel rounds x y row buf j ≡ buf j
  unfolding fill_row
  fill_row-out zero x y row buf j h = refl
  fill_row-out (suc rounds) x y row buf j h =
      fill_row-out rounds (x + 1) y row _ j (omega arith) ∙ ground arith

  fill_row-in :
      (rounds x y row : ℕ) (buf : Words) (i : ℕ)
      → x ≤ i
      → i < x + rounds
      → fill_row width pixel rounds x y row buf (row + i) ≡ pixel i y
  unfolding fill_row
  fill_row-in zero x y row buf i lo hi = absurd (omega arith)
  fill_row-in (suc rounds) x y row buf i lo hi = elim (dec_lt x i) [
    | yes later ↦ fill_row-in rounds (x + 1) y row _ i (omega arith) (omega arith)
    | no here ↦
        let same : i ≡ x = omega arith in
        fill_row-out rounds (x + 1) y row _ (row + i) (inl (omega arith)) ∙ ground arith
  ]

  -- The products of the rows, for which `omega` takes them as they stand.
  rows_apart :
      (y rounds : ℕ)
      → ((y + 1) * width ≡ y * width + width)
        × ((y + suc rounds) * width ≡ y * width + width + rounds * width)
        × ((y + 1 + rounds) * width ≡ y * width + width + rounds * width)
  rows_apart y rounds = (grind arith, grind arith, grind arith)

  module _ (some_width : 0 < width) where
    pub fill_rows-out :
        (rounds y : ℕ) (buf : Words) (j : ℕ)
        → (y + rounds) * width ≤ 2 ^ 32
        → (j < y * width) ⊎ ((y + rounds) * width ≤ j)
        → fill_rows width pixel rounds y buf j ≡ buf j
    unfolding fill_rows
    fill_rows-out zero y buf j small h = refl
    fill_rows-out (suc rounds) y buf j small h =
        let (one, all, rest) = rows_apart y rounds in
        let row : ulong (y * width) ≡ y * width = omega arith in
        fill_rows-out rounds (y + 1) _ j (omega arith) (omega arith)
        ∙ fill_row-out width 0 y (ulong (y * width)) buf j (omega arith)

    -- A picture of `rounds` rows from row y on, at the place (i, k).
    pub fill_rows-in :
        (rounds y : ℕ) (buf : Words) (i k : ℕ)
        → (y + rounds) * width ≤ 2 ^ 32
        → i < width
        → y ≤ k
        → k < y + rounds
        → fill_rows width pixel rounds y buf (k * width + i) ≡ pixel i k
    unfolding fill_rows
    fill_rows-in zero y buf i k small hi lo up = absurd (omega arith)
    fill_rows-in (suc rounds) y buf i k small hi lo up = elim (dec_lt y k) [
      | yes later ↦
          let (one, all, rest) = rows_apart y rounds in
          fill_rows-in rounds (y + 1) _ i k (omega arith) hi (omega arith) (omega arith)
      | no here ↦
          let (one, all, rest) = rows_apart y rounds in
          let same : k ≡ y = omega arith in
          let row : ulong (y * width) ≡ y * width = omega arith in
          rw same (
            fill_rows-out rounds (y + 1) _ (y * width + i) (omega arith) (inl (omega arith))
            ∙ ap (λ r. fill_row width pixel width 0 y r buf (y * width + i)) row
            ∙ fill_row-in width 0 y (y * width) buf i (omega arith) (omega arith))
    ]
