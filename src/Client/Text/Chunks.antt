-- ===== src/Client/Text/Chunks.antt =====
-- native_print shows the whole text, in pieces that fit its buffer.
use win0_doom.Shared.{
  ℕ, zero, suc, ◌+◌, ◌%◌, ◌<◌, ◌≤◌, ◌≡◌, refl, ap, ◌∙◌, List, [], ◌∷◌, ◌++◌, Option, some, arith,
  length,
}
use win0_doom.Client.Text.{fill, print_loop, native_print, print_text}

-- The bytes of a text as words.
abbrev pub widened : List ℕ → List ℕ
widened [] = []
widened (c ∷ text) = c % 256 ∷ widened text

abbrev pub shown_text : List (List ℕ) → List ℕ
shown_text [] = []
shown_text (w ∷ ws) = w ++ shown_text ws

-- Each piece is not empty and has at most `limit` words.
abbrev pub PiecesFit : ℕ → List (List ℕ) → Type 0
PiecesFit limit [] = Unit
PiecesFit limit (w ∷ ws) = ((0 < length w) × (length w ≤ limit)) × PiecesFit limit ws

fill-splits :
    (limit count : ℕ) (text : List ℕ)
    → let f = fill limit count text in
      (f.words ++ widened f.rest ≡ widened text)
      × (length f.words + length f.rest ≡ length text)
      × (count ≤ limit → count + length f.words ≤ limit)
unfolding fill
fill-splits limit count [] = (refl, refl, ground arith)
fill-splits limit count (c ∷ text) = ground (arith, fill-splits limit (count + 1) text)

fill-progress :
    (limit : ℕ) (c : ℕ) (text : List ℕ) → 0 < limit → 0 < length (fill limit 0 (c ∷ text)).words
unfolding fill
fill-progress limit c text h = ground arith

print_loop_shows :
    (rounds limit : ℕ) (text : List ℕ)
    → 0 < limit
    → length text < rounds
    → (shown : List (List ℕ)) × (print_loop rounds limit text ≡ some shown)
      × (shown_text shown ≡ widened text)
      × PiecesFit limit shown
unfolding print_loop
print_loop_shows zero limit text pos h = absurd (omega arith)
print_loop_shows (suc rounds) limit [] pos h = ([], refl, refl, tt)
print_loop_shows (suc rounds) limit (c ∷ text) pos h =
    let (same, count, fits) = fill-splits limit 0 (c ∷ text) in
    let some_words = fill-progress limit c text pos in
    let (shown, runs, whole, each) =
      print_loop_shows rounds limit (fill limit 0 (c ∷ text)).rest pos (omega arith) in
    (
      (fill limit 0 (c ∷ text)).words ∷ shown,
      rw runs,
      ap (◌++◌ (fill limit 0 (c ∷ text)).words) whole ∙ same,
      ((some_words, omega (arith, fits (omega arith))), each),
    )

-- What a printer with pieces of at most `limit` words shows of a text.
abbrev pub Shows : ℕ → List ℕ → Option (List (List ℕ)) → Type 0
Shows limit text result =
    (shown : List (List ℕ)) × (result ≡ some shown)
    × (shown_text shown ≡ widened text)
    × PiecesFit limit shown

-- For every text native_print and print_text end, and what they show, piece after piece, is the
-- whole text byte for byte; each piece has between 1 and 238, or 158, words, which leaves room for
-- the terminator in the buffers of 240 and 160 words.
pub native_print-Shows :
    (text : List ℕ) → Shows 238 text (native_print text) × Shows 158 text (print_text text)
unfolding native_print print_text
native_print-Shows text = (
  print_loop_shows (length text + 1) 238 text (omega arith) (omega arith),
  print_loop_shows (length text + 1) 158 text (omega arith) (omega arith),
)
