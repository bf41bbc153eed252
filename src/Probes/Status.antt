-- ===== src/Probes/Status.antt =====
-- print_status of native/fb-test.c, native/video-test.c and native/driver-display-test.c: a prefix and
-- a status in hexadecimal, put into a buffer of 96 words. The prefix is the list of its words before
-- the terminator; `none` stands for a write behind the buffer.
pub mod Text
use Prim.Native.Nat.{bit_and}
use win0_doom.Shared.{
  ℕ, zero, suc, ◌+◌, ◌-◌, ◌*◌, ◌/◌, ◌%◌, ◌^◌, List, [], ◌∷◌, ◌++◌, Option, none, some,
  if◌then◌else◌, ltb, length,
}

-- The words put into the buffer so far: their number is the index.
abbrev pub Line : Type 0
Line = List ℕ

abbrev pub buffer_words : ℕ
buffer_words = 96

infixl 5 ◌>>=◌
abbrev pub ◌>>=◌ : Option Line → (Line → Option Line) → Option Line
none >>= f = none
some line >>= f = f line

-- buffer[index++] = word
pub put : (word : ℕ) → Line → Option Line
put word line = if ltb (length line) buffer_words then some (line ++ word ∷ []) else none

-- while (prefix[index] != L'\0')
pub put_prefix : List ℕ → Line → Option Line
unfolding put
put_prefix [] line = some line
put_prefix (word ∷ prefix) line = do line ← put word line; put_prefix prefix line

-- digit < 10 ? L'0' + digit : L'a' + digit - 10
abbrev pub digit_word : ℕ → ℕ
digit_word digit = if ltb digit 10 then b'0' + digit else b'a' + digit - 10

-- for (shift = 28; shift >= 0; shift -= 4), with the rounds left.
pub put_digits : (rounds value : ℕ) → Line → Option Line
unfolding put
put_digits zero value line = some line
put_digits (suc rounds) value line = do
  line ← put (digit_word (bit_and (value / 2 ^ (4 * rounds)) 0xf)) line
  put_digits rounds value line

-- What NtDisplayString shows: the words before the terminator, once that is in the buffer.
pub print_status : (prefix : List ℕ) → (status : ℕ) → Option Line
unfolding put put_prefix put_digits
print_status prefix status = do
  line ← put_prefix prefix []
  line ← put b'0' line
  line ← put b'x' line
  line ← put_digits 8 (status % 2 ^ 32) line
  line ← put 13 line
  line ← put 10 line
  _ ← put 0 line
  some line

-- native/video-test.c, with one index for both loops.
unfoldable pub video_print_status : (prefix : List ℕ) → (status : ℕ) → Option Line
video_print_status = print_status

-- native/driver-display-test.c, likewise.
unfoldable pub display_print_status : (prefix : List ℕ) → (status : ℕ) → Option Line
display_print_status = print_status
