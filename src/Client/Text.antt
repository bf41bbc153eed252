-- ===== src/Client/Text.antt =====
-- native_print and native_print_hex of native/win0-doom.c, print_text and print_hex of
-- native/input-probe.c, which differ in the size of the buffer and of the number only.
-- A C string is the list of its bytes before the terminator; what NtDisplayString shows is the
-- list of the words before it in the buffer.
pub mod Chunks
pub mod Hex
use Prim.Native.Nat.{bit_and}
use mathlib.Core.Option
use win0_doom.Shared.{
  ℕ, zero, suc, ◌+◌, ◌-◌, ◌/◌, ◌%◌, ◌^◌, List, [], ◌∷◌, Option, none, some, true, false, ltb,
  get_or, set, length,
}

-- The words put into the buffer, and the text left.
pub record Filled : Type 0 where
  pub words : List ℕ
  pub rest : List ℕ

-- The inner loop: `limit` is two less than the buffer's length.
pub fill : (limit count : ℕ) → List ℕ → Filled
fill limit count [] = record { words = []; rest = [] }
fill limit count (c ∷ text) = elim (ltb count limit) [
  | false ↦ record { words = []; rest = c ∷ text }
  | true ↦
      let more = fill limit (count + 1) text in
      record { words = c % 256 ∷ more.words; rest = more.rest }
]

-- The outer loop, with the rounds left; `none` stands for rounds that run out. The result is what
-- each call of NtDisplayString shows.
pub print_loop : (rounds limit : ℕ) → List ℕ → Option (List (List ℕ))
print_loop zero limit text = none
print_loop (suc rounds) limit [] = some []
print_loop (suc rounds) limit (c ∷ text) =
    let filled = fill limit 0 (c ∷ text) in
    Option.map (λ shown. filled.words ∷ shown) (print_loop rounds limit filled.rest)

pub native_print : List ℕ → Option (List (List ℕ))
native_print text = print_loop (length text + 1) 238 text

pub print_text : List ℕ → Option (List (List ℕ))
print_text text = print_loop (length text + 1) 158 text

-- "0123456789abcdef"
abbrev pub hex_digits : List ℕ
hex_digits =
    b'0' ∷ b'1' ∷ b'2' ∷ b'3' ∷ b'4' ∷ b'5' ∷ b'6' ∷ b'7' ∷ b'8' ∷ b'9' ∷ b'a' ∷ b'b' ∷ b'c' ∷ b'd'
    ∷ b'e' ∷ b'f' ∷ []

-- for (index = 1 + rounds; index >= 2; --index). The masked value is an index of the table.
pub hex_loop : (rounds value : ℕ) → List ℕ → List ℕ
hex_loop zero value text = text
hex_loop (suc rounds) value text =
    hex_loop rounds (value / 2 ^ 4)
      (set text (rounds + 2) (get_or hex_digits (bit_and value 0xf) 0))

-- The text that native_print_hex hands to native_print.
pub print_hex_text : ℕ → List ℕ
unfolding hex_loop
print_hex_text value =
    hex_loop 8 value (b'0' ∷ b'x' ∷ b'0' ∷ b'0' ∷ b'0' ∷ b'0' ∷ b'0' ∷ b'0' ∷ b'0' ∷ b'0' ∷ [])

pub native_print_hex : ℕ → Option (List (List ℕ))
native_print_hex value = native_print (print_hex_text value)

-- The text that print_hex of native/input-probe.c hands to print_text.
pub probe_hex_text : ℕ → List ℕ
unfolding hex_loop
probe_hex_text value = hex_loop 16 value (
    b'0' ∷ b'x' ∷ b'0' ∷ b'0' ∷ b'0' ∷ b'0' ∷ b'0' ∷ b'0' ∷ b'0' ∷ b'0' ∷ b'0' ∷ b'0' ∷ b'0' ∷ b'0'
    ∷ b'0' ∷ b'0' ∷ b'0' ∷ b'0' ∷ [])
