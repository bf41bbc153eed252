-- ===== src/Client/Text/Hex.antt =====
-- The text of a status value.
use win0_doom.Shared.{
  ℕ, zero, suc, ◌+◌, ◌-◌, ◌*◌, ◌/◌, ◌%◌, ◌^◌, ◌<◌, ◌≡◌, refl, List, [], ◌∷◌, arith, ltb, length,
  get_or, if◌then◌else◌, drop, take, true, ◌==◌, ==_iff,
}
use Prim.Native.Nat.{bit_and}
use win0_doom.Shared.Bits.{bit_and_15, passes_below, passes_below_at}
use win0_doom.Client.Text.{hex_digits, print_hex_text, probe_hex_text}

-- The value of a hexadecimal digit, and of a row of them.
abbrev pub digit_value : ℕ → ℕ
digit_value c = if ltb c b'a' then c - b'0' else c + 10 - b'a'

abbrev pub hex_value : ℕ → List ℕ → ℕ
hex_value acc [] = acc
hex_value acc (c ∷ cs) = hex_value (acc * 16 + digit_value c) cs

-- A digit of the table has its index for its value.
nibble_table : passes_below (λ n. digit_value (get_or hex_digits n 0) == n) 16 ≡ true
unfolding passes_below
nibble_table = refl

pub nibble : (n : ℕ) → n < 16 → digit_value (get_or hex_digits n 0) ≡ n
nibble n h = (==_iff _ n).0 (passes_below_at _ 16 n nibble_table h)

pub nibble_of : (value : ℕ) → digit_value (get_or hex_digits (bit_and value 0xf) 0) ≡ value % 16
nibble_of value = rw (bit_and_15 value) (nibble (value % 16) (omega arith))

-- For every ULONG the text is "0x" and eight digits, which read in base 16 are the value.
pub print_hex_text_reads :
    (value : ℕ)
    → value < 2 ^ 32
    → (take 2 (print_hex_text value) ≡ b'0' ∷ b'x' ∷ [])
      × (length (print_hex_text value) ≡ 10)
      × (hex_value 0 (drop 2 (print_hex_text value)) ≡ value)
unfolding print_hex_text
print_hex_text_reads value h = (refl, refl, simp nibble_of (omega arith))

-- The digit of the table that stands for the last four bits.
abbrev pub digit_of : ℕ → ℕ
digit_of value = get_or hex_digits (bit_and value 0xf) 0

abbrev pub digits_of : (rounds value : ℕ) → List ℕ
digits_of zero value = []
digits_of (suc rounds) value = digit_of (value / 2 ^ (4 * rounds)) ∷ digits_of rounds value

pub print_hex_text_digits : (value : ℕ) → print_hex_text value ≡ b'0' ∷ b'x' ∷ digits_of 8 value
unfolding print_hex_text
print_hex_text_digits value =
    let d2 : value / 16 / 16 ≡ value / 2 ^ 8 = omega arith in
    let d3 : value / 16 / 16 / 16 ≡ value / 2 ^ 12 = omega arith in
    let d4 : value / 16 / 16 / 16 / 16 ≡ value / 2 ^ 16 = omega arith in
    let d5 : value / 16 / 16 / 16 / 16 / 16 ≡ value / 2 ^ 20 = omega arith in
    let d6 : value / 16 / 16 / 16 / 16 / 16 / 16 ≡ value / 2 ^ 24 = omega arith in
    let d7 : value / 16 / 16 / 16 / 16 / 16 / 16 / 16 ≡ value / 2 ^ 28 = omega arith in
    let d0 : value / 1 ≡ value = omega arith in rw (d7, d6, d5, d4, d3, d2, d0) refl

-- For every ULONG_PTR the text is "0x" and sixteen digits, which read in base 16 are the value.
pub probe_hex_text_reads :
    (value : ℕ)
    → value < 2 ^ 64
    → (take 2 (probe_hex_text value) ≡ b'0' ∷ b'x' ∷ [])
      × (length (probe_hex_text value) ≡ 18)
      × (hex_value 0 (drop 2 (probe_hex_text value)) ≡ value)
unfolding probe_hex_text
probe_hex_text_reads value h = (refl, refl, simp nibble_of (omega arith))
