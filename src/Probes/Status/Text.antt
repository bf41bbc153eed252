-- ===== src/Probes/Status/Text.antt =====
-- The line of print_status, and when it fits the buffer.
use Prim.Native.Nat.{bit_and}
use win0_doom.Shared.{
  ℕ, zero, suc, ◌+◌, ◌*◌, ◌/◌, ◌%◌, ◌^◌, ◌≤◌, ◌<◌, ◌≡◌, refl, sym, ap, ap₂, ◌∙◌, List, [], ◌∷◌,
  ◌++◌, Option, none, some, arith, length, get_or, true, dec_lt, dec_le, leb, if◌then◌else◌, ◌==◌,
  ==_iff, append-nil, append_assoc, length-append,
}
use win0_doom.Shared.Bits.{bit_and_15, passes_below, passes_below_at}
use win0_doom.Client.Text.{hex_digits, print_hex_text}
use win0_doom.Client.Text.Hex.{digit_of, digits_of, print_hex_text_digits}
use win0_doom.Probes.Status.{◌>>=◌, Line, put, put_prefix, digit_word, put_digits, print_status}

-- The digits that put_digits puts.
abbrev digits : (rounds value : ℕ) → List ℕ
digits zero value = []
digits (suc rounds) value =
    digit_word (bit_and (value / 2 ^ (4 * rounds)) 0xf) ∷ digits rounds value

put_fits : (word : ℕ) (line : Line) → length line < 96 → put word line ≡ some (line ++ word ∷ [])
unfolding put
put_fits word line h = ground arith

put_prefix_fits :
    (words line : List ℕ)
    → length line + length words ≤ 96
    → put_prefix words line ≡ some (line ++ words)
unfolding put_prefix
put_prefix_fits [] line h = ap some (sym (append-nil line))
put_prefix_fits (w ∷ words) line h = rw (put_fits w line (omega arith)) (
    put_prefix_fits words (line ++ w ∷ []) (omega (arith, length-append line (w ∷ [])))
    ∙ ap some (append_assoc line (w ∷ []) words))

put_digits_fits :
    (rounds value : ℕ) (line : Line)
    → length line + rounds ≤ 96
    → put_digits rounds value line ≡ some (line ++ digits rounds value)
unfolding put_digits
put_digits_fits zero value line h = ap some (sym (append-nil line))
put_digits_fits (suc rounds) value line h =
    let word = digit_word (bit_and (value / 2 ^ (4 * rounds)) 0xf) in
    rw (put_fits word line (omega arith)) (
      put_digits_fits rounds value (line ++ word ∷ [])
        (omega (arith, length-append line (word ∷ [])))
      ∙ ap some (append_assoc line (word ∷ []) (digits rounds value)))

-- That a continuation fails on every line of some length.
abbrev FailsAt : ℕ → (Line → Option Line) → Type 0
FailsAt n after = (line : Line) → length line ≡ n → after line ≡ none

put-FailsAt :
    (word : ℕ) (n : ℕ) (after : Line → Option Line)
    → FailsAt (suc n) after
    → FailsAt n (λ line. put word line >>= after)
unfolding put
put-FailsAt word n after fails line here = elim (dec_lt (length line) 96) [
  | yes fits ↦
      rw (put_fits word line fits)
        (fails (line ++ word ∷ []) (omega (arith, length-append line (word ∷ []))))
  | no full ↦ let closed : put word line ≡ none = ground arith in rw closed refl
]

put_full : (word : ℕ) (line : Line) → 96 ≤ length line → put word line ≡ none
unfolding put
put_full word line h = ground arith

-- The computed digit is the one of the table.
digit_table : passes_below (λ n. digit_word n == get_or hex_digits n 0) 16 ≡ true
unfolding passes_below
digit_table = refl

digit_word-digit_of : (value : ℕ) → digit_word (bit_and value 0xf) ≡ digit_of value
digit_word-digit_of value =
    rw (bit_and_15 value)
      ((==_iff _ _).0 (passes_below_at _ 16 (value % 16) digit_table (omega arith)))

digits-digits_of : (rounds value : ℕ) → digits rounds value ≡ digits_of rounds value
digits-digits_of zero value = refl
digits-digits_of (suc rounds) value =
    ap₂ ◌∷◌ (digit_word-digit_of (value / 2 ^ (4 * rounds))) (digits-digits_of rounds value)

bind_assoc :
    (first : Option Line) (f g : Line → Option Line)
    → (first >>= f) >>= g ≡ first >>= λ line. f line >>= g
bind_assoc none f g = refl
bind_assoc (some line) f g = refl

put_digits-FailsAt :
    (rounds value n : ℕ) (after : Line → Option Line)
    → FailsAt (n + rounds) after
    → FailsAt n (λ line. put_digits rounds value line >>= after)
unfolding put_digits
put_digits-FailsAt zero value n after fails line here = fails line (omega arith)
put_digits-FailsAt (suc rounds) value n after fails line here =
    bind_assoc (put _ line) (put_digits rounds value) after
    ∙ put-FailsAt _ n (λ line. put_digits rounds value line >>= after)
        (put_digits-FailsAt rounds value (suc n) after
          (λ line here. fails line (here ∙ omega arith)))
        line here

put_prefix-FailsAt :
    (words : List ℕ) (n : ℕ) (after : Line → Option Line)
    → FailsAt (n + length words) after
    → FailsAt n (λ line. put_prefix words line >>= after)
unfolding put_prefix
put_prefix-FailsAt [] n after fails line here = fails line (omega arith)
put_prefix-FailsAt (w ∷ words) n after fails line here =
    bind_assoc (put w line) (put_prefix words) after
    ∙ put-FailsAt w n (λ line. put_prefix words line >>= after)
        (put_prefix-FailsAt words (suc n) after (λ line here. fails line (here ∙ omega arith))) line
        here

-- The pieces of the line, put together.
line_pieces :
    (prefix hex : List ℕ)
    → prefix ++ b'0' ∷ [] ++ b'x' ∷ [] ++ hex ++ 13 ∷ [] ++ 10 ∷ []
      ≡ prefix ++ (b'0' ∷ b'x' ∷ hex) ++ 13 ∷ 10 ∷ []
line_pieces prefix hex =
    append_assoc (prefix ++ b'0' ∷ [] ++ b'x' ∷ [] ++ hex) (13 ∷ []) (10 ∷ [])
    ∙ ap (λ line. line ++ 13 ∷ 10 ∷ [])
        (append_assoc (prefix ++ b'0' ∷ []) (b'x' ∷ []) hex
          ∙ append_assoc prefix (b'0' ∷ []) (b'x' ∷ hex))

fits :
    (prefix : List ℕ) (status : ℕ)
    → length prefix ≤ 83
    → print_status prefix status ≡ some (prefix ++ print_hex_text (status % 2 ^ 32) ++ 13 ∷ 10 ∷ [])
unfolding print_status
fits prefix status h =
    let text : b'0' ∷ b'x' ∷ digits 8 (status % 2 ^ 32) ≡ print_hex_text (status % 2 ^ 32) =
      ap (λ hex. b'0' ∷ b'x' ∷ hex) (digits-digits_of 8 (status % 2 ^ 32))
      ∙ sym (print_hex_text_digits (status % 2 ^ 32)) in
    let l0 = prefix ++ b'0' ∷ [] in
    let l1 = l0 ++ b'x' ∷ [] in
    let hex = digits 8 (status % 2 ^ 32) in
    let l2 = l1 ++ hex in
    let l3 = l2 ++ 13 ∷ [] in
    let n0 = length-append prefix (b'0' ∷ []) in
    let n1 = length-append l0 (b'x' ∷ []) in
    let n2 = length-append l1 hex in
    let n3 = length-append l2 (13 ∷ []) in
    let n4 = length-append l3 (10 ∷ []) in
    rw
      (
        put_prefix_fits prefix [] (omega arith),
        put_fits b'0' prefix (omega arith),
        put_fits b'x' l0 (omega arith),
        put_digits_fits 8 (status % 2 ^ 32) l1 (omega arith),
        put_fits 13 l2 (omega arith),
        put_fits 10 l3 (omega arith),
        put_fits 0 (l3 ++ 10 ∷ []) (omega arith),
      )
      (ap some (line_pieces prefix hex ∙ ap (λ text. prefix ++ text ++ 13 ∷ 10 ∷ []) text))

overruns : (prefix : List ℕ) (status : ℕ) → 83 < length prefix → print_status prefix status ≡ none
unfolding print_status
overruns prefix status h =
    put_prefix-FailsAt prefix 0 _
      (put-FailsAt _ _ _ (
        put-FailsAt _ _ _ (
          put_digits-FailsAt 8 (status % 2 ^ 32) _ _ (
            put-FailsAt 13 _ _
              (put-FailsAt 10 _ _ (λ line here. rw (put_full 0 line (omega arith)) refl))))))
      [] refl

-- For every status, a prefix of at most 83 words is shown, followed by the text that
-- native_print_hex makes of the status and the end of the line; a longer one makes print_status write
-- behind its buffer.
pub print_status_lem :
    (prefix : List ℕ) (status : ℕ)
    → print_status prefix status ≡ (
        if leb (length prefix) 83
        then some (prefix ++ print_hex_text (status % 2 ^ 32) ++ 13 ∷ 10 ∷ [])
        else none)
print_status_lem prefix status = elim (dec_le (length prefix) 83) [
  | yes h ↦ ground (arith, fits prefix status h)
  | no h ↦ ground (arith, overruns prefix status (omega arith))
]
