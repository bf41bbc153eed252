-- ===== src/Shared/Bits.antt =====
-- Masks, shifts and disjoint fields of C words as arithmetic. The native bit operations stand for
-- a recursion on binary digits that counts its rounds; the count is dropped first.
use Prim.Native.Nat.{
  ℕ, zero, suc, ◌+◌, ◌*◌, ◌/◌, ◌%◌, ◌^◌, ◌≤◌, ◌<◌, min, max, bit_and, bit_or, bit_xor,
  bit_xor-bitwise, differ, digits, bitwise, bit_and-bitwise, bit_or-bitwise,
}
use mathlib.Core.Path.{◌≡◌, refl, sym, ap, ◌∙◌}
use native.Mathlib.Nat.{pow-suc, le_refl}
use mathlib.Core.Bool.{Bool, true, ◌&&◌}
use native.Mathlib.Omega.{arith}

module _ (z : ℕ → ℕ) (f : ℕ → ℕ → ℕ) where
  digits-zero : (n b : ℕ) → digits z f n zero b ≡ z b
  digits-zero zero b = refl
  digits-zero (suc n) b = refl

  -- Any two counts that reach the number's size give one result.
  digits_count : (n m a b : ℕ) → a ≤ n → a ≤ m → digits z f n a b ≡ digits z f m a b
  digits_count n m zero b p q = digits-zero n b ∙ sym (digits-zero m b)
  digits_count zero m (suc a) b p q = absurd (omega arith)
  digits_count (suc n) zero (suc a) b p q = absurd (omega arith)
  digits_count (suc n) (suc m) (suc a) b p q =
      omega (arith, digits_count n m (suc a / 2) (b / 2) (omega arith) (omega arith))

  bitwise_round :
      (a b : ℕ)
      → bitwise z f (suc a) b ≡ bitwise z f (suc a / 2) (b / 2) * 2 + f (suc a % 2) (b % 2)
  bitwise_round a b =
      omega (arith, digits_count a (suc a / 2) (suc a / 2) (b / 2) (omega arith) (le_refl _))

-- The lowest binary digit of each operation, and the rest.
pub bit_or_digit : (a b : ℕ) → bit_or a b ≡ bit_or (a / 2) (b / 2) * 2 + max (a % 2) (b % 2)
bit_or_digit zero b = simp bit_or-bitwise (omega arith)
bit_or_digit (suc a) b = simp bit_or-bitwise (bitwise_round (λ y. y) max a b)

pub bit_and_digit : (a b : ℕ) → bit_and a b ≡ bit_and (a / 2) (b / 2) * 2 + min (a % 2) (b % 2)
bit_and_digit zero b = simp bit_and-bitwise (omega arith)
bit_and_digit (suc a) b = simp bit_and-bitwise (bitwise_round (λ y. 0) min a b)

-- With a bound on the number of rounds: `bound` is at least `a`.
bit_and_none : (bound a : ℕ) → a ≤ bound → bit_and a 0 ≡ 0
bit_and_none bound zero h = refl
bit_and_none zero (suc a) h = absurd (omega arith)
bit_and_none (suc bound) (suc a) h =
    omega (arith, bit_and_digit (suc a) 0, bit_and_none bound (suc a / 2) (omega arith))

bit_or_none : (bound a : ℕ) → a ≤ bound → bit_or a 0 ≡ a
bit_or_none bound zero h = refl
bit_or_none zero (suc a) h = absurd (omega arith)
bit_or_none (suc bound) (suc a) h =
    omega (arith, bit_or_digit (suc a) 0, bit_or_none bound (suc a / 2) (omega arith))

pub bit_and-zero : (a : ℕ) → bit_and a 0 ≡ 0
bit_and-zero a = bit_and_none a a (le_refl a)

pub bit_or-zero : (a : ℕ) → bit_or a 0 ≡ a
bit_or-zero a = bit_or_none a a (le_refl a)

-- `(q << k) | r` is a sum where `r` has at most `k` digits.
pub bit_or_disjoint : (k q r : ℕ) → r < 2 ^ k → bit_or (q * 2 ^ k) r ≡ q * 2 ^ k + r
bit_or_disjoint zero q r h = ground (arith, bit_or-zero q)
bit_or_disjoint (suc k) q r h =
    let double : q * 2 ^ suc k ≡ 2 * (q * 2 ^ k) =
      omega (arith, ap (λ (t : ℕ). q * t) (pow-suc 2 k)) in
    ground (arith, double, bit_or_digit (q * 2 ^ suc k) r, pow-suc 2 k, bit_or_disjoint k q (r / 2))

-- `r | (q << k)` likewise.
pub bit_or_disjoint_low : (k q r : ℕ) → r < 2 ^ k → bit_or r (q * 2 ^ k) ≡ q * 2 ^ k + r
bit_or_disjoint_low zero q r h =
    let none : r ≡ 0 = omega arith in rw none (simp bit_or-bitwise (omega arith))
bit_or_disjoint_low (suc k) q r h =
    let double : q * 2 ^ suc k ≡ 2 * (q * 2 ^ k) =
      omega (arith, ap (λ (t : ℕ). q * t) (pow-suc 2 k)) in
    ground
      (arith, double, bit_or_digit r (q * 2 ^ suc k), pow-suc 2 k, bit_or_disjoint_low k q (r / 2))

differ_digits : (a b : ℕ) → a < 2 → b < 2 → differ a b ≡ (a + b) % 2
differ_digits zero zero ha hb = refl
differ_digits zero (suc zero) ha hb = refl
differ_digits (suc zero) zero ha hb = refl
differ_digits (suc zero) (suc zero) ha hb = refl
differ_digits zero (suc (suc b)) ha hb = absurd (omega arith)
differ_digits (suc zero) (suc (suc b)) ha hb = absurd (omega arith)
differ_digits (suc (suc a)) b ha hb = absurd (omega arith)

-- The lowest digit of an exclusive or: the parity of the sum.
pub bit_xor_parity : (a b : ℕ) → bit_xor a b % 2 ≡ (a + b) % 2
bit_xor_parity zero b = simp bit_xor-bitwise (omega arith)
bit_xor_parity (suc a) b = simp bit_xor-bitwise (
    omega (
      arith,
      bitwise_round (λ y. y) differ a b,
      differ_digits (suc a % 2) (b % 2) (omega arith) (omega arith),
    ))

-- `a & 0xf`, `a & 0xff`: the remainder.
pub bit_and_1 : (a : ℕ) → bit_and a 1 ≡ a % 2
bit_and_1 a = omega (arith, bit_and_digit a 1, bit_and-zero (a / 2))

pub bit_and_2 : (a : ℕ) → bit_and a 2 ≡ a / 2 % 2 * 2
bit_and_2 a = omega (arith, bit_and_digit a 2, bit_and_1 (a / 2))

bit_and_3 : (a : ℕ) → bit_and a 3 ≡ a % 4
bit_and_3 a = omega (arith, bit_and_digit a 3, bit_and_1 (a / 2))

bit_and_7 : (a : ℕ) → bit_and a 7 ≡ a % 8
bit_and_7 a = omega (arith, bit_and_digit a 7, bit_and_3 (a / 2))

pub bit_and_15 : (a : ℕ) → bit_and a 15 ≡ a % 16
bit_and_15 a = omega (arith, bit_and_digit a 15, bit_and_7 (a / 2))

bit_and_31 : (a : ℕ) → bit_and a 31 ≡ a % 32
bit_and_31 a = omega (arith, bit_and_digit a 31, bit_and_15 (a / 2))

bit_and_63 : (a : ℕ) → bit_and a 63 ≡ a % 64
bit_and_63 a = omega (arith, bit_and_digit a 63, bit_and_31 (a / 2))

bit_and_127 : (a : ℕ) → bit_and a 127 ≡ a % 128
bit_and_127 a = omega (arith, bit_and_digit a 127, bit_and_63 (a / 2))

pub bit_and_255 : (a : ℕ) → bit_and a 255 ≡ a % 256
bit_and_255 a = omega (arith, bit_and_digit a 255, bit_and_127 (a / 2))

-- A test that passes at each number below `n`, by evaluation.
unfoldable pub passes_below : (ℕ → Bool) → ℕ → Bool
passes_below p zero = true
passes_below p (suc n) = passes_below p n && p n

pub passes_below_at : (p : ℕ → Bool) (n i : ℕ) → passes_below p n ≡ true → i < n → p i ≡ true
unfolding passes_below
passes_below_at p zero i all h = absurd (omega arith)
passes_below_at p (suc n) i all h = ground (arith, passes_below_at p n i)
