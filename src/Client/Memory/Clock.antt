-- ===== src/Client/Memory/Clock.antt =====
-- native_gettime, and what native_malloc obtains and native_free gives back.
use win0_doom.Shared.{
  ℕ, ◌+◌, ◌-◌, ◌*◌, ◌/◌, ◌%◌, ◌^◌, ◌≤◌, ◌<◌, ◌≡◌, ◌⊎◌, inl, inr, refl, [], ◌∷◌, none, some, arith,
  Bool-cases, false, true, ◌≢◌, ◌==◌,
}
use win0_doom.Shared.Int.{ℤ, pos, negsuc, ◌+ℤ◌, ◌-ℤ◌, ◌≤ℤ◌}
use win0_doom.Client.File.{failed, int_of_word, to_int}
use win0_doom.Client.Memory.{Allocated, allocate, free, native_malloc, native_free, native_gettime}

-- The difference of two words as ints, where the true one is an int.
int_of_word-difference :
    (a b : ℕ)
    → b ≤ a
    → a < b + 2 ^ 31
    → to_int (int_of_word (a % 2 ^ 32) -ℤ int_of_word (b % 2 ^ 32)) ≡ pos (a - b)
unfolding ◌-ℤ◌
int_of_word-difference a b order near = ground arith

-- The microseconds are from 0 to 999999 and lose less than ten ticks. The seconds are cut to an
-- int; but of two system times of which the later is less than 2 ^ 31 seconds after the earlier, the
-- difference of the seconds, as an int, is the true one.
pub native_gettime_lem :
    (earlier later : ℕ)
    → earlier ≤ later
    → later / 10000000 < earlier / 10000000 + 2 ^ 31
    → (us : ℕ) × ((native_gettime earlier).1 ≡ pos us)
      × (us < 1000000)
      × (earlier / 10000000 * 10000000 + us * 10 ≤ earlier)
      × (earlier < earlier / 10000000 * 10000000 + us * 10 + 10)
      × (to_int ((native_gettime later).0 -ℤ (native_gettime earlier).0)
          ≡ pos (later / 10000000 - earlier / 10000000))
unfolding native_gettime ◌-ℤ◌ ◌+ℤ◌
native_gettime_lem earlier later order near = (
  earlier % 10000000 / 10,
  ground arith,
  omega arith,
  omega arith,
  omega arith,
  int_of_word-difference (later / 10000000) (earlier / 10000000) (omega arith) near,
)

-- A request of no positive size makes no call and gives null. A positive one asks once for its size;
-- it gives null where that call fails, and the base of the region where it succeeds, provided that a
-- region's base is never 0. In each case native_free of the result gives back what was obtained:
-- nothing for null, or else the region, by its base and with size 0.
pub native_free-native_malloc :
    (answer : ℕ → Allocated) (requested_size : ℤ)
    → ((size : ℕ) → failed (answer size).status ≡ false → (answer size).base ≢ 0)
    → let (pointer, calls) = native_malloc answer requested_size in
      ((requested_size ≤ℤ pos 0) × (pointer ≡ none) × (calls ≡ []) × (native_free pointer ≡ []))
      ⊎ ((size : ℕ) × (requested_size ≡ pos size)
          × (0 < size)
          × (calls ≡ allocate size ∷ [])
          × (((failed (answer size).status ≡ true) × (pointer ≡ none) × (native_free pointer ≡ []))
              ⊎ ((failed (answer size).status ≡ false)
                  × (pointer ≡ some (answer size).base)
                  × (native_free pointer ≡ free (answer size).base 0 ∷ []))))
unfolding native_malloc native_free
native_free-native_malloc answer (negsuc n) based =
    inl (ground arith, ground arith, ground arith, ground arith)
native_free-native_malloc answer (pos n) based = elim (Bool-cases (0 == n)) [
  | inl e ↦ inl (ground arith)
  | inr e ↦ elim (Bool-cases (failed (answer n).status)) [
    | inl bad ↦ inr (n, refl, ground arith, ground arith, inl (bad, ground arith, ground arith))
    | inr good ↦
        let whole = based n good in
        inr (n, refl, ground arith, ground arith, inr (good, ground arith, ground arith))
  ]
]
