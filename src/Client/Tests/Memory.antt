-- ===== src/Client/Tests/Memory.antt =====
-- A text of two characters, copied over itself, and two readings of the clock.
use win0_doom.Shared.{
  true, ℕ, zero, suc, ◌+◌, ◌-◌, ◌*◌, ◌/◌, ◌≤◌, ◌<◌, ◌≡◌, ◌≢◌, false, ◌⊎◌, inl, refl, [], ◌∷◌, none,
  some, arith, get_or,
}
use win0_doom.Shared.Int.{pos, ◌-ℤ◌, ◌≤ℤ◌}
use win0_doom.Client.File.{failed, to_int}
use win0_doom.Client.Path.{codes}
use win0_doom.Client.Memory.{
  Bytes, memcpy, strlen, Allocated, allocate, free, native_malloc, native_free, native_gettime,
}
use win0_doom.Client.Memory.Copy.{IsIn, IsOut, memcpy_lem}
use win0_doom.Client.Memory.Text.{IsText, strlen-memcpy}
use win0_doom.Client.Memory.Clock.{native_gettime_lem, native_free-native_malloc}

-- "hi" and its terminator at 4.
abbrev hello : Bytes
hello address = get_or (0 ∷ 0 ∷ 0 ∷ 0 ∷ codes "hi") address 0

hello-IsText : IsText hello 4 2
hello-IsText = record { characters = characters; terminated = refl }
  where
    characters : (i : ℕ) → i < 2 → hello (4 + i) ≢ 0
    characters zero h = omega arith
    characters (suc zero) h = omega arith
    characters (suc (suc i)) h = absurd (omega arith)

memcpy_lem_example :
    ((memcpy 3 4 3 hello).1 ≡ 3)
    × ((IsIn 3 3 5 × ((memcpy 3 4 3 hello).0 5 ≡ hello (4 + (5 - 3))))
        ⊎ (IsOut 3 3 5 × ((memcpy 3 4 3 hello).0 5 ≡ hello 5)))
memcpy_lem_example = memcpy_lem 3 4 3 hello 5 (inl (omega arith))

strlen-memcpy_example :
    (strlen 3 4 hello ≡ some 2) × (strlen 3 3 (memcpy 3 4 (2 + 1) hello).0 ≡ some 2)
strlen-memcpy_example = strlen-memcpy hello 3 4 2 3 hello-IsText (inl (omega arith)) (omega arith)

native_gettime_lem_example :
    (us : ℕ) × ((native_gettime 134000000001234567).1 ≡ pos us)
    × (us < 1000000)
    × (134000000001234567 / 10000000 * 10000000 + us * 10 ≤ 134000000001234567)
    × (134000000001234567 < 134000000001234567 / 10000000 * 10000000 + us * 10 + 10)
    × (to_int ((native_gettime 134000000031234567).0 -ℤ (native_gettime 134000000001234567).0)
        ≡ pos (134000000031234567 / 10000000 - 134000000001234567 / 10000000))
native_gettime_lem_example =
    native_gettime_lem 134000000001234567 134000000031234567 (omega arith) (omega arith)

abbrev granting : ℕ → Allocated
granting size = record { status = 0; base = 0x10000 }

native_free-native_malloc_example :
    ((pos 24 ≤ℤ pos 0)
      × ((native_malloc granting (pos 24)).0 ≡ none)
      × ((native_malloc granting (pos 24)).1 ≡ [])
      × (native_free (native_malloc granting (pos 24)).0 ≡ []))
    ⊎ ((size : ℕ) × (pos 24 ≡ pos size)
        × (0 < size)
        × ((native_malloc granting (pos 24)).1 ≡ allocate size ∷ [])
        × (((failed (granting size).status ≡ true)
              × ((native_malloc granting (pos 24)).0 ≡ none)
              × (native_free (native_malloc granting (pos 24)).0 ≡ []))
            ⊎ ((failed (granting size).status ≡ false)
                × ((native_malloc granting (pos 24)).0 ≡ some (granting size).base)
                × (native_free (native_malloc granting (pos 24)).0
                    ≡ free (granting size).base 0 ∷ []))))
native_free-native_malloc_example =
    native_free-native_malloc granting (pos 24) (λ size good. omega arith)
