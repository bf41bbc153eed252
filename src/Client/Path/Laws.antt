-- ===== src/Client/Path/Laws.antt =====
-- The native path of a file name, and that it fits its buffer.
use win0_doom.Shared.{
  ℕ, zero, suc, ◌+◌, ◌-◌, ◌≤◌, ◌≡◌, refl, ◌∙◌, ap, List, [], ◌∷◌, ◌++◌, ltb, if◌then◌else◌, arith,
  length, take, append-nil, append_assoc, length-append, length-take, take-append, take-nil,
  take_all, Bool-cases, inl, inr, get_elem?, some, subst,
}
use win0_doom.Client.Path.{
  data_prefixes, skip_dots, starts_with_backslash, write_while, native_characters,
  ascii_path_to_native,
}

-- What the loops would write into a buffer without end.
abbrev pub whole_path : List ℕ → List ℕ → List ℕ
whole_path filename data_prefix =
    (if starts_with_backslash (skip_dots filename) then [] else data_prefix)
    ++ native_characters (skip_dots filename)

write_while-take :
    (capacity : ℕ) (path cs : List ℕ)
    → length path + 1 ≤ capacity
    → write_while capacity path cs ≡ path ++ take (capacity - 1 - length path) cs
unfolding write_while
write_while-take capacity path [] h = rw (take-nil, append-nil)
write_while-take capacity path (c ∷ cs) h = elim (Bool-cases (ltb (length path + 1) capacity)) [
  | inl room ↦
      let longer : length (path ++ c ∷ []) ≡ length path + 1 = length-append path (c ∷ []) in
      let next : suc (capacity - 1 - length (path ++ c ∷ [])) ≡ capacity - 1 - length path =
        ground (arith, longer) in
      rw room (
        write_while-take capacity (path ++ c ∷ []) cs (ground (arith, longer))
        ∙ append_assoc path (c ∷ []) _
        ∙ ap (λ k. path ++ take k (c ∷ cs)) next)
  | inr full ↦
      let none_left : capacity - 1 - length path ≡ 0 = ground arith in
      rw (full, none_left, append-nil)
]

-- The two loops together write that path, cut to one word less than the buffer.
pub ascii_path_to_native-take :
    (filename data_prefix : List ℕ) (capacity : ℕ)
    → 1 ≤ capacity
    → (ascii_path_to_native filename data_prefix capacity
        ≡ take (capacity - 1) (whole_path filename data_prefix))
      × (length (ascii_path_to_native filename data_prefix capacity) + 1 ≤ capacity)
unfolding ascii_path_to_native
ascii_path_to_native-take filename data_prefix capacity h =
    (same, rw same (omega (arith, length-take (capacity - 1) (whole_path filename data_prefix))))
  where
    chars : List ℕ
    chars = native_characters (skip_dots filename)

    from :
        (path : List ℕ)
        → length path + 1 ≤ capacity
        → write_while capacity path chars ≡ path ++ take (capacity - 1 - length path) chars
    from path fits = write_while-take capacity path chars fits

    prefixed : write_while capacity [] data_prefix ≡ take (capacity - 1) data_prefix
    prefixed =
        write_while-take capacity [] data_prefix h ∙ ap (λ k. take k data_prefix) (omega arith)

    same :
        ascii_path_to_native filename data_prefix capacity
        ≡ take (capacity - 1) (whole_path filename data_prefix)
    same = elim (Bool-cases (starts_with_backslash (skip_dots filename))) [
      | inl absolute ↦ rw absolute (from [] h ∙ ap (λ k. take k chars) (omega arith))
      | inr relative ↦
          rw (relative, prefixed)
            (from (take (capacity - 1) data_prefix)
                (omega (arith, length-take (capacity - 1) data_prefix))
              ∙ take-append (capacity - 1) data_prefix chars)
    ]

-- A name that begins with "./" or ".\" has no such beginning left.
skip_dots_again : (filename : List ℕ) → skip_dots (skip_dots filename) ≡ skip_dots filename
unfolding skip_dots
skip_dots_again [] = refl
skip_dots_again (a ∷ []) = refl
skip_dots_again (a ∷ b ∷ name) = ground (arith, skip_dots_again name)

length-skip_dots-le : (filename : List ℕ) → length (skip_dots filename) ≤ length filename
unfolding skip_dots
length-skip_dots-le [] = omega arith
length-skip_dots-le (a ∷ []) = omega arith
length-skip_dots-le (a ∷ b ∷ name) = ground (arith, length-skip_dots-le name)

length-native_characters : (name : List ℕ) → length (native_characters name) ≡ length name
length-native_characters [] = refl
length-native_characters (c ∷ name) = ap suc (length-native_characters name)

abbrev All : (List ℕ → Type 0) → List (List ℕ) → Type 0
All P [] = Unit
All P (x ∷ xs) = P x × All P xs

prefixes_short : All (λ p. length p ≤ 42) data_prefixes
unfolding data_prefixes
prefixes_short = omega arith

All-get :
    (P : List ℕ → Type 0) (xs : List (List ℕ)) (i : ℕ) {x : List ℕ}
    → All P xs
    → get_elem? xs i ≡ some x
    → P x
All-get P [] i h e = cc
All-get P (y ∷ xs) zero {x} h e = let here : y ≡ x = cc in subst P here h.0
All-get P (y ∷ xs) (suc i) h e = All-get P xs i h.1 e

-- In native_open's buffer of 320 words no name of at most 277 characters is cut, whichever of the
-- thirteen prefixes is tried.
pub native_path_whole :
    (filename : List ℕ) (index : ℕ) {data_prefix : List ℕ}
    → get_elem? data_prefixes index ≡ some data_prefix
    → length filename ≤ 277
    → ascii_path_to_native filename data_prefix 320 ≡ whole_path filename data_prefix
native_path_whole filename index {data_prefix} at short =
    (ascii_path_to_native-take filename data_prefix 320 (omega arith)).0
    ∙ take_all 319 (whole_path filename data_prefix) bound
  where
    prefix_short : length data_prefix ≤ 42
    prefix_short = All-get (λ p. length p ≤ 42) data_prefixes index prefixes_short at

    bound : length (whole_path filename data_prefix) ≤ 319
    bound = elim (Bool-cases (starts_with_backslash (skip_dots filename))) [
      | inl absolute ↦ rw absolute (
          omega
            (arith, length-native_characters (skip_dots filename), length-skip_dots-le filename))
      | inr relative ↦ rw relative (
          omega (
            arith,
            length-append data_prefix (native_characters (skip_dots filename)),
            length-native_characters (skip_dots filename),
            length-skip_dots-le filename,
            prefix_short,
          ))
    ]
