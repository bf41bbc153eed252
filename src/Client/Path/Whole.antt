-- ===== src/Client/Path/Whole.antt =====
-- ascii_path_to_native against a description of the native path by what the characters are.
use win0_doom.Shared.{
  ℕ, ◌+◌, ◌-◌, ◌%◌, ◌≤◌, ◌≡◌, ◌≢◌, ◌⊎◌, inl, inr, refl, List, [], ◌∷◌, ◌++◌, true, false, arith,
  sym, ap₂, ◌==◌, ◌&&◌, ◌||◌, length, take, Bool-cases, if◌then◌else◌,
}
use win0_doom.Client.Path.{
  skip_dots, starts_with_backslash, native_characters, ascii_path_to_native,
}
use win0_doom.Client.Path.Laws.{whole_path, ascii_path_to_native-take}

abbrev pub IsSeparator : ℕ → Type 0
IsSeparator c = (c ≡ b'/') ⊎ (c ≡ 0x5c)

-- A dot and a separator, again and again.
abbrev pub dotted : List ℕ → List ℕ
dotted [] = []
dotted (c ∷ separators) = b'.' ∷ c ∷ dotted separators

abbrev pub AreSeparators : List ℕ → Type 0
AreSeparators [] = Unit
AreSeparators (c ∷ cs) = IsSeparator c × AreSeparators cs

abbrev pub BeginsDotted : List ℕ → Type 0
BeginsDotted [] = ⊥
BeginsDotted (a ∷ []) = ⊥
BeginsDotted (a ∷ b ∷ name) = (a ≡ b'.') × IsSeparator b

abbrev pub BeginsBackslash : List ℕ → Type 0
BeginsBackslash [] = ⊥
BeginsBackslash (c ∷ name) = c ≡ 0x5c

-- Each slash becomes a backslash, every other character the word of its byte.
abbrev pub Turns : List ℕ → List ℕ → Type 0
Turns [] [] = Unit
Turns [] (d ∷ ds) = ⊥
Turns (c ∷ cs) [] = ⊥
Turns (c ∷ cs) (d ∷ ds) = (((c ≡ b'/') × (d ≡ 0x5c)) ⊎ ((c ≢ b'/') × (d ≡ c % 256))) × Turns cs ds

-- The native path of a name: `dots` are the separators after the dots that it begins with.
pub record IsNativePath (filename data_prefix path : List ℕ) : Type 0 where
  pub dots : List ℕ
  pub name : List ℕ
  pub turned : List ℕ
  pub splits : filename ≡ dotted dots ++ name
  pub separators : AreSeparators dots
  pub bare : ¬ BeginsDotted name
  pub turns : Turns name turned
  pub joined :
      (BeginsBackslash name × (path ≡ turned))
      ⊎ ((¬ BeginsBackslash name) × (path ≡ data_prefix ++ turned))

record SplitsDots (filename : List ℕ) : Type 0 where
  dots : List ℕ
  splits : filename ≡ dotted dots ++ skip_dots filename
  separators : AreSeparators dots
  bare : ¬ BeginsDotted (skip_dots filename)

skip_dots-over :
    (a b : ℕ) (name : List ℕ)
    → a == b'.' && (b == b'/' || b == 0x5c) ≡ true
    → skip_dots (a ∷ b ∷ name) ≡ skip_dots name
unfolding skip_dots
skip_dots-over a b name e = rw e refl

skip_dots-kept :
    (a b : ℕ) (name : List ℕ)
    → a == b'.' && (b == b'/' || b == 0x5c) ≡ false
    → skip_dots (a ∷ b ∷ name) ≡ a ∷ b ∷ name
unfolding skip_dots
skip_dots-kept a b name e = rw e refl

skip_dots_short :
    (filename : List ℕ)
    → skip_dots filename ≡ filename
    → ¬ BeginsDotted filename
    → SplitsDots filename
skip_dots_short filename e bare = record {
  dots = [];
  splits = sym e;
  separators = tt;
  bare = rw e bare;
}

skip_dots-SplitsDots : (filename : List ℕ) → SplitsDots filename
unfolding skip_dots
skip_dots-SplitsDots [] = skip_dots_short [] refl (λ h. h)
skip_dots-SplitsDots (a ∷ []) = skip_dots_short (a ∷ []) refl (λ h. h)
skip_dots-SplitsDots (a ∷ b ∷ name) = elim (Bool-cases (a == b'.' && (b == b'/' || b == 0x5c))) [
  | inl skipped ↦
      let rest = skip_dots-SplitsDots name in
      let over = skip_dots-over a b name skipped in
      let dot : a ≡ b'.' = ground (arith, skipped) in
      record {
        dots = b ∷ rest.dots;
        splits = rw over (ap₂ (λ c cs. c ∷ b ∷ cs) dot rest.splits);
        separators = (ground (arith, skipped), rest.separators);
        bare = rw over rest.bare;
      }
  | inr kept ↦ skip_dots_short (a ∷ b ∷ name) (skip_dots-kept a b name kept) (ground (arith, kept))
]

native_characters-Turns : (name : List ℕ) → Turns name (native_characters name)
native_characters-Turns [] = tt
native_characters-Turns (c ∷ name) = (ground arith, native_characters-Turns name)

joined_lem :
    (data_prefix name : List ℕ)
    → let path =
        (if starts_with_backslash name then [] else data_prefix) ++ native_characters name in
      (BeginsBackslash name × (path ≡ native_characters name))
      ⊎ ((¬ BeginsBackslash name) × (path ≡ data_prefix ++ native_characters name))
unfolding starts_with_backslash
joined_lem data_prefix [] = inr (λ h. h, refl)
joined_lem data_prefix (c ∷ name) = elim (Bool-cases (c == 0x5c)) [
  | inl e ↦ inl (ground arith, rw e refl)
  | inr e ↦ inr (ground arith, rw e refl)
]

whole_path-IsNativePath :
    (filename data_prefix : List ℕ)
    → IsNativePath filename data_prefix (whole_path filename data_prefix)
whole_path-IsNativePath filename data_prefix =
    let split = skip_dots-SplitsDots filename in
    record {
      dots = split.dots;
      name = skip_dots filename;
      turned = native_characters (skip_dots filename);
      splits = split.splits;
      separators = split.separators;
      bare = split.bare;
      turns = native_characters-Turns (skip_dots filename);
      joined = joined_lem data_prefix (skip_dots filename);
    }

-- For every name, prefix and buffer of at least one word: the name's leading "./" and ".\" are left
-- out, all of them; each slash of the rest becomes a backslash; the prefix comes first, unless the
-- rest begins with a backslash; and the path is that, cut to one word less than the buffer, so that
-- with its terminator it fits.
pub ascii_path_to_native_lem :
    (filename data_prefix : List ℕ) (capacity : ℕ)
    → 1 ≤ capacity
    → (whole : List ℕ) × IsNativePath filename data_prefix whole
      × (ascii_path_to_native filename data_prefix capacity ≡ take (capacity - 1) whole)
      × (length (ascii_path_to_native filename data_prefix capacity) + 1 ≤ capacity)
ascii_path_to_native_lem filename data_prefix capacity h = (
  whole_path filename data_prefix,
  whole_path-IsNativePath filename data_prefix,
  (ascii_path_to_native-take filename data_prefix capacity h).0,
  (ascii_path_to_native-take filename data_prefix capacity h).1,
)
