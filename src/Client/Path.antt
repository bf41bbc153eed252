-- ===== src/Client/Path.antt =====
-- mode_has, ascii_path_to_native and the table data_prefixes of native/win0-doom.c. A string is
-- the list of its characters before the terminator; the buffer `path` is the list of the words
-- written so far, so that `index` is its length.
pub mod Laws
pub mod Whole
use Prim.Native.Char.{code}
use Prim.Native.String.{String}
use Prim.Native.String
use win0_doom.Shared.{
  ℕ, ◌+◌, ◌%◌, List, [], ◌∷◌, ◌++◌, Bool, true, false, ◌==◌, ltb, ◌&&◌, ◌||◌, not, if◌then◌else◌,
  length,
}

-- The characters of an ASCII literal.
abbrev pub codes : String → List ℕ
codes String.[] = []
codes (String.◌∷◌ c s) = code c ∷ codes s

-- The volumes that are tried, all with the tail \Windows\System32\.
abbrev pub volumes : List (List ℕ)
volumes =
    codes "\\GLOBAL??\\C:"
    ∷ codes "\\Device\\HarddiskVolume1"
    ∷ codes "\\Device\\HarddiskVolume2"
    ∷ codes "\\Device\\HarddiskVolume3"
    ∷ codes "\\Device\\HarddiskVolume4"
    ∷ codes "\\Device\\HarddiskVolume5"
    ∷ codes "\\Device\\HarddiskVolume6"
    ∷ codes "\\Device\\HarddiskVolume7"
    ∷ codes "\\Device\\HarddiskVolume8"
    ∷ codes "\\Device\\HarddiskVolume9"
    ∷ codes "\\Device\\HarddiskVolume10"
    ∷ codes "\\Device\\HarddiskVolume11"
    ∷ codes "\\Device\\HarddiskVolume12"
    ∷ []

abbrev with_tail : List (List ℕ) → List (List ℕ)
with_tail [] = []
with_tail (v ∷ vs) = (v ++ codes "\\Windows\\System32\\") ∷ with_tail vs

unfoldable pub data_prefixes : List (List ℕ)
data_prefixes = with_tail volumes

pub mode_has : List ℕ → ℕ → Bool
mode_has [] wanted = false
mode_has (c ∷ mode) wanted = if c == wanted then true else mode_has mode wanted

-- while (filename[0] == '.' && (filename[1] == '/' || filename[1] == '\\')) filename += 2;
pub skip_dots : List ℕ → List ℕ
skip_dots [] = []
skip_dots (a ∷ []) = a ∷ []
skip_dots (a ∷ b ∷ name) =
    if a == b'.' && (b == b'/' || b == 0x5c) then skip_dots name else a ∷ b ∷ name

pub starts_with_backslash : List ℕ → Bool
starts_with_backslash [] = false
starts_with_backslash (c ∷ name) = c == 0x5c

-- A loop that writes while a place is left beside the terminator's.
pub write_while : ℕ → List ℕ → List ℕ → List ℕ
write_while capacity path [] = path
write_while capacity path (c ∷ cs) =
    if ltb (length path + 1) capacity then write_while capacity (path ++ c ∷ []) cs else path

abbrev pub native_character : ℕ → ℕ
native_character c = if c == b'/' then 0x5c else c % 256

abbrev pub native_characters : List ℕ → List ℕ
native_characters [] = []
native_characters (c ∷ name) = native_character c ∷ native_characters name

unfoldable pub ascii_path_to_native : (filename data_prefix : List ℕ) → ℕ → List ℕ
unfolding skip_dots starts_with_backslash write_while
ascii_path_to_native filename data_prefix capacity =
    let name = skip_dots filename in
    let path =
      if not (starts_with_backslash name) then write_while capacity [] data_prefix else [] in
    write_while capacity path (native_characters name)
