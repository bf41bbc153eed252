-- ===== src/Client/Tests.antt =====
-- The program's theorems at concrete texts, names, files and keyboard records.
mod Files
mod Opens
mod Main
mod Memory
use win0_doom.Shared.{
  ℕ, ◌+◌, ◌*◌, ◌-◌, ◌/◌, ◌%◌, ◌^◌, ◌<◌, ◌≤◌, ◌≡◌, refl, List, [], ◌∷◌, ◌++◌, some, true, false,
  Bool, arith, length, take, drop, get_or, map,
}
use win0_doom.Client.Text.{print_hex_text, native_print, print_text}
use win0_doom.Client.Text.Chunks.{Shows, native_print-Shows}
use win0_doom.Client.Text.Hex.{hex_value, print_hex_text_reads}
use win0_doom.Client.Path.{codes, data_prefixes, ascii_path_to_native}
use win0_doom.Client.Path.Laws.{whole_path, native_path_whole}
use win0_doom.Client.Path.Whole.{IsNativePath, ascii_path_to_native_lem}
use win0_doom.Client.Keys.{
  DoomKey, KeyboardApi, IoctlResult, engine, get_keyboard, poll_keyboard, buffer_records,
}
use win0_doom.Client.Keys.Dispatch.{events_in, poll_keyboard_delivers}
use win0_doom.Fixtures.{keyboard, two_records}

native_print-Shows_example :
    Shows 238 (codes "hello") (native_print (codes "hello"))
    × Shows 158 (codes "hello") (print_text (codes "hello"))
native_print-Shows_example = native_print-Shows (codes "hello")

print_hex_text_reads_example :
    (take 2 (print_hex_text 0xc0000022) ≡ b'0' ∷ b'x' ∷ [])
    × (length (print_hex_text 0xc0000022) ≡ 10)
    × (hex_value 0 (drop 2 (print_hex_text 0xc0000022)) ≡ 0xc0000022)
print_hex_text_reads_example = print_hex_text_reads 0xc0000022 (omega arith)

ascii_path_to_native_lem_example :
    (whole : List ℕ) × IsNativePath (codes "./a/b") (codes "C:") whole
    × (ascii_path_to_native (codes "./a/b") (codes "C:") 4 ≡ take (4 - 1) whole)
    × (length (ascii_path_to_native (codes "./a/b") (codes "C:") 4) + 1 ≤ 4)
ascii_path_to_native_lem_example =
    ascii_path_to_native_lem (codes "./a/b") (codes "C:") 4 (omega arith)

abbrev two_delivered : ℕ → IoctlResult ℕ
two_delivered capacity = record { status = 0; information = 24; buffer = two_records ++ 9 ∷ [] }

poll_keyboard_delivers_example :
    poll_keyboard keyboard true two_delivered
    ≡ some (record {
      keyboard_available = true;
      calls = get_keyboard (buffer_records * 12) ∷ map engine (events_in keyboard two_records);
    })
poll_keyboard_delivers_example =
    poll_keyboard_delivers keyboard two_delivered two_records (9 ∷ []) (omega arith) (omega arith)
      refl refl refl
