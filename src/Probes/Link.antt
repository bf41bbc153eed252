-- ===== src/Probes/Link.antt =====
-- native/engine-link-test.c: the callbacks with which it starts the engine, and its NtProcessStartup.
-- A pointer that may be null is an `Option`; what the engine does in doom_init is a parameter.
use win0_doom.Shared.{ℕ, List, [], ◌∷◌, Option, none, some, Bool, true}
use win0_doom.Shared.Int.{ℤ, pos, negsuc}
use win0_doom.Client.Path.{codes}
use win0_doom.Client.Main.{DoomFlag}

unfoldable test_malloc : (size : ℤ) → Option ℕ
test_malloc size = none

unfoldable test_open : (filename mode : List ℕ) → Option ℕ
test_open filename mode = none

unfoldable test_read : (handle : Option ℕ) → (count : ℤ) → ℤ
test_read handle count = pos 0

unfoldable test_write : (handle : Option ℕ) → (buffer : List ℕ) → (count : ℤ) → ℤ
test_write handle buffer count = pos 0

unfoldable test_seek : (handle : Option ℕ) → (offset : ℤ) → (origin : ℕ) → ℤ
test_seek handle offset origin = negsuc 0

unfoldable test_tell : (handle : Option ℕ) → ℤ
test_tell handle = pos 0

unfoldable test_eof : (handle : Option ℕ) → Bool
test_eof handle = true

-- seconds and microseconds
unfoldable test_gettime : ℤ × ℤ
test_gettime = (pos 0, pos 0)

data LinkCall : Type 0 where
  set_print : LinkCall
  set_malloc : LinkCall
  set_file_io : LinkCall
  set_gettime : LinkCall
  set_exit : LinkCall
  set_getenv : LinkCall
  init : (arguments : List (List ℕ)) → List DoomFlag → LinkCall
  terminate : (status : ℕ) → LinkCall

-- doom_init returns, or calls test_exit with a code, which terminates the process.
unfoldable link_startup : (exit_code : Option ℕ) → List LinkCall
link_startup exit_code =
    set_print
    ∷ set_malloc
    ∷ set_file_io
    ∷ set_gettime
    ∷ set_exit
    ∷ set_getenv
    ∷ init (codes "win0doom.exe" ∷ codes "-iwad" ∷ codes "doom1.wad" ∷ []) []
    ∷ elim exit_code [ none ↦ terminate 0 ∷ [] | some code ↦ terminate code ∷ [] ]
