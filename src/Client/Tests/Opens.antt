-- ===== src/Client/Tests/Opens.antt =====
-- The theorems on native_open, on a system with doom1.wad on one volume, the third.
use win0_doom.Shared.{
  ◌≡◌, refl, List, none, some, true, false, ℕ, get_or, ◌||◌, ◌==◌, if◌then◌else◌, arith, ◌⊎◌,
}
use win0_doom.Shared.Int.{pos, negsuc}
use win0_doom.Client.Path.{codes, data_prefixes, ascii_path_to_native}
use win0_doom.Client.File.{failed}
use win0_doom.Client.Open.{NtOpen, Opened, native_open}
use win0_doom.Client.Open.Search.{answer_on}
use win0_doom.Client.Open.Cache.{
  IsPrefixIndex, Opens, Fails, native_open_lem, native_open-IsPrefixIndex, other_volume_unreachable,
}

-- Paths on HarddiskVolume3, and those that begin with \??, are there.
abbrev third_volume : NtOpen
third_volume = record {
  allocated = true;
  create = λ path access disposition.
      if get_or path 22 0 == b'3' || get_or path 1 0 == b'?'
      then record { status = 0; handle = 4 }
      else record { status = 0xc000003a; handle = 0 };
  query = λ handle. record { status = 0; end_of_file = pos 100 };
}

abbrev wad : List ℕ
wad = codes "doom1.wad"

abbrev config : List ℕ
config = codes "\\??\\C:\\doom.cfg"

native_open_lem_example :
    (o : Opened) × (native_open third_volume wad (codes "rb") (negsuc 0) ≡ some o)
    × (Opens third_volume wad (codes "rb") (negsuc 0) o
        ⊎ Fails third_volume wad (codes "rb") (negsuc 0) o)
native_open_lem_example = native_open_lem third_volume wad (codes "rb") (negsuc 0) refl refl

native_open-IsPrefixIndex_example :
    (o : Opened) × (native_open third_volume wad (codes "rb") (pos 3) ≡ some o)
    × IsPrefixIndex o.data_prefix_index
native_open-IsPrefixIndex_example =
    native_open-IsPrefixIndex third_volume wad (codes "rb") (pos 3) (omega arith)

config_accepted : failed (answer_on third_volume config (codes "w") 0).status ≡ false
unfolding data_prefixes ascii_path_to_native
config_accepted = refl

wad_refused : failed (answer_on third_volume wad (codes "rb") 0).status ≡ true
unfolding data_prefixes ascii_path_to_native
wad_refused = refl

wad_accepted : failed (answer_on third_volume wad (codes "rb") 3).status ≡ false
unfolding data_prefixes ascii_path_to_native
wad_accepted = refl

other_volume_unreachable_example :
    (o : Opened) × (native_open third_volume config (codes "w") (negsuc 0) ≡ some o)
    × (o' : Opened) × (native_open third_volume wad (codes "rb") o.data_prefix_index ≡ some o')
    × (o'.file ≡ none)
other_volume_unreachable_example =
    other_volume_unreachable third_volume config (codes "w") wad (codes "rb") 3 refl config_accepted
      wad_refused wad_accepted
