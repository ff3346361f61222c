-- ===== src/FileKey/Tests.antt =====
-- Small inputs for src/file_key.cc.
use ktable_fs.Base.{◌≡◌, ◌↔◌, refl, true, false, some, [], ◌∷◌, ok, arith}
use ktable_fs.Slice.{Slice, less}
use ktable_fs.FileKey.{FileKey, from_slice, to_slice}
use ktable_fs.FileKey.Codec.{IsKey, from_slice-to_slice, dir_key, scan_iff}

abbrev name : Slice
name = 97 ∷ 46 ∷ 99 ∷ []

abbrev key : FileKey
key = record { dir_ino = 258; hash = 70000; name = some name }

key-IsKey : IsKey key name
key-IsKey = record { ino = omega arith; hash = omega arith; name = refl }

from_slice-to_slice_example : from_slice (to_slice key) ≡ ok key
from_slice-to_slice_example = from_slice-to_slice key name key-IsKey

scan_iff_example :
    ((less (to_slice key) (to_slice (dir_key 258)) ≡ false)
      × (less (to_slice key) (to_slice (dir_key 259)) ≡ true))
    ↔ (key.dir_ino ≡ 258)
scan_iff_example = scan_iff key 258 (omega arith) (omega arith)
