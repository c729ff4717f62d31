-- ===== src/Disk/Laws.antt =====
-- Reading a file back.
use skytap.Common.{◌≢◌, arith, ◌≡◌, refl, false, some, true}
use skytap.Text.{Str}
use skytap.GoMap.{put}
use skytap.GoMap.Laws.{get-put_self, get-put_ne}
use skytap.Disk.{Disk, read_file, write_file}

module _ (d : Disk) (path content : Str) where
  pub write_file-free :
      d.locked path ≡ false
      → write_file d path content ≡ (record d { files = put d.files path content }, true)
  unfolding write_file
  write_file-free free = rw free refl

  pub write_file-locked : d.locked path ≡ true → write_file d path content ≡ (d, false)
  unfolding write_file
  write_file-locked locked = rw locked refl

  pub read_file-write_file :
      d.locked path ≡ false → read_file (write_file d path content).0 path ≡ some content
  unfolding read_file write_file
  read_file-write_file free = rw (free, get-put_self) refl

  pub read_file-write_file_ne :
      (other : Str)
      → path ≢ other
      → read_file (write_file d path content).0 other ≡ read_file d other
  unfolding read_file write_file
  read_file-write_file_ne other h = ground (arith, get-put_ne d.files path other content)

  pub locked-write_file : (write_file d path content).0.locked ≡ d.locked
  unfolding write_file
  locked-write_file = ground arith
