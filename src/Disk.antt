-- ===== src/Disk.antt =====
-- The files that the program reads and writes: package os and path/filepath as far as it is used.
pub mod Laws
pub mod Paths
use skytap.Common.{
  ℕ, Bool, true, false, not, List, [], ◌∷◌, ◌++◌, Option, none, some, is_empty, if◌then◌else◌,
}
use skytap.Text.{Str, codes, ◌==◌}
use skytap.GoMap
use skytap.GoMap.{GoMap}

-- `files` maps a path to its content; a path for which `locked` holds cannot be created or opened
-- for writing. A failed write leaves the files as they are.
pub record Disk : Type 0 where
  pub files : GoMap Str
  pub locked : Str → Bool

-- filepath.Join of two parts that are clean, the first of them without a final slash.
unfoldable pub join : Str → Str → Str
join dir name = if is_empty dir then name else dir ++ (codes "/" ++ name)

unfoldable pub read_file : Disk → Str → Option Str
read_file d path = GoMap.get d.files path

unfoldable pub write_file : Disk → Str → Str → Disk × Bool
write_file d path content =
    if d.locked path
    then (d, false)
    else (record d { files = GoMap.put d.files path content }, true)

-- os.MkdirAll: directories carry no content, so that only its failure shows.
unfoldable pub mkdir_all : Disk → Str → Bool
mkdir_all d path = not (d.locked path)
