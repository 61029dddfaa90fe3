-- ===== src/Backup.antt =====
-- skills_engine/backup.py and path_remap.py: files saved before a skill changes them, and the paths of
-- files that were renamed. The files of the project and those of the backup folder are dictionaries
-- from relative paths to contents; `is_inside` is whether a path lies inside the project.
pub mod Restored
pub mod FileOps
pub mod Undone
pub mod Remapped
mod Tests
use Prim.Native.String.{String}
use evoclaw.Base.{
  ℕ, zero, suc, ◌+◌, ◌-◌, Bool, true, false, Option, none, some, List, [], ◌∷◌, if◌then◌else◌,
  member, concat, ends_with, length,
}
use evoclaw.Base.Dict.{Dict, get, set, remove}

abbrev pub Files : Type 0
Files = Dict String

-- `TOMBSTONE_SUFFIX`
abbrev pub tombstone_suffix : String
tombstone_suffix = ".tombstone"

-- `len(s)`
unfoldable pub text_length : String → ℕ
text_length String.[] = 0
text_length (String.◌∷◌ c s) = suc (text_length s)

-- The first `n` characters.
unfoldable pub first : ℕ → String → String
first zero s = String.[]
first (suc n) String.[] = String.[]
first (suc n) (String.◌∷◌ c s) = String.◌∷◌ c (first n s)

-- `name[: -len(TOMBSTONE_SUFFIX)]`
unfoldable pub cut_suffix : String → String
cut_suffix name = first (text_length name - text_length tombstone_suffix) name

-- One path: a copy of the file, or a tombstone.
unfoldable pub save_file : Files → Files → String → Files
save_file files backup path = elim (get path files) [
  | some content ↦ set path content backup
  | none ↦ set (concat path tombstone_suffix) "" backup
]

-- What is in the backup folder is kept, unless it is written again.
unfoldable pub create_backup : (String → Bool) → Files → Files → List String → Files
create_backup is_inside files backup [] = backup
create_backup is_inside files backup (path ∷ paths) =
    create_backup is_inside files (if is_inside path then save_file files backup path else backup)
      paths

-- One file of the backup folder: a tombstone deletes the file, another one is copied back.
unfoldable pub restore_file : Files → String → String → Files
restore_file files name content =
    if ends_with tombstone_suffix name
    then remove (cut_suffix name) files
    else set name content files

-- The files of the backup folder, in the order in which they are found.
unfoldable pub restore_backup : Files → Files → Files
restore_backup [] files = files
restore_backup ((name, content) ∷ backup) files =
    restore_backup backup (restore_file files name content)

-- `while current in remap`; the loop stops where it has been.
unfoldable pub follow : ℕ → Dict String → List String → String → Option String
follow zero remap visited current = none
follow (suc fuel) remap visited current = elim (get current remap) [
  | none ↦ some current
  | some next ↦
      if member current visited then some current else follow fuel remap (current ∷ visited) next
]

-- Every turn but the last marks another key of the table.
unfoldable pub resolve_path_remap : String → Dict String → Option String
resolve_path_remap path remap = follow (length remap + 2) remap [] path
