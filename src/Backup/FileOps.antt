-- ===== src/Backup/FileOps.antt =====
-- skills_engine/file_ops.py, and the first steps of `apply_skill` of skills_engine/apply.py: the backup,
-- the file operations, and the restore if one of them fails. Folders are left out, and a file has one
-- spelling of its path; the parts of a path and whether it is absolute are given by pathlib. A key that
-- an operation has not is an empty text.
use evoclaw.Base.{
  String, Bool, true, false, not, Option, ◌&&◌, ◌||◌, none, some, List, [], ◌∷◌, ◌++◌, map,
  if◌then◌else◌, member, is_text,
}
use evoclaw.Base.Dict.{get, set, remove}
use evoclaw.Backup.{Files, create_backup, restore_backup}

-- `rename` and `move` do the same.
pub data FileOp : Type 0 where
  rename move : String → String → FileOp
  delete : String → FileOp
  other : FileOp

-- The keys of a manifest that are used here.
pub record Manifest : Type 0 where
  pub adds : List String
  pub modifies : List String
  pub file_ops : List FileOp

-- `rel.parts` and `rel.is_absolute()`. `interrupted files op` is `none` if the calls of pathlib and
-- shutil for the operation succeed on these files, and the files that are left if one of them raises.
pub record Paths : Type 0 where
  pub parts : String → List String
  pub is_absolute : String → Bool
  pub interrupted : Files → FileOp → Option Files

module _ (paths : Paths) where
  -- `_check_path_traversal` finds nothing.
  unfoldable pub is_safe : String → Bool
  is_safe rel = is_text rel && not (paths.is_absolute rel) && not (member ".." (paths.parts rel))

  unfoldable pub move_file : Files → String → String → Files
  move_file files from to = elim (get from files) [
    | none ↦ files
    | some content ↦ set to content (remove from files)
  ]

  -- The `try` around an operation that passed the checks: what it does, or what is left if it raises.
  unfoldable pub perform : Files → FileOp → Files → Files × Bool
  perform files op after = elim (paths.interrupted files op) [
    | none ↦ (after, false)
    | some left ↦ (left, true)
  ]

  -- One operation; whether it adds an error.
  unfoldable pub execute_op : Files → FileOp → Files × Bool
  execute_op files (rename from to) =
      if is_safe from && is_safe to
      then perform files (rename from to) (move_file files from to)
      else (files, true)
  execute_op files (move from to) =
      if is_safe from && is_safe to
      then perform files (move from to) (move_file files from to)
      else (files, true)
  execute_op files (delete path) =
      if is_safe path then perform files (delete path) (remove path files) else (files, true)
  execute_op files other = (files, true)

  -- All operations, an error or not; whether there was any.
  unfoldable pub execute_file_ops : Files → List FileOp → Files × Bool
  execute_file_ops files [] = (files, false)
  execute_file_ops files (op ∷ ops) =
      let (files', failed) = execute_op files op in
      let (files'', later) = execute_file_ops files' ops in (files'', failed || later)

-- `if op.get("from")`
unfoldable pub sources : List FileOp → List String
sources [] = []
sources (rename from _ ∷ ops) = let rest = sources ops in if is_text from then from ∷ rest else rest
sources (move from _ ∷ ops) = let rest = sources ops in if is_text from then from ∷ rest else rest
sources (delete _ ∷ ops) = sources ops
sources (other ∷ ops) = sources ops

-- What is saved before a skill is applied; `resolve` is `resolve_path_remap`.
unfoldable pub files_to_backup : (String → String) → Manifest → List String
files_to_backup resolve m =
    map resolve m.modifies
    ++ (map resolve m.adds
        ++ (map resolve (sources m.file_ops)
            ++ ("requirements.txt" ∷ ".env.example" ∷ "docker-compose.yml" ∷ [])))

-- From the backup to the end of the file operations; whether they succeeded. The backup is added to
-- what the backup folder holds, which nothing clears before.
unfoldable pub begin_apply :
    Paths → (String → Bool) → (String → String) → Files → Files → Manifest → Files × Bool
begin_apply paths is_inside resolve files leftover m =
    let backup = create_backup is_inside files leftover (files_to_backup resolve m) in
    let (files', failed) = execute_file_ops paths files m.file_ops in
    if failed then (restore_backup backup files', false) else (files', true)
