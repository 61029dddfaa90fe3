-- ===== src/Backup/Tests.antt =====
-- A project of two files, and a skill whose second operation fails.
use evoclaw.Base.{
  String, Bool, true, false, ◌≡◌, refl, none, some, List, [], ◌∷◌, member, concat, ends_with,
  is_text, same_text, string_discrete, arith, Option, if◌then◌else◌,
}
use evoclaw.Base.Dict.{Dict, get, set, remove, get-set}
use evoclaw.Backup.{
  Files, text_length, first, cut_suffix, save_file, create_backup, restore_file, restore_backup,
  follow, resolve_path_remap,
}
use evoclaw.Backup.Restored.{restore-create}
use evoclaw.Backup.FileOps.{
  FileOp, move, delete, other, Manifest, Paths, is_safe, move_file, perform, execute_op,
  execute_file_ops, sources, files_to_backup, begin_apply,
}
use evoclaw.Backup.Undone.{IsContained, begin_apply-undone}
use evoclaw.Backup.FileOps
use evoclaw.Backup.Remapped.{Ends, resolve-Ends}

program : Unit {0}
unfolding string_discrete member concat ends_with is_text get set remove text_length first
    cut_suffix save_file create_backup restore_file restore_backup follow resolve_path_remap is_safe
    move_file perform same_text execute_op execute_file_ops sources files_to_backup begin_apply
program = tt

abbrev project : Files
project = ("main.py", "v1") ∷ ("old.py", "o") ∷ []

abbrev edited : Files
edited = ("main.py", "v2") ∷ ("new.py", "n") ∷ ("old.py", "o") ∷ []

abbrev anywhere : String → Bool
anywhere _ = true

abbrev same : String → String
same s = s

-- A copy of `locked.py` succeeds and its removal is refused.
abbrev move_of_locked : FileOp → Files → Option Files
move_of_locked (move from to) files =
    if same_text from "locked.py" then some (set to "l" files) else none
move_of_locked (FileOps.rename from to) files = none
move_of_locked (delete path) files = none
move_of_locked other files = none

abbrev paths : Paths
paths = record {
  parts = λ s. s ∷ [];
  is_absolute = λ _. false;
  interrupted = λ files op. move_of_locked op files;
}

paths-IsContained : IsContained paths
unfolding member same_text
paths-IsContained files left (move from to) k h out =
    ground (
      arith,
      h,
      out,
      string_discrete from "locked.py",
      string_discrete to k,
      get-set to k "l" files,
    )
paths-IsContained files left (FileOps.rename from to) k h out = absurd (ground (arith, h))
paths-IsContained files left (delete path) k h out = absurd (ground (arith, h))
paths-IsContained files left other k h out = absurd (ground (arith, h))

abbrev skill : List FileOp → Manifest
skill ops = record { adds = "new.py" ∷ []; modifies = "main.py" ∷ []; file_ops = ops }

abbrev moving : Manifest
moving = skill (move "main.py" "new.py" ∷ other ∷ [])

abbrev deleting : Manifest
deleting = skill (delete "old.py" ∷ other ∷ [])

moved_back : get "main.py" (begin_apply paths anywhere same project [] moving).0 ≡ some "v1"
unfolding program
moved_back = refl

-- The rest of a move that raised in the middle is removed.
half_moved_back :
    get "new.py"
      (begin_apply paths anywhere same project [] (skill (move "locked.py" "new.py" ∷ []))).0
    ≡ none
unfolding program
half_moved_back = refl

-- What an earlier crash left in the backup folder comes back as well.
leftover_restored :
    get "gone.py" (begin_apply paths anywhere same project (("gone.py", "g") ∷ []) moving).0
    ≡ some "g"
unfolding program
leftover_restored = refl

-- A deleted file is not saved, and stays lost.
deleted_is_lost : get "old.py" (begin_apply paths anywhere same project [] deleting).0 ≡ none
unfolding program
deleted_is_lost = refl

elsewhere :
    (k : String) → member k ("main.py" ∷ "new.py" ∷ []) ≡ false → get k edited ≡ get k project
unfolding member get
elsewhere k h =
    ground (
      arith,
      h,
      string_discrete "main.py" k,
      string_discrete "new.py" k,
      string_discrete "old.py" k,
    )

restore-create_example :
    get "new.py"
      (restore_backup (create_backup anywhere project [] ("main.py" ∷ "new.py" ∷ [])) edited)
    ≡ none
unfolding program
restore-create_example =
    restore-create anywhere project edited ("main.py" ∷ "new.py" ∷ [])
      ((refl, refl), ((refl, refl), tt)) elsewhere "new.py"

begin_apply-undone_example :
    get "main.py" (begin_apply paths anywhere same project [] moving).0 ≡ get "main.py" project
unfolding program
begin_apply-undone_example =
    begin_apply-undone paths anywhere same project moving paths-IsContained
      (
        (refl, refl),
        ((refl, refl), ((refl, refl), ((refl, refl), ((refl, refl), ((refl, refl), tt))))),
      )
      ((refl, refl), (tt, tt)) refl "main.py"

abbrev renames : Dict String
renames = ("a.py", "b.py") ∷ ("b.py", "c.py") ∷ ("x.py", "y.py") ∷ ("y.py", "x.py") ∷ []

end_of_chain : resolve_path_remap "a.py" renames ≡ some "c.py"
unfolding program
end_of_chain = refl

resolve-Ends_example : Ends renames "x.py" (resolve_path_remap "x.py" renames)
resolve-Ends_example = resolve-Ends "x.py" renames
