-- ===== src/Backup/Undone.antt =====
-- skills_engine/apply.py: what is left of a skill whose file operations fail.
use evoclaw.Base.{
  String, Bool, true, false, ◌≡◌, refl, ap, ◌∙◌, ◌≢◌, inl, inr, List, [], ◌∷◌, string_discrete,
  member, arith, All, Option-cases, some,
}
use evoclaw.Base.Dict.{get, remove, get-set, get-remove}
use evoclaw.Backup.{Files}
use evoclaw.Backup.Restored.{IsPlain, restore-create}
use evoclaw.Backup.FileOps.{
  FileOp, rename, move, delete, other, Manifest, Paths, move_file, perform, execute_op,
  execute_file_ops, files_to_backup, begin_apply,
}

-- The files that an operation writes or deletes are saved.
abbrev pub IsSaved : List String → FileOp → Type 0
IsSaved saved (rename from to) = (member from saved ≡ true) × (member to saved ≡ true)
IsSaved saved (move from to) = (member from saved ≡ true) × (member to saved ≡ true)
IsSaved saved (delete path) = member path saved ≡ true
IsSaved saved other = Unit {0}

abbrev pub named_by : FileOp → List String
named_by (rename from to) = from ∷ to ∷ []
named_by (move from to) = from ∷ to ∷ []
named_by (delete path) = path ∷ []
named_by other = []

-- An operation that raises may have been done in part, but only on the files that it names.
abbrev pub IsContained : Paths → Type 0
IsContained paths =
    (files left : Files) (op : FileOp) (k : String)
    → paths.interrupted files op ≡ some left
    → member k (named_by op) ≡ false
    → get k left ≡ get k files

apart_from :
    (saved : List String) (j k : String) → member j saved ≡ true → member k saved ≡ false → j ≢ k
apart_from saved j k here out e = cc (ap (λ i. member i saved) e)

move_file_elsewhere :
    (paths : Paths) (files : Files) (from to k : String)
    → from ≢ k
    → to ≢ k
    → get k (move_file paths files from to) ≡ get k files
unfolding move_file
move_file_elsewhere paths files from to k n m = elim (Option-cases (get from files)) [
  | inl e ↦ rw (e, move_file) refl
  | inr (content, e) ↦ ground (
    arith,
    e,
    n,
    m,
    get-set to k content (remove from files),
    get-remove from k files,
    string_discrete to k,
    string_discrete from k,
  )
]

module _ (paths : Paths) (contained : IsContained paths) (saved : List String) (k : String)
    (out : member k saved ≡ false) where
  perform_elsewhere :
      (files after : Files) (op : FileOp)
      → member k (named_by op) ≡ false
      → get k after ≡ get k files
      → get k (perform paths files op after).0 ≡ get k files
  unfolding perform
  perform_elsewhere files after op unnamed h = elim (Option-cases (paths.interrupted files op)) [
    | inl e ↦ rw (e, perform) h
    | inr (left, e) ↦ rw (e, perform) (contained files left op k e unnamed)
  ]

  not_either :
      (from to : String)
      → member from saved ≡ true
      → member to saved ≡ true
      → member k (from ∷ to ∷ []) ≡ false
  unfolding member
  not_either from to a b = ground (
    arith,
    string_discrete from k,
    string_discrete to k,
    apart_from saved from k a out,
    apart_from saved to k b out,
  )

  not_that : (path : String) → member path saved ≡ true → member k (path ∷ []) ≡ false
  unfolding member
  not_that path a = ground (arith, string_discrete path k, apart_from saved path k a out)

  move_elsewhere :
      (files : Files) (from to : String)
      → member from saved ≡ true
      → member to saved ≡ true
      → get k (move_file paths files from to) ≡ get k files
  move_elsewhere files from to a b =
      move_file_elsewhere paths files from to k (apart_from saved from k a out)
        (apart_from saved to k b out)

  remove_elsewhere :
      (files : Files) (path : String)
      → member path saved ≡ true
      → get k (remove path files) ≡ get k files
  remove_elsewhere files path a =
      ground (arith, get-remove path k files, string_discrete path k, apart_from saved path k a out)

  execute_op_elsewhere :
      (files : Files) (op : FileOp)
      → IsSaved saved op
      → get k (execute_op paths files op).0 ≡ get k files
  unfolding execute_op
  execute_op_elsewhere files (rename from to) (a, b) = ground (
    arith,
    perform_elsewhere files (move_file paths files from to) (rename from to)
        (not_either from to a b) (move_elsewhere files from to a b),
  )
  execute_op_elsewhere files (move from to) (a, b) = ground (
    arith,
    perform_elsewhere files (move_file paths files from to) (move from to) (not_either from to a b)
        (move_elsewhere files from to a b),
  )
  execute_op_elsewhere files (delete path) a = ground (
    arith,
    perform_elsewhere files (remove path files) (delete path) (not_that path a)
        (remove_elsewhere files path a),
  )
  execute_op_elsewhere files other a = refl

  execute_file_ops_elsewhere :
      (files : Files) (ops : List FileOp)
      → All (IsSaved saved) ops
      → get k (execute_file_ops paths files ops).0 ≡ get k files
  unfolding execute_file_ops
  execute_file_ops_elsewhere files [] a = refl
  execute_file_ops_elsewhere files (op ∷ ops) (here, later) =
      execute_file_ops_elsewhere (execute_op paths files op).0 ops later
      ∙ execute_op_elsewhere files op here

-- If the backup folder was empty, no operation moves or deletes a folder, every file that an operation
-- moves, overwrites or deletes is among the saved ones, which are paths inside the project and not
-- named like a tombstone, and a call of the system that raises has changed no file that its operation
-- does not name, then a skill with an operation that fails, refused by the checks or by the system,
-- leaves every file as it was.
pub begin_apply-undone :
    (paths : Paths) (is_inside : String → Bool) (resolve : String → String) (files : Files)
    (m : Manifest)
    → IsContained paths
    → All (IsPlain is_inside) (files_to_backup resolve m)
    → All (IsSaved (files_to_backup resolve m)) m.file_ops
    → (begin_apply paths is_inside resolve files [] m).1 ≡ false
    → (k : String) → get k (begin_apply paths is_inside resolve files [] m).0 ≡ get k files
unfolding begin_apply
begin_apply-undone paths is_inside resolve files m contained plain saved failed k =
    let restored =
      restore-create is_inside files (execute_file_ops paths files m.file_ops).0
        (files_to_backup resolve m) plain
        (λ j out.
          execute_file_ops_elsewhere paths contained (files_to_backup resolve m) j out files
            m.file_ops saved)
        k in
    ground (arith, failed, restored)
