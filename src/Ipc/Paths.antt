-- ===== src/Ipc/Paths.antt =====
-- host/ipc_watcher.py: `_resolve_container_path`, which file of the host a container may send. A path
-- is the list of its parts.
use Prim.Native.Char.{code}
use Prim.Native.String.{String}
use evoclaw.Base.{
  Bool, false, ◌||◌, Option, none, some, List, [], ◌∷◌, map, ◌==◌, if◌then◌else◌, ite,
  string_discrete, member, strip_prefix, ends_with, ◌++◌,
}
use evoclaw.Ipc.Request.{Env}

-- `s.replace("\\", "/")`
unfoldable pub forward_slashes : String → String
forward_slashes String.[] = String.[]
forward_slashes (String.◌∷◌ c s) =
    let rest = forward_slashes s in if code c == 92 then String.◌∷◌ "/" rest else String.◌∷◌ c rest

-- `path.relative_to(root)`: the parts below the root, if the path is below it.
unfoldable pub relative_to : List String → List String → Option (List String)
relative_to [] path = some path
relative_to (r ∷ root) [] = none
relative_to (r ∷ root) (x ∷ path) =
    let rest = relative_to root path in ite (string_discrete x r) rest none

-- `path.name`
unfoldable pub last_part : List String → String
last_part [] = ""
last_part (x ∷ []) = x
last_part (x ∷ y ∷ path) = last_part (y ∷ path)

abbrev pub sensitive_names : List String
sensitive_names =
    ".env" ∷ ".env.local" ∷ ".netrc" ∷ "id_rsa" ∷ "id_dsa" ∷ "id_ecdsa" ∷ "id_ed25519" ∷ []

abbrev pub sensitive_suffixes : List String
sensitive_suffixes = ".pem" ∷ ".key" ∷ ".p12" ∷ ".pfx" ∷ ".crt" ∷ []

abbrev pub sensitive_dirs : List String
sensitive_dirs = ".git" ∷ "store" ∷ "data" ∷ []

unfoldable pub any_member : List String → List String → Bool
any_member xs [] = false
any_member xs (y ∷ ys) = member y xs || any_member xs ys

unfoldable pub any_suffix : List String → String → Bool
any_suffix [] name = false
any_suffix (p ∷ ps) name = ends_with p name || any_suffix ps name

-- The path below the root, its parts in lower case.
unfoldable pub is_sensitive : List String → String → Bool
is_sensitive parts name =
    any_member sensitive_dirs parts
    || member name sensitive_names
    || any_suffix sensitive_suffixes name

unfoldable pub is_sensitive_send_file_path : (String → String) → List String → List String → Bool
is_sensitive_send_file_path lower path root = elim (relative_to root path) [
  | some below ↦ is_sensitive (map lower below) (lower (last_part path))
  | none ↦ is_sensitive (lower (last_part path) ∷ []) (lower (last_part path))
]

-- The `try` at the end: a path that does not resolve is refused.
unfoldable pub check_resolved : Env → List String → String → Option String
check_resolved env dir rel = elim (env.resolve_path dir rel) [
  | none ↦ none
  | some path ↦ elim (env.resolve_path dir "") [
    | none ↦ none
    | some expected ↦ elim (relative_to expected path) [
      | none ↦ none
      | some _ ↦
          if is_sensitive_send_file_path env.lower path expected
          then none
          else some (env.host_path dir rel)
    ]
  ]
]

-- The chain of prefixes: the root of the host's path, and the path below it.
unfoldable pub find_root : Env → String → Bool → String → Option (List String × String)
find_root env folder is_main p = elim (strip_prefix "/workspace/group/" p) [
  | some rel ↦ some (env.groups_dir ++ folder ∷ [], rel)
  | none ↦ elim (strip_prefix "/workspace/project/" p) [
    | some rel ↦ if is_main then some (env.base_dir, rel) else none
    | none ↦ elim (strip_prefix "/workspace/ipc/" p) [
      | some rel ↦ some (env.data_dir ++ "ipc" ∷ folder ∷ [], rel)
      | none ↦ elim (strip_prefix "/workspace/global/" p) [
        | some rel ↦ some (env.groups_dir ++ "global" ∷ [], rel)
        | none ↦ none
      ]
    ]
  ]
]

unfoldable pub resolve_container_path : Env → String → String → Bool → Option String
resolve_container_path env container_path folder is_main =
    ite (string_discrete folder "") none
      (elim (find_root env folder is_main (env.strip (forward_slashes container_path))) [
        | none ↦ none
        | some (dir, rel) ↦ check_resolved env dir rel
      ])
