-- ===== src/Ipc/Inside.antt =====
-- host/ipc_watcher.py: the files that a container may have sent lie where they should.
use Prim.Native.Char.{Char}
use Prim.Native.String.{String}
use text.Mathlib.TextEquality.{Char-path}
use evoclaw.Base.{
  ap, ◌∙◌, strip_prefix, concat, Bool, true, false, ◌≡◌, refl, sym, subst, inl, inr, some, List, [],
  ◌∷◌, ◌++◌, map, arith, string_discrete, Option-cases, member,
}
use evoclaw.Ipc.Request.{Env}
use evoclaw.Ipc.Paths.{
  forward_slashes, relative_to, last_part, is_sensitive, any_member, any_suffix, sensitive_names,
  sensitive_dirs, sensitive_suffixes, is_sensitive_send_file_path, check_resolved, find_root,
  resolve_container_path,
}

append-relative_to :
    (root path below : List String) → relative_to root path ≡ some below → root ++ below ≡ path
unfolding relative_to
append-relative_to [] path below h = ground (arith, h)
append-relative_to (r ∷ root) [] below h = absurd (ground (arith, h))
append-relative_to (r ∷ root) (x ∷ path) below h =
    ground (arith, h, string_discrete x r, append-relative_to root path below)

not_in_dirs :
    (parts : List String) (k : String)
    → any_member sensitive_dirs parts ≡ false
    → member k sensitive_dirs ≡ true
    → member k parts ≡ false
unfolding any_member member
not_in_dirs [] k h m = refl
not_in_dirs (y ∷ parts) k h m = elim (string_discrete y k) [
  | yes e ↦ absurd (ground (arith, h, subst (λ j. member j sensitive_dirs ≡ true) (sym e) m))
  | no n ↦ ground (arith, h, n, not_in_dirs parts k, m, string_discrete y k)
]

-- What the container sees under a prefix: the host's folder of its group, the project if it is the
-- main group's, the IPC folder of the group, or the folder of all groups.
pub data IsMount (env : Env) (folder : String) (is_main : Bool)
    : String → List String → Type 0 where
  group : IsMount env folder is_main "/workspace/group/" (env.groups_dir ++ folder ∷ [])
  project : is_main ≡ true → IsMount env folder is_main "/workspace/project/" env.base_dir
  ipc : IsMount env folder is_main "/workspace/ipc/" (env.data_dir ++ "ipc" ∷ folder ∷ [])
  global : IsMount env folder is_main "/workspace/global/" (env.groups_dir ++ "global" ∷ [])

-- The container's path is a prefix and the path of a file below the folder that is mounted there,
-- which resolves to a file below the resolved folder that may be sent.
pub record Inside (env : Env) (container_path folder : String) (is_main : Bool) (host : String)
    : Type 0 where
  pub prefix : String
  pub dir : List String
  pub rel : String
  pub expected : List String
  pub below : List String
  pub mounted : IsMount env folder is_main prefix dir
  pub asked : concat prefix rel ≡ env.strip (forward_slashes container_path)
  pub named : host ≡ env.host_path dir rel
  pub root_at : env.resolve_path dir "" ≡ some expected
  pub file_at : env.resolve_path dir rel ≡ some (expected ++ below)
  pub plain_dirs :
      (dir : String) → member dir sensitive_dirs ≡ true → member dir (map env.lower below) ≡ false
  pub plain_name : member (env.lower (last_part (expected ++ below))) sensitive_names ≡ false
  pub plain_suffix :
      any_suffix sensitive_suffixes (env.lower (last_part (expected ++ below))) ≡ false

-- What the checks say of a path that passes them.
check-Inside :
    (env : Env) (container_path folder prefix rel host : String) (dir : List String)
    (is_main : Bool)
    → IsMount env folder is_main prefix dir
    → concat prefix rel ≡ env.strip (forward_slashes container_path)
    → check_resolved env dir rel ≡ some host
    → Inside env container_path folder is_main host
unfolding check_resolved is_sensitive_send_file_path is_sensitive
check-Inside env container_path folder prefix rel host dir is_main mount asked h =
    elim (Option-cases (env.resolve_path dir rel)) [
      | inl e ↦ absurd (ground (arith, h, e))
      | inr (path, e) ↦ elim (Option-cases (env.resolve_path dir "")) [
        | inl e' ↦ absurd (ground (arith, h, e, e'))
        | inr (expected, e') ↦ elim (Option-cases (relative_to expected path)) [
          | inl r ↦ absurd (ground (arith, h, e, e', r))
          | inr (below, r) ↦
              let whole : expected ++ below ≡ path = append-relative_to expected path below r in
              let dirs : any_member sensitive_dirs (map env.lower below) ≡ false =
                ground (arith, h, e, e', r) in
              record {
                prefix = prefix;
                dir = dir;
                rel = rel;
                expected = expected;
                below = below;
                mounted = mount;
                asked = asked;
                named = ground (arith, h, e, e', r);
                root_at = e';
                file_at = rw whole e;
                plain_dirs = λ dir. not_in_dirs (map env.lower below) dir dirs;
                plain_name = rw whole (ground (arith, h, e, e', r));
                plain_suffix = rw whole (ground (arith, h, e, e', r));
              }
        ]
      ]
    ]

strip_cases :
    (c d : Char) (p s rel : String)
    → strip_prefix (String.◌∷◌ d p) (String.◌∷◌ c s) ≡ some rel
    → (c ≡ d) × (strip_prefix p s ≡ some rel)
unfolding strip_prefix
strip_cases c d p s rel h = (Char-path c d (ground (arith, h)), ground (arith, h))

concat-strip_prefix : (p s rel : String) → strip_prefix p s ≡ some rel → concat p rel ≡ s
unfolding strip_prefix concat
concat-strip_prefix String.[] s rel h = ground (arith, h)
concat-strip_prefix (String.◌∷◌ d p) String.[] rel h = absurd (ground (arith, h))
concat-strip_prefix (String.◌∷◌ d p) (String.◌∷◌ c s) rel h =
    let (same, below) = strip_cases c d p s rel h in
    λ i. String.◌∷◌ (sym same i) (concat-strip_prefix p s rel below i)

-- The file that `find_root` gives is below the folder mounted where the path says.
root-IsMount :
    (env : Env) (folder p : String) (is_main : Bool) (dir : List String) (rel : String)
    → find_root env folder is_main p ≡ some (dir, rel)
    → (prefix : String) × IsMount env folder is_main prefix dir × (concat prefix rel ≡ p)
unfolding find_root
root-IsMount env folder p is_main dir rel h =
    elim (Option-cases (strip_prefix "/workspace/group/" p)) [
      | inr (r, a) ↦ mounted_below _ _ r group a (ground (arith, h, a)) (ground (arith, h, a))
      | inl a ↦ elim (Option-cases (strip_prefix "/workspace/project/" p)) [
        | inr (r, b) ↦
            mounted_below _ _ r (project (ground (arith, h, a, b))) b (ground (arith, h, a, b))
              (ground (arith, h, a, b))
        | inl b ↦ elim (Option-cases (strip_prefix "/workspace/ipc/" p)) [
          | inr (r, c) ↦
              mounted_below _ _ r ipc c (ground (arith, h, a, b, c)) (ground (arith, h, a, b, c))
          | inl c ↦ elim (Option-cases (strip_prefix "/workspace/global/" p)) [
            | inr (r, d) ↦
                mounted_below _ _ r global d (ground (arith, h, a, b, c, d))
                  (ground (arith, h, a, b, c, d))
            | inl d ↦ absurd (ground (arith, h, a, b, c, d))
          ]
        ]
      ]
    ]
  where
    mounted_below :
        (prefix : String) (root : List String) (r : String)
        → IsMount env folder is_main prefix root
        → strip_prefix prefix p ≡ some r
        → root ≡ dir
        → r ≡ rel
        → (prefix : String) × IsMount env folder is_main prefix dir × (concat prefix rel ≡ p)
    mounted_below prefix root r mount found at_dir at_rel = (
      prefix,
      subst (λ d. IsMount env folder is_main prefix d) at_dir mount,
      ap (concat prefix) (sym at_rel) ∙ concat-strip_prefix prefix p r found,
    )

-- A container's path that is accepted, with slashes for backslashes and stripped, is a prefix and a path
-- below it, and the file lies under the folder of the host that is mounted at that prefix: the group's
-- folder, its IPC folder, the shared folder or, for the main group only, the project. The file's
-- resolved path is below the resolved folder. No part of the path below it is `.git`, `store` or `data`,
-- and its name is none of the sensitive names and has none of the sensitive suffixes, all in lower case.
pub resolve-Inside :
    (env : Env) (container_path folder host : String) (is_main : Bool)
    → resolve_container_path env container_path folder is_main ≡ some host
    → Inside env container_path folder is_main host
unfolding resolve_container_path
resolve-Inside env container_path folder host is_main h =
    let p = env.strip (forward_slashes container_path) in
    elim (Option-cases (find_root env folder is_main p)) [
      | inl e ↦ absurd (ground (arith, h, e, string_discrete folder ""))
      | inr ((dir, rel), e) ↦
          let (prefix, mount, asked) = root-IsMount env folder p is_main dir rel e in
          check-Inside env container_path folder prefix rel host dir is_main mount asked
            (ground (arith, h, e, string_discrete folder ""))
    ]
