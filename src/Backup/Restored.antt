-- ===== src/Backup/Restored.antt =====
-- skills_engine/backup.py: what a restored backup gives back.
use Prim.Native.String.{String}
use evoclaw.Base.{
  ℕ, zero, suc, ◌+◌, ◌≡◌, refl, sym, ap, subst, ◌∙◌, ◌⊎◌, inl, inr, Bool, true, false, none, some,
  List, [], ◌∷◌, if◌then◌else◌, member, concat, ends_with, string_discrete, arith, ite, if_pos,
  if_neg, All, Option-cases, Bool-cases,
}
use evoclaw.Base.Dict.{get, set, get-set, get-remove}
use evoclaw.Backup.{
  Files, tombstone_suffix, text_length, first, cut_suffix, save_file, create_backup, restore_file,
  restore_backup,
}

first_all : (s t : String) (n : ℕ) → n ≡ text_length s → first n (concat s t) ≡ s
unfolding first concat text_length
first_all String.[] t zero e = refl
first_all String.[] t (suc n) e = absurd (omega arith)
first_all (String.◌∷◌ c s) t zero e = absurd (omega arith)
first_all (String.◌∷◌ c s) t (suc n) e = ap (λ r. String.◌∷◌ c r) (first_all s t n (omega arith))

text_length-concat : (s t : String) → text_length (concat s t) ≡ text_length s + text_length t
unfolding text_length concat
text_length-concat String.[] t = omega arith
text_length-concat (String.◌∷◌ c s) t = omega (arith, text_length-concat s t)

cut_suffix-concat : (s : String) → cut_suffix (concat s tombstone_suffix) ≡ s
unfolding cut_suffix
cut_suffix-concat s =
    first_all s tombstone_suffix _ (omega (arith, text_length-concat s tombstone_suffix))

ends_with_self : (t : String) → ends_with t t ≡ true
unfolding ends_with
ends_with_self String.[] = ground (arith, string_discrete String.[] "")
ends_with_self (String.◌∷◌ c s) = ground (arith, string_discrete (String.◌∷◌ c s) (String.◌∷◌ c s))

ends_with-concat : (s t : String) → ends_with t (concat s t) ≡ true
unfolding ends_with concat
ends_with-concat String.[] t = ends_with_self t
ends_with-concat (String.◌∷◌ c s) t =
    ground (arith, ends_with-concat s t, string_discrete t (String.◌∷◌ c (concat s t)))

-- The file that an entry of the backup folder is about.
abbrev target : String → String
target name = if ends_with tombstone_suffix name then cut_suffix name else name

-- The entry says what the file was.
abbrev IsFaithful : Files → String × String → Type 0
IsFaithful files (name, content) =
    get (target name) files ≡ (if ends_with tombstone_suffix name then none else some content)

-- An entry is about the file.
abbrev Covers : String → Files → Type 0
Covers k [] = ⊥
Covers k ((name, _) ∷ backup) = (target name ≡ k) ⊎ Covers k backup

-- A restored entry gives its file back, and no other file changes.
get-restore_file :
    (files cur : Files) (name content k : String)
    → IsFaithful files (name, content)
    → get k (restore_file cur name content)
      ≡ ite (string_discrete (target name) k) (get k files) (get k cur)
unfolding restore_file
get-restore_file files cur name content k faithful = elim (string_discrete (target name) k) [
  | yes e ↦
      let here : get k files ≡ (if ends_with tombstone_suffix name then none else some content) =
        subst (λ j. get j files ≡ (if ends_with tombstone_suffix name then none else some content))
          e faithful in
      ground (
        arith,
        e,
        here,
        string_discrete (target name) k,
        get-remove (cut_suffix name) k cur,
        get-set name k content cur,
        string_discrete (cut_suffix name) k,
        string_discrete name k,
      )
  | no n ↦ ground (
    arith,
    n,
    string_discrete (target name) k,
    get-remove (cut_suffix name) k cur,
    get-set name k content cur,
    string_discrete (cut_suffix name) k,
    string_discrete name k,
  )
]

-- After the restore, a file is as it was if it was not touched or has an entry.
restore-agrees :
    (files backup cur : Files) (k : String)
    → All (IsFaithful files) backup
    → (get k cur ≡ get k files) ⊎ Covers k backup
    → get k (restore_backup backup cur) ≡ get k files
unfolding restore_backup
restore-agrees files [] cur k faithful (inl e) = e
restore-agrees files [] cur k faithful (inr c) = absurd c
restore-agrees files ((name, content) ∷ backup) cur k (here, later) h =
    restore-agrees files backup (restore_file cur name content) k later
      (elim (string_discrete (target name) k) [
        | yes e ↦ inl (
            get-restore_file files cur name content k here
            ∙ if_pos (string_discrete (target name) k) e (get k files) (get k cur))
        | no n ↦ elim h [
          | inl same ↦ inl (
              get-restore_file files cur name content k here
              ∙ if_neg (string_discrete (target name) k) n (get k files) (get k cur)
              ∙ same)
          | inr (inl e) ↦ absurd (n e)
          | inr (inr c) ↦ inr c
        ]
      ])

All-set :
    (P : String × String → Type 0) (name content : String) (backup : Files)
    → P (name, content)
    → All P backup
    → All P (set name content backup)
unfolding set
All-set P name content [] h a = (h, tt)
All-set P name content ((j, w) ∷ backup) h (here, later) = elim (string_discrete j name) [
  | yes e ↦ rw (if_pos (string_discrete j name) e) (subst (λ i. P (i, content)) (sym e) h, later)
  | no n ↦ rw (if_neg (string_discrete j name) n) (here, All-set P name content backup h later)
]

Covers-set :
    (name content k : String) (backup : Files)
    → (target name ≡ k) ⊎ Covers k backup
    → Covers k (set name content backup)
unfolding set
Covers-set name content k [] (inl e) = inl e
Covers-set name content k [] (inr c) = absurd c
Covers-set name content k ((j, w) ∷ backup) h = elim (string_discrete j name) [
  | yes e ↦
      rw (if_pos (string_discrete j name) e)
        (elim h [ inl t ↦ inl (cc (t, ap target e)) | inr c ↦ c ])
  | no n ↦ rw (if_neg (string_discrete j name) n) (elim h [
    | inl t ↦ inr (Covers-set name content k backup (inl t))
    | inr (inl t) ↦ inl t
    | inr (inr c) ↦ inr (Covers-set name content k backup (inr c))
  ])
]

-- A path inside the project that is not the name of a tombstone.
abbrev pub IsPlain : (String → Bool) → String → Type 0
IsPlain is_inside path = (is_inside path ≡ true) × (ends_with tombstone_suffix path ≡ false)

save_file-IsFaithful :
    (files backup : Files) (path : String)
    → ends_with tombstone_suffix path ≡ false
    → All (IsFaithful files) backup
    → All (IsFaithful files) (save_file files backup path)
unfolding save_file
save_file-IsFaithful files backup path plain a = elim (Option-cases (get path files)) [
  | inl e ↦
      rw (e, save_file)
        (All-set (IsFaithful files) (concat path tombstone_suffix) "" backup
          (rw (ends_with-concat path tombstone_suffix, cut_suffix-concat path) e) a)
  | inr (content, e) ↦
      rw (e, save_file) (All-set (IsFaithful files) path content backup (rw plain e) a)
]

save_file-Covers :
    (files backup : Files) (path k : String)
    → ends_with tombstone_suffix path ≡ false
    → (path ≡ k) ⊎ Covers k backup
    → Covers k (save_file files backup path)
unfolding save_file
save_file-Covers files backup path k plain h = elim (Option-cases (get path files)) [
  | inl e ↦
      rw (e, save_file)
        (Covers-set (concat path tombstone_suffix) "" k backup (elim h [
          | inl p ↦ inl (rw (ends_with-concat path tombstone_suffix, cut_suffix-concat path) p)
          | inr c ↦ inr c
        ]))
  | inr (content, e) ↦
      rw (e, save_file)
        (Covers-set path content k backup (elim h [ inl p ↦ inl (rw plain p) | inr c ↦ inr c ]))
]

create_backup-IsFaithful :
    (is_inside : String → Bool) (files backup : Files) (paths : List String)
    → All (IsPlain is_inside) paths
    → All (IsFaithful files) backup
    → All (IsFaithful files) (create_backup is_inside files backup paths)
unfolding create_backup
create_backup-IsFaithful is_inside files backup [] p a = a
create_backup-IsFaithful is_inside files backup (path ∷ paths) ((inside, plain), later) a =
    rw inside (
      create_backup-IsFaithful is_inside files (save_file files backup path) paths later
        (save_file-IsFaithful files backup path plain a))

create_backup-Covers :
    (is_inside : String → Bool) (files backup : Files) (paths : List String) (k : String)
    → All (IsPlain is_inside) paths
    → (member k paths ≡ true) ⊎ Covers k backup
    → Covers k (create_backup is_inside files backup paths)
unfolding create_backup member
create_backup-Covers is_inside files backup [] k p (inl e) = absurd (ground (arith, e))
create_backup-Covers is_inside files backup [] k p (inr c) = c
create_backup-Covers is_inside files backup (path ∷ paths) k ((inside, plain), later) h =
    rw inside (
      create_backup-Covers is_inside files (save_file files backup path) paths k later
        (elim (string_discrete path k) [
          | yes e ↦ inr (save_file-Covers files backup path k plain (inl e))
          | no n ↦ elim h [
            | inl m ↦ inl (ground (arith, m, n, string_discrete path k))
            | inr c ↦ inr (save_file-Covers files backup path k plain (inr c))
          ]
        ]))

-- If the backup folder was empty when files were saved, all of them inside the project and none named
-- like a tombstone, then whatever was done to them since, and nothing else, the restored backup gives
-- every file of the project back as it was, and deletes the files that were not there.
pub restore-create :
    (is_inside : String → Bool) (files later : Files) (paths : List String)
    → All (IsPlain is_inside) paths
    → ((k : String) → member k paths ≡ false → get k later ≡ get k files)
    → (k : String)
    → get k (restore_backup (create_backup is_inside files [] paths) later) ≡ get k files
restore-create is_inside files later paths plain others k =
    restore-agrees files (create_backup is_inside files [] paths) later k
      (create_backup-IsFaithful is_inside files [] paths plain tt)
      (elim (Bool-cases (member k paths)) [
        | inl e ↦ inr (create_backup-Covers is_inside files [] paths k plain (inl e))
        | inr e ↦ inl (others k e)
      ])
