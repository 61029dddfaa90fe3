-- ===== src/Ipc/Isolation.antt =====
-- host/ipc_watcher.py: what the requests of a group that is not the main one can change.
use evoclaw.Base.{
  ℕ, String, ◌≡◌, refl, sym, ◌∙◌, ap, subst, ◌⊎◌, inl, inr, Option, none, some, List, [], ◌∷◌,
  if_pos, if_neg, arith, string_discrete, Option-cases,
}
use evoclaw.Base.Dict.{get, set, get-remove, get-set_ne, get-set_self}
use evoclaw.Db.{
  Database, Task, Change, active, set_prompt, set_schedule_type, set_schedule_value,
  set_last_result, set_context_mode, set_next_run, set_last_run, set_status, apply_change,
  apply_changes, create_task, update_task, delete_task,
}
use evoclaw.Db.Rows.{find_task, change_found, find_task-update}

-- There is no task, or it is the group's own.
abbrev pub IsOwn : String → Option Task → Type 0
IsOwn folder none = Unit {0}
IsOwn folder (some t) = t.group_folder ≡ folder

-- The table of groups and the log of runs are as before, and so is every task that is not the group's
-- own, before or after.
pub record Confined (folder : String) (db db' : Database) : Type 0 where
  pub groups : db'.registered_groups ≡ db.registered_groups
  pub runs : db'.task_run_logs ≡ db.task_run_logs
  pub tasks :
      (k : String)
      → (find_task db' k ≡ find_task db k)
        ⊎ IsOwn folder (find_task db k) × IsOwn folder (find_task db' k)

pub Confined-refl : (folder : String) (db : Database) → Confined folder db db
Confined-refl folder db = record { groups = refl; runs = refl; tasks = λ k. inl refl }

own_of : (folder : String) (x y : Option Task) → x ≡ y → IsOwn folder x → IsOwn folder y
own_of folder x y e h = subst (IsOwn folder) e h

chain :
    (folder : String) (x y z : Option Task)
    → (y ≡ x) ⊎ IsOwn folder x × IsOwn folder y
    → (z ≡ y) ⊎ IsOwn folder y × IsOwn folder z
    → (z ≡ x) ⊎ IsOwn folder x × IsOwn folder z
chain folder x y z (inl e) (inl e') = inl (e' ∙ e)
chain folder x y z (inl e) (inr (a, b)) = inr (own_of folder y x e a, b)
chain folder x y z (inr (a, b)) (inl e') = inr (a, own_of folder y z (sym e') b)
chain folder x y z (inr (a, _)) (inr (_, b)) = inr (a, b)

pub Confined-trans :
    (folder : String) (a b c : Database)
    → Confined folder a b
    → Confined folder b c
    → Confined folder a c
Confined-trans folder a b c h k = record {
  groups = k.groups ∙ h.groups;
  runs = k.runs ∙ h.runs;
  tasks = λ j. chain folder (find_task a j) (find_task b j) (find_task c j) (h.tasks j) (k.tasks j);
}

change-folder : (t : Task) (c : Change) → (apply_change t c).group_folder ≡ t.group_folder
unfolding apply_change
change-folder t (set_prompt _) = refl
change-folder t (set_schedule_type _) = refl
change-folder t (set_schedule_value _) = refl
change-folder t (set_last_result _) = refl
change-folder t (set_context_mode _) = refl
change-folder t (set_next_run _) = refl
change-folder t (set_last_run _) = refl
change-folder t (set_status _) = refl

changes-folder : (t : Task) (cs : List Change) → (apply_changes t cs).group_folder ≡ t.group_folder
unfolding apply_changes
changes-folder t [] = refl
changes-folder t (c ∷ cs) = changes-folder (apply_change t c) cs ∙ change-folder t c

update-own :
    (folder id k : String) (db : Database) (cs : List Change) (t : Task)
    → find_task db id ≡ some t
    → t.group_folder ≡ folder
    → (find_task (update_task db id cs) k ≡ find_task db k)
      ⊎ IsOwn folder (find_task db k) × IsOwn folder (find_task (update_task db id cs) k)
update-own folder id k db cs t found own = elim (string_discrete id k) [
  | no n ↦ inl (
      find_task-update db id k cs
      ∙ if_neg (string_discrete id k) n (change_found cs (find_task db k)) (find_task db k))
  | yes e ↦
      let here : find_task db k ≡ some t = subst (λ j. find_task db j ≡ some t) e found in
      let there : find_task (update_task db id cs) k ≡ some (apply_changes t cs) =
        find_task-update db id k cs
        ∙ if_pos _ e (change_found cs (find_task db k)) (find_task db k)
        ∙ ap (change_found cs) here in
      inr (
        own_of folder _ _ (sym here) own,
        own_of folder _ _ (sym there) (changes-folder t cs ∙ own),
      )
]

pub update-Confined :
    (folder id : String) (db : Database) (cs : List Change) (t : Task)
    → find_task db id ≡ some t
    → t.group_folder ≡ folder
    → Confined folder db (update_task db id cs)
unfolding update_task
update-Confined folder id db cs t found own = record {
  groups = ground (arith, found);
  runs = ground (arith, found);
  tasks = λ k. update-own folder id k db cs t found own;
}

delete-own :
    (folder id k : String) (db : Database) (t : Task)
    → find_task db id ≡ some t
    → t.group_folder ≡ folder
    → (find_task (delete_task db id) k ≡ find_task db k)
      ⊎ IsOwn folder (find_task db k) × IsOwn folder (find_task (delete_task db id) k)
unfolding delete_task
delete-own folder id k db t found own = elim (string_discrete id k) [
  | no n ↦
      inl
        (get-remove id k db.scheduled_tasks ∙ if_neg (string_discrete id k) n none (find_task db k))
  | yes e ↦
      let here : find_task db k ≡ some t = subst (λ j. find_task db j ≡ some t) e found in
      let gone : find_task (delete_task db id) k ≡ none =
        get-remove id k db.scheduled_tasks ∙ if_pos _ e none (find_task db k) in
      inr (own_of folder _ _ (sym here) own, own_of folder none _ (sym gone) tt)
]

pub delete-Confined :
    (folder id : String) (db : Database) (t : Task)
    → find_task db id ≡ some t
    → t.group_folder ≡ folder
    → Confined folder db (delete_task db id)
unfolding delete_task
delete-Confined folder id db t found own = record {
  groups = refl;
  runs = refl;
  tasks = λ k. delete-own folder id k db t found own;
}

create-own :
    (folder id k : String) (db : Database) (t : Task)
    → find_task db id ≡ none
    → t.group_folder ≡ folder
    → (get k (set id t db.scheduled_tasks) ≡ find_task db k)
      ⊎ IsOwn folder (find_task db k) × IsOwn folder (get k (set id t db.scheduled_tasks))
create-own folder id k db t free own = elim (string_discrete id k) [
  | no n ↦ inl (get-set_ne id k t db.scheduled_tasks n)
  | yes e ↦ inr (
    own_of folder none _ (sym (subst (λ j. find_task db j ≡ none) e free)) tt,
    own_of folder (some t) _
        (sym (
          subst (λ j. get j (set id t db.scheduled_tasks) ≡ some t) e
            (get-set_self id t db.scheduled_tasks)))
        own,
  )
]

pub create-Confined :
    (folder id chat prompt type value mode : String) (next : Option ℕ) (now : ℕ) (db db' : Database)
    → create_task db id folder chat prompt type value next now mode ≡ some db'
    → Confined folder db db'
unfolding create_task
create-Confined folder id chat prompt type value mode next now db db' h =
    elim (Option-cases (get id db.scheduled_tasks)) [
      | inr (t, e) ↦ absurd (ground (arith, h, e))
      | inl e ↦
          let new : Task = record {
            id = id;
            group_folder = folder;
            chat_jid = chat;
            prompt = prompt;
            schedule_type = type;
            schedule_value = value;
            next_run = next;
            last_run = none;
            last_result = none;
            status = active;
            created_at = now;
            context_mode = mode;
          } in
          let made : record db { scheduled_tasks = set id new db.scheduled_tasks } ≡ db' =
            ground (arith, h, e) in
          subst (Confined folder db) made (record {
            groups = refl;
            runs = refl;
            tasks = λ k. create-own folder id k db new e refl;
          })
    ]
