-- ===== src/Db/Rows.antt =====
-- host/db.py: what each statement on the table of tasks leaves in it.
use evoclaw.Base.{
  String, ◌≡◌, Option, none, some, List, ite, arith, string_discrete, Option-cases, inl, inr,
}
use evoclaw.Base.Dict.{get, get-set}
use evoclaw.Db.{Database, Task, Change, update_task, apply_changes}

-- What a lookup of a task finds.
abbrev pub find_task : Database → String → Option Task
find_task db k = get k db.scheduled_tasks

abbrev pub change_found : List Change → Option Task → Option Task
change_found changes none = none
change_found changes (some t) = some (apply_changes t changes)

pub find_task-update :
    (db : Database) (k j : String) (changes : List Change)
    → find_task (update_task db k changes) j
      ≡ ite (string_discrete k j) (change_found changes (find_task db j)) (find_task db j)
unfolding update_task
find_task-update db k j changes = elim (Option-cases (get k db.scheduled_tasks)) [
  | inl e ↦ ground (arith, e, string_discrete k j)
  | inr (t, e) ↦
      ground
        (arith, e, get-set k j (apply_changes t changes) db.scheduled_tasks, string_discrete k j)
]
