-- ===== src/Ipc/TaskRequests.antt =====
-- host/ipc_watcher.py: `_handle_ipc`, the requests that write the table of tasks.
use evoclaw.Base.{
  ℕ, String, Bool, true, false, ◌||◌, Option, none, some, List, [], ◌∷◌, ◌++◌, if◌then◌else◌,
}
use evoclaw.Base.Dict.{get}
use evoclaw.Schedule.{first_run}
use evoclaw.Db.{
  Database, Task, Group, Change, TaskStatus, active, paused, set_prompt, set_schedule_type,
  set_schedule_value, set_context_mode, set_next_run, set_status, rows, create_task, delete_task,
  set_registered_group,
}
use evoclaw.Db
use evoclaw.Ipc.Request.{Payload, field, not_permitted, constraint, Handled, handled, raised, Env}
use evoclaw.Ipc.Rights.{chat_or_own, own_or_main, get_authorized_task, value_or}

unfoldable pub or_constraint : Option Database → Handled
or_constraint none = raised constraint
or_constraint (some db) = handled db []

unfoldable pub handle_schedule_task :
    Env → Database → String → Bool → Payload → String → ℕ → Handled
handle_schedule_task env db folder is_main p task_id now =
    let schedule_type = field p "schedule_type" "" in
    let schedule_value = field p "schedule_value" "" in
    if own_or_main folder (field p "groupFolder" folder) is_main
    then or_constraint (
        create_task db task_id folder (chat_or_own db folder (field p "chatJid" ""))
          (field p "prompt" "") schedule_type schedule_value
          (first_run env.int env.cron env.fromisoformat schedule_type schedule_value now) now
          (field p "context_mode" "group"))
    else raised not_permitted

unfoldable pub if_authorized : Database → Option Task → Database → Handled
if_authorized db none db' = handled db []
if_authorized db (some _) db' = handled db' []

unfoldable pub handle_set_status : Database → String → Bool → Payload → TaskStatus → Handled
handle_set_status db folder is_main p status =
    let task_id = field p "task_id" "" in
    if_authorized db (get_authorized_task db task_id folder is_main)
      (Db.update_task db task_id (set_status status ∷ []))

unfoldable pub handle_cancel_task : Database → String → Bool → Payload → Handled
handle_cancel_task db folder is_main p =
    let task_id = field p "task_id" "" in
    if_authorized db (get_authorized_task db task_id folder is_main) (delete_task db task_id)

-- The change of one column, if the payload has the key.
unfoldable pub change_of : (String → Change) → Option String → List Change
change_of make none = []
change_of make (some v) = make v ∷ []

unfoldable pub given : Option String → Bool
given none = false
given (some _) = true

-- The changes of `update_task`; a new schedule has a new next run.
unfoldable pub updates_of : Env → Payload → ℕ → Task → List Change
updates_of env p now t =
    change_of set_prompt (get "prompt" p)
    ++ (change_of set_schedule_type (get "schedule_type" p)
        ++ (change_of set_schedule_value (get "schedule_value" p)
            ++ (change_of set_context_mode (get "context_mode" p)
                ++ (if given (get "schedule_type" p) || given (get "schedule_value" p)
                    then set_next_run (
                        first_run env.int env.cron env.fromisoformat
                          (value_or t.schedule_type (get "schedule_type" p))
                          (value_or t.schedule_value (get "schedule_value" p)) now)
                      ∷ []
                    else []))))

unfoldable pub update_authorized : Env → Database → Payload → ℕ → String → Option Task → Handled
update_authorized env db p now task_id none = handled db []
update_authorized env db p now task_id (some t) =
    handled (Db.update_task db task_id (updates_of env p now t)) []

unfoldable pub handle_update_task : Env → Database → String → Bool → Payload → ℕ → Handled
handle_update_task env db folder is_main p now =
    let task_id = field p "task_id" "" in
    update_authorized env db p now task_id (get_authorized_task db task_id folder is_main)
