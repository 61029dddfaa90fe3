-- ===== src/Ipc/Scheduling.antt =====
-- host/ipc_watcher.py: `schedule_task` does not compare the chat with the requester's group.
use evoclaw.Base.{
  is_text, same_text, ℕ, String, Bool, ◌≡◌, ◌≢◌, refl, Option, none, some, [], arith,
  string_discrete,
}
use evoclaw.Base.Dict.{set, get-set_self}
use evoclaw.Schedule.{first_run}
use evoclaw.Db.{Database, Task, active, create_task}
use evoclaw.Db.Rows.{find_task}
use evoclaw.Ipc.Request.{Payload, field, Env, handled}
use evoclaw.Ipc.Rights.{own_or_main, chat_or_own}
use evoclaw.Ipc.TaskRequests.{or_constraint, handle_schedule_task}

-- A new task of the requester's folder for a chat, which is active.
abbrev pub Scheduled : String → String → String → Database → Type 0
Scheduled id folder jid db =
    (t : Task) × (find_task db id ≡ some t)
    × (t.group_folder ≡ folder)
    × (t.chat_jid ≡ jid)
    × (t.status ≡ active)

create-Scheduled :
    (id folder jid prompt type value mode : String) (next : Option ℕ) (now : ℕ) (db : Database)
    → find_task db id ≡ none
    → (db' : Database) × (create_task db id folder jid prompt type value next now mode ≡ some db')
      × Scheduled id folder jid db'
unfolding create_task
create-Scheduled id folder jid prompt type value mode next now db free =
    let new : Task = record {
      id = id;
      group_folder = folder;
      chat_jid = jid;
      prompt = prompt;
      schedule_type = type;
      schedule_value = value;
      next_run = next;
      last_run = none;
      last_result = none;
      status = active;
      created_at = now;
      context_mode = mode;
    } in
    (
      record db { scheduled_tasks = set id new db.scheduled_tasks },
      rw (free, create_task) refl,
      (new, get-set_self id new db.scheduled_tasks, refl, refl, refl),
    )

-- A request to schedule a task, of any group, that names its own folder or none, a task id that is not
-- in use and any chat, not only the group's own, makes an active task of the group's folder for that
-- chat.
pub schedule-Scheduled :
    (env : Env) (db : Database) (folder id jid : String) (p : Payload) (now : ℕ) (is_main : Bool)
    → find_task db id ≡ none
    → field p "groupFolder" folder ≡ folder
    → field p "chatJid" "" ≡ jid
    → jid ≢ ""
    → (db' : Database) × (handle_schedule_task env db folder is_main p id now ≡ handled db' [])
      × Scheduled id folder jid db'
unfolding handle_schedule_task own_or_main same_text chat_or_own is_text or_constraint
schedule-Scheduled env db folder id jid p now is_main free own chat some_chat =
    let (db', made, scheduled) =
      create-Scheduled id folder jid (field p "prompt" "") (field p "schedule_type" "")
        (field p "schedule_value" "") (field p "context_mode" "group")
        (first_run env.int env.cron env.fromisoformat (field p "schedule_type" "")
          (field p "schedule_value" "") now)
        now db free in
    (
      db',
      ground (
        arith,
        made,
        own,
        chat,
        some_chat,
        string_discrete jid "",
        string_discrete folder (field p "groupFolder" folder),
      ),
      scheduled,
    )
