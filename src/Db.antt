-- ===== src/Db.antt =====
-- host/db.py: the tables of scheduled tasks, of their runs and of registered groups. A table stands
-- under its primary key, in the order of insertion. The lock makes each function atomic. A statement
-- that breaks a constraint raises and changes nothing (`none`); no other statement fails. The clock
-- is an argument.
pub mod Rows
pub mod Groups
mod Tests
use evoclaw.Base.{
  ℕ, zero, suc, ◌+◌, String, Bool, true, false, not, ◌&&◌, ◌||◌, Option, none, some, List, [], ◌∷◌,
  ◌++◌, leb, if◌then◌else◌, ite, string_discrete,
}
use evoclaw.Base.Dict.{Dict, get, set, remove}

-- The values of the column `status` that the host writes.
pub data TaskStatus : Type 0 where
  active paused running failed : TaskStatus

pub record Task : Type 0 where
  pub id : String
  pub group_folder : String
  pub chat_jid : String
  pub prompt : String
  pub schedule_type : String
  pub schedule_value : String
  pub next_run : Option ℕ
  pub last_run : Option ℕ
  pub last_result : Option String
  pub status : TaskStatus
  pub created_at : ℕ
  pub context_mode : String

-- A row of `task_run_logs`, less its running number.
pub record TaskRun : Type 0 where
  pub task_id : String
  pub run_at : ℕ
  pub duration_ms : ℕ
  pub status : String
  pub result : Option String
  pub error : Option String

pub record Group : Type 0 where
  pub jid : String
  pub name : String
  pub folder : String
  pub trigger_pattern : Option String
  pub added_at : ℕ
  pub container_config : Option String
  pub requires_trigger : Bool
  pub is_main : Bool

pub record Database : Type 0 where
  pub scheduled_tasks : Dict Task
  pub task_run_logs : List TaskRun
  pub registered_groups : Dict Group

abbrev pub empty : Database
empty = record { scheduled_tasks = []; task_run_logs = []; registered_groups = [] }

-- The rows of a table.
unfoldable pub rows {ℓ} : {V : Type ℓ} → Dict V → List V
rows [] = []
rows ((_, v) ∷ d) = v ∷ rows d

unfoldable pub create_task :
    Database
    → String
    → String
    → String
    → String
    → String
    → String
    → Option ℕ
    → ℕ
    → String
    → Option Database
create_task db task_id group_folder chat_jid prompt schedule_type schedule_value next_run now
      context_mode =
    elim (get task_id db.scheduled_tasks) [
      | some _ ↦ none
      | none ↦ some (record db {
        scheduled_tasks =
            set task_id
              (record {
                id = task_id;
                group_folder = group_folder;
                chat_jid = chat_jid;
                prompt = prompt;
                schedule_type = schedule_type;
                schedule_value = schedule_value;
                next_run = next_run;
                last_run = none;
                last_result = none;
                status = active;
                created_at = now;
                context_mode = context_mode;
              })
              db.scheduled_tasks;
      })
    ]

unfoldable pub is_active : TaskStatus → Bool
is_active active = true
is_active paused = false
is_active running = false
is_active failed = false

unfoldable pub is_running : TaskStatus → Bool
is_running running = true
is_running active = false
is_running paused = false
is_running failed = false

-- The `WHERE` of `get_due_tasks`.
unfoldable pub is_due : ℕ → Task → Bool
is_due now t = is_active t.status && elim t.next_run [ none ↦ false | some n ↦ leb n now ]

unfoldable pub select_due : ℕ → List Task → List Task
select_due now [] = []
select_due now (t ∷ ts) = let rest = select_due now ts in if is_due now t then t ∷ rest else rest

unfoldable pub get_due_tasks : Database → ℕ → List Task
get_due_tasks db now = select_due now (rows db.scheduled_tasks)

-- One column of an `UPDATE`: the white list of `update_task`.
pub data Change : Type 0 where
  set_prompt set_schedule_type set_schedule_value set_last_result set_context_mode : String → Change
  set_next_run : Option ℕ → Change
  set_last_run : ℕ → Change
  set_status : TaskStatus → Change

unfoldable pub apply_change : Task → Change → Task
apply_change t (set_prompt s) = record t { prompt = s }
apply_change t (set_schedule_type s) = record t { schedule_type = s }
apply_change t (set_schedule_value s) = record t { schedule_value = s }
apply_change t (set_last_result s) = record t { last_result = some s }
apply_change t (set_context_mode s) = record t { context_mode = s }
apply_change t (set_next_run n) = record t { next_run = n }
apply_change t (set_last_run n) = record t { last_run = some n }
apply_change t (set_status s) = record t { status = s }

unfoldable pub apply_changes : Task → List Change → Task
apply_changes t [] = t
apply_changes t (c ∷ cs) = apply_changes (apply_change t c) cs

unfoldable pub update_task : Database → String → List Change → Database
update_task db task_id changes = elim (get task_id db.scheduled_tasks) [
  | none ↦ db
  | some t ↦ record db {
    scheduled_tasks = set task_id (apply_changes t changes) db.scheduled_tasks;
  }
]

unfoldable pub delete_task : Database → String → Database
delete_task db task_id = record db { scheduled_tasks = remove task_id db.scheduled_tasks }

unfoldable pub log_task_run :
    Database → String → ℕ → ℕ → String → Option String → Option String → Database
log_task_run db task_id run_at duration_ms status result error = record db {
  task_run_logs =
      db.task_run_logs
      ++ record {
        task_id = task_id;
        run_at = run_at;
        duration_ms = duration_ms;
        status = status;
        result = result;
        error = error;
      }
        ∷ [];
}

-- `UPDATE registered_groups SET is_main = 0 WHERE jid != ?`
unfoldable pub demote_others : String → Dict Group → Dict Group
demote_others jid [] = []
demote_others jid ((k, g) ∷ groups) =
    (k, ite (string_discrete k jid) g (record g { is_main = false })) ∷ demote_others jid groups

-- A folder belongs to one group: another group has this one.
unfoldable pub folder_taken : String → String → Dict Group → Bool
folder_taken jid folder [] = false
folder_taken jid folder ((k, g) ∷ groups) =
    ite (string_discrete k jid) false (ite (string_discrete g.folder folder) true false)
    || folder_taken jid folder groups

-- `ON CONFLICT(jid)`: the added time of a group that is there is kept.
unfoldable pub keep_added : Group → Option Group → Group
keep_added g none = g
keep_added g (some old) = record g { added_at = old.added_at }

-- `valid` is the test of `_validate_folder`.
unfoldable pub set_registered_group : (String → Bool) → Database → Group → Option Database
set_registered_group valid db g =
    let others =
      if g.is_main then demote_others g.jid db.registered_groups else db.registered_groups in
    if not (valid g.folder) || folder_taken g.jid g.folder others
    then none
    else some (record db { registered_groups = set g.jid (keep_added g (get g.jid others)) others })
