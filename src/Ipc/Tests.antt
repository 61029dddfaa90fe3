-- ===== src/Ipc/Tests.antt =====
-- A group `beta` that is not the main one.
use evoclaw.Base.{
  concat, ◌++◌, strip_prefix, ends_with, is_text, same_text, ◌≡◌, refl, String, Bool, true, false,
  Option, none, some, List, [], ◌∷◌, if◌then◌else◌, string_discrete, member,
}
use evoclaw.Base.Dict.{Dict, get, set, remove}
use evoclaw.Skills.{pos}
use evoclaw.Schedule.{add_interval, first_run}
use evoclaw.GroupFolder.{
  is_name_char, matches_pattern, is_reserved, contains, contains_dots, is_valid_group_folder,
  validate_folder,
}
use evoclaw.Db.{
  Database, Group, empty, rows, create_task, update_task, apply_changes, apply_change, delete_task,
  set_registered_group, demote_others, folder_taken, keep_added,
}
use evoclaw.Ipc.Request
use evoclaw.Ipc.Request.{
  Payload, field, find_kind, parse_kind, Effect, Env, Handled, handled, raised, not_permitted,
}
use evoclaw.Ipc.Paths.{
  forward_slashes, relative_to, last_part, any_member, any_suffix, is_sensitive,
  is_sensitive_send_file_path, check_resolved, find_root, resolve_container_path,
}
use evoclaw.Ipc.Rights.{
  find_folder, own_group, jid_or, chat_or_own, only, own_or_main, authorize, get_authorized_task,
  is_foreign, value_or,
}
use evoclaw.Ipc.TaskRequests.{
  or_constraint, handle_schedule_task, if_authorized, handle_set_status, handle_cancel_task,
  change_of, given, updates_of, update_authorized, handle_update_task,
}
use evoclaw.Ipc.Handlers.{
  handle_message, registered, handle_register_group, handle_reset_group, handle_apply_skill,
  handle_uninstall_skill, handle_spawn_agent, handle_dev_task, sendable, handle_send_file,
  handle_memory_recall, handle_memory_remember, handle_memory_search, handle_start_remote_control,
  handle_self_update, handle_kind, handle_ipc,
}
use evoclaw.Ipc.Isolation.{Confined}
use evoclaw.Ipc.Within.{process_ipc_dir-Confined}
use evoclaw.Ipc.Messages.{Heeds, handle_ipc-Heeds}
use evoclaw.Ipc.Inside.{Inside, resolve-Inside}
use evoclaw.Ipc.Scheduling.{Scheduled, schedule-Scheduled}
use evoclaw.Ipc.Cycle.{
  IpcFile, Turn, deleted, first_files, turn_of, untouched, dispose, add_processed, process_content,
  process_read, process_file, process_files, process_folder, process_ipc_dir, turns,
}

program : Unit {0}
unfolding string_discrete member get set remove add_interval first_run is_name_char matches_pattern
    is_reserved contains contains_dots is_valid_group_folder validate_folder rows create_task
    update_task apply_changes apply_change delete_task set_registered_group demote_others
    folder_taken keep_added field find_kind parse_kind forward_slashes strip_prefix concat ends_with
    relative_to last_part any_member any_suffix is_sensitive is_sensitive_send_file_path
    check_resolved find_root resolve_container_path is_text same_text find_folder own_group jid_or
    chat_or_own only own_or_main authorize get_authorized_task is_foreign handle_message
    or_constraint handle_schedule_task if_authorized handle_set_status handle_cancel_task change_of
    given value_or updates_of update_authorized handle_update_task registered handle_register_group
    handle_reset_group handle_apply_skill handle_uninstall_skill handle_spawn_agent handle_dev_task
    sendable handle_send_file handle_memory_recall handle_memory_remember handle_memory_search
    handle_start_remote_control handle_self_update handle_kind handle_ipc first_files turn_of
    dispose add_processed untouched process_content process_read process_file process_files
    process_folder process_ipc_dir turns
program = tt

-- Every path resolves to itself.
abbrev parts_of : List String → String → Option (List String)
parts_of dir rel = some (dir ++ (if is_text rel then rel ∷ [] else []))

abbrev last_dir : List String → String → String
last_dir dir rel = concat (last_part dir) (concat "/" rel)

abbrev env : Env
env = record {
  int = λ _. some (pos 10);
  cron = λ _ _. none;
  fromisoformat = λ _. none;
  strip = λ s. s;
  lower = λ s. s;
  groups_dir = "groups" ∷ [];
  base_dir = "evoclaw" ∷ [];
  data_dir = "data" ∷ [];
  resolve_path = parts_of;
  host_path = last_dir;
  exists = λ _. true;
  is_word = is_name_char;
  default_trigger = "@evo";
  self_update_token = "";
  parent_container = λ _. none;
}

abbrev group : String → String → Bool → Group
group jid folder is_main = record {
  jid = jid;
  name = folder;
  folder = folder;
  trigger_pattern = none;
  added_at = 1;
  container_config = none;
  requires_trigger = true;
  is_main = is_main;
}

abbrev two_groups : Database
two_groups = record empty {
  registered_groups = ("a", group "a" "alpha" true) ∷ ("b", group "b" "beta" false) ∷ [];
}

-- A task that `beta` schedules for the chat of the main group.
abbrev for_main : Payload
for_main =
    ("type", "schedule_task")
    ∷ ("chatJid", "a")
    ∷ ("schedule_type", "interval")
    ∷ ("schedule_value", "10")
    ∷ []

abbrev cancel : Payload
cancel = ("type", "cancel_task") ∷ ("task_id", "t1") ∷ []

abbrev hello_to : String → Payload
hello_to jid = ("type", "message") ∷ ("chatJid", jid) ∷ ("text", "hi") ∷ []

abbrev loads : String → Option Payload
loads s = get s (("s", for_main) ∷ ("c", cancel) ∷ [])

abbrev file : String → IpcFile
file s = record { content = some s; task_id = "t1"; now = 5 }

abbrev start : Turn
start = record { database = two_groups; effects = []; fates = [] }

abbrev files : Dict IpcFile
files = ("1", file "s") ∷ ("2", file "") ∷ ("3", file "c") ∷ []

-- The main group may cancel the task that `beta` has scheduled, and `beta` its own.
scheduled_then_cancelled :
    process_files env loads "beta" false (start, files) files
    ≡ (record { database = two_groups; effects = []; fates = deleted ∷ deleted ∷ deleted ∷ [] }, [])
unfolding program
scheduled_then_cancelled = refl

-- A file that a turn does not come to waits in the folder.
deferred : (process_folder env loads "beta" false 2 (start, files)).1 ≡ ("3", file "c") ∷ []
unfolding program
deferred = refl

to_own_chat :
    handle_ipc env two_groups "beta" false (hello_to "b") "t1" 5
    ≡ handled two_groups (Request.routes "b" "hi" none ∷ [])
unfolding program
to_own_chat = refl

to_another_chat :
    handle_ipc env two_groups "beta" false (hello_to "a") "t1" 5 ≡ handled two_groups []
unfolding program
to_another_chat = refl

process_ipc_dir-Confined_example :
    Confined "beta" two_groups
      (process_ipc_dir env loads "beta" false 2 start (("m", file "m") ∷ []) files).0.database
process_ipc_dir-Confined_example =
    process_ipc_dir-Confined env loads "beta" 2 start (("m", file "m") ∷ []) files

handle_ipc-Heeds_example :
    Heeds env two_groups "beta"
      (hello_to "b")
      (handle_ipc env two_groups "beta" false (hello_to "b") "t1" 5)
handle_ipc-Heeds_example = handle_ipc-Heeds env two_groups "beta" (hello_to "b") "t1" 5

secret_refused : resolve_container_path env "/workspace/group/.env" "beta" false ≡ none
unfolding program
secret_refused = refl

shared_file :
    resolve_container_path env "/workspace/global/note.txt" "beta" false ≡ some "global/note.txt"
unfolding program
shared_file = refl

project_file : resolve_container_path env "/workspace/project/note.txt" "beta" false ≡ none
unfolding program
project_file = refl

resolve-Inside_example : Inside env "\\workspace\\group\\note.txt" "beta" false "beta/note.txt"
unfolding program
resolve-Inside_example =
    resolve-Inside env "\\workspace\\group\\note.txt" "beta" "beta/note.txt" false refl

schedule-Scheduled_example :
    (db' : Database) × (handle_schedule_task env two_groups "beta" false for_main "t1" 5
      ≡ handled db' [])
    × Scheduled "t1" "beta" "a" db'
unfolding get string_discrete field
schedule-Scheduled_example =
    schedule-Scheduled env two_groups "beta" "t1" "a" for_main 5 false refl refl refl (λ e. cc (e))
