-- ===== src/Ipc/Handlers.antt =====
-- host/ipc_watcher.py: `_handle_ipc`, one function per type of request, and the two checks of rights.
-- A truth value in a payload is a text, which counts as false when it is empty.
use evoclaw.Base.{
  ℕ, String, Bool, true, false, not, ◌&&◌, ◌||◌, Option, none, some, [], ◌∷◌, if◌then◌else◌,
  is_text, same_text,
}
use evoclaw.Base.Dict.{get}
use evoclaw.GroupFolder.{is_valid_group_folder, validate_folder}
use evoclaw.Db.{Database, active, paused, set_registered_group}
use evoclaw.Ipc.Request.{
  Payload, field, Kind, message, schedule_task, pause_task, resume_task, cancel_task, update_task,
  register_group, refresh_groups, reset_group, apply_skill, uninstall_skill, list_skills,
  spawn_agent, dev_task, send_file, memory_recall, memory_remember, memory_search,
  start_remote_control, self_update, restart_host, unknown, parse_kind, routes, tells_disabled,
  tells_missing_file, sends_file, makes_folder, flags_refresh, flags_reset, applies_skill,
  uninstalls_skill, lists_skills, spawns_agent, runs_dev_task, recalls, remembers, searches,
  starts_remote_control, updates_itself, restarts_host, not_permitted, invalid_folder, missing_jid,
  constraint, Handled, handled, raised, Env,
}
use evoclaw.Ipc.Paths.{resolve_container_path}
use evoclaw.Ipc.Rights.{own_group, jid_or, chat_or_own, only, is_foreign, value_or}
use evoclaw.Ipc.TaskRequests.{
  handle_schedule_task, handle_set_status, handle_cancel_task, handle_update_task,
}

unfoldable pub handle_message : Database → String → Bool → Payload → Handled
handle_message db folder is_main p =
    let jid = field p "chatJid" "" in
    let text = field p "text" "" in
    if is_text jid && not is_main && is_foreign jid (own_group db folder)
    then handled db []
    else only db (is_text jid && is_text text) (routes jid text (get "sender" p))

unfoldable pub registered : String → Option Database → Handled
registered folder none = raised constraint
registered folder (some db) = handled db (makes_folder folder ∷ [])

unfoldable pub handle_register_group : Env → Database → Bool → Payload → ℕ → Handled
handle_register_group env db is_main p now =
    let jid = field p "jid" "" in
    let name = field p "name" "" in
    let folder = field p "folder" "" in
    if not is_main
    then raised not_permitted
    else if is_text folder && not (is_valid_group_folder folder)
    then raised invalid_folder
    else if is_text jid && is_text name && is_text folder
    then registered folder (
        set_registered_group (validate_folder env.is_word) db (record {
          jid = jid;
          name = name;
          folder = folder;
          trigger_pattern = some (field p "trigger" env.default_trigger);
          added_at = now;
          container_config = none;
          requires_trigger = true;
          is_main = false;
        }))
    else handled db []

unfoldable pub handle_reset_group : Database → Bool → Payload → Handled
handle_reset_group db is_main p =
    let jid = field p "jid" "" in
    if not is_main
    then raised not_permitted
    else if is_text jid
    then handled db (flags_reset jid ∷ [])
    else raised missing_jid

unfoldable pub handle_apply_skill : Database → Bool → Payload → Handled
handle_apply_skill db is_main p =
    let path = field p "skill_path" "" in
    if not is_main
    then raised not_permitted
    else only db (is_text path) (applies_skill path (field p "requestId" ""))

unfoldable pub handle_uninstall_skill : Database → Bool → Payload → Handled
handle_uninstall_skill db is_main p =
    let name = field p "skill_name" "" in
    if not is_main
    then raised not_permitted
    else only db (is_text name) (uninstalls_skill name (field p "requestId" ""))

unfoldable pub handle_spawn_agent : Env → Database → String → Payload → Handled
handle_spawn_agent env db folder p =
    let request_id = field p "requestId" "" in
    let prompt = field p "prompt" "" in
    only db (is_text request_id && is_text prompt) (
      spawns_agent request_id prompt (field p "context_mode" "isolated")
        (env.parent_container folder))

unfoldable pub handle_dev_task : Database → String → Payload → Handled
handle_dev_task db folder p =
    let prompt = field p "prompt" "" in
    let session_id = field p "session_id" "" in
    only db (is_text prompt || is_text session_id) (
      runs_dev_task prompt (field p "mode" "auto") session_id (jid_or folder (own_group db folder)))

-- The host path that was found, and whether a file is there.
unfoldable pub sendable : Env → Option String → Bool
sendable env none = false
sendable env (some path) = is_text path && env.exists path

unfoldable pub handle_send_file : Env → Database → String → Bool → Payload → Handled
handle_send_file env db folder is_main p =
    let path = field p "filePath" "" in
    let jid = chat_or_own db folder (field p "chatJid" "") in
    let host_path = resolve_container_path env path folder is_main in
    if sendable env host_path
    then handled db (
        sends_file jid (value_or "" host_path) (field p "caption" "")
          (is_text (field p "deleteAfterSend" ""))
        ∷ [])
    else handled db (tells_missing_file jid path ∷ [])

unfoldable pub handle_memory_recall : Database → String → Payload → Handled
handle_memory_recall db folder p =
    let query = field p "query" "" in
    let file = field p "response_file" "" in
    only db (is_text query && is_text file) (
      recalls query (field p "k" "5") (field p "namespace" "") (field p "topic_tag" "")
        (jid_or folder (own_group db folder)) file)

unfoldable pub handle_memory_remember : Database → String → Payload → Handled
handle_memory_remember db folder p =
    let content = field p "content" "" in
    let file = field p "response_file" "" in
    only db (is_text content && is_text file) (
      remembers content (field p "importance" "0.7") (field p "namespace" "")
        (field p "topic_tag" "") (jid_or folder (own_group db folder)) file)

unfoldable pub handle_memory_search : Database → String → Payload → Handled
handle_memory_search db folder p =
    let query = field p "query" "" in
    let jid = jid_or "" (own_group db folder) in
    only db (is_text query && is_text jid) (searches query (field p "requestId" "") jid)

unfoldable pub handle_start_remote_control : Database → String → Payload → Handled
handle_start_remote_control db folder p =
    let jid = chat_or_own db folder (field p "jid" "") in
    only db (is_text jid) (starts_remote_control jid (field p "sender" ""))

unfoldable pub handle_self_update : Env → Database → String → Payload → Handled
handle_self_update env db folder p =
    let jid = chat_or_own db folder (field p "jid" "") in
    if not (is_text env.self_update_token)
    then only db (is_text jid) (tells_disabled jid)
    else only db (same_text (field p "confirm_token" "") env.self_update_token) (updates_itself jid)

unfoldable pub handle_kind : Env → Database → String → Bool → Payload → String → ℕ → Kind → Handled
handle_kind env db folder is_main p id now message = handle_message db folder is_main p
handle_kind env db folder is_main p id now schedule_task =
    handle_schedule_task env db folder is_main p id now
handle_kind env db folder is_main p id now pause_task = handle_set_status db folder is_main p paused
handle_kind env db folder is_main p id now resume_task =
    handle_set_status db folder is_main p active
handle_kind env db folder is_main p id now cancel_task = handle_cancel_task db folder is_main p
handle_kind env db folder is_main p id now update_task =
    handle_update_task env db folder is_main p now
handle_kind env db folder is_main p id now register_group =
    handle_register_group env db is_main p now
handle_kind env db folder is_main p id now refresh_groups = handled db (flags_refresh ∷ [])
handle_kind env db folder is_main p id now reset_group = handle_reset_group db is_main p
handle_kind env db folder is_main p id now apply_skill = handle_apply_skill db is_main p
handle_kind env db folder is_main p id now uninstall_skill = handle_uninstall_skill db is_main p
handle_kind env db folder is_main p id now list_skills =
    handled db (lists_skills (field p "requestId" "") ∷ [])
handle_kind env db folder is_main p id now spawn_agent = handle_spawn_agent env db folder p
handle_kind env db folder is_main p id now dev_task = handle_dev_task db folder p
handle_kind env db folder is_main p id now send_file = handle_send_file env db folder is_main p
handle_kind env db folder is_main p id now memory_recall = handle_memory_recall db folder p
handle_kind env db folder is_main p id now memory_remember = handle_memory_remember db folder p
handle_kind env db folder is_main p id now memory_search = handle_memory_search db folder p
handle_kind env db folder is_main p id now start_remote_control =
    handle_start_remote_control db folder p
handle_kind env db folder is_main p id now self_update = handle_self_update env db folder p
handle_kind env db folder is_main p id now restart_host =
    handled db (restarts_host (chat_or_own db folder (field p "jid" "")) ∷ [])
handle_kind env db folder is_main p id now unknown = handled db []

unfoldable pub handle_ipc : Env → Database → String → Bool → Payload → String → ℕ → Handled
handle_ipc env db folder is_main p task_id now =
    handle_kind env db folder is_main p task_id now (parse_kind p)
