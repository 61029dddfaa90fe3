-- ===== src/Ipc/Within.antt =====
-- host/ipc_watcher.py: each type of request, made by a group that is not the main one, stays within the
-- group's own tasks; and so does a turn on the files of its folder.
use evoclaw.Base.{
  is_text, same_text, ℕ, String, Bool, true, false, if◌then◌else◌, ◌≡◌, refl, inl, inr, Option,
  none, some, List, [], ◌∷◌, arith, string_discrete, Option-cases, Bool-cases,
}
use evoclaw.Base.Dict.{Dict}
use evoclaw.Db.{Database, Task, TaskStatus, active, paused, set_status}
use evoclaw.Db.Rows.{find_task}
use evoclaw.Ipc.Request
use evoclaw.Ipc.Request.{
  Payload, field, Effect, Env, IpcError, Handled, handled, raised, Kind, parse_kind,
}
use evoclaw.Ipc.Rights.{only, chat_or_own, authorize, get_authorized_task}
use evoclaw.Ipc.TaskRequests.{
  or_constraint, handle_schedule_task, if_authorized, handle_set_status, handle_cancel_task,
  updates_of, update_authorized, handle_update_task,
}
use evoclaw.Ipc.Handlers.{
  handle_message, handle_register_group, handle_reset_group, handle_apply_skill,
  handle_uninstall_skill, handle_spawn_agent, handle_dev_task, handle_send_file,
  handle_memory_recall, handle_memory_remember, handle_memory_search, handle_start_remote_control,
  handle_self_update, handle_kind, handle_ipc,
}
use evoclaw.Ipc.Isolation.{
  Confined, Confined-refl, Confined-trans, update-Confined, delete-Confined, create-Confined,
}
use evoclaw.Ipc.Cycle.{
  IpcFile, Turn, turn_of, untouched, dispose, add_processed, process_content, process_read,
  process_file, process_files, process_folder, process_ipc_dir,
}

-- A request that raises changes nothing.
data Within (folder : String) (db : Database) : Handled → Type 0 where
  stays :
      {db' : Database} {es : List Effect}
      → Confined folder db db'
      → Within folder db (handled db' es)
  raises : {e : IpcError} → Within folder db (raised e)

remains : (folder : String) (db : Database) (es : List Effect) → Within folder db (handled db es)
remains folder db es = stays (Confined-refl folder db)

Within-if :
    (folder : String) (db : Database) (b : Bool) (x y : Handled)
    → Within folder db x
    → Within folder db y
    → Within folder db (if b then x else y)
Within-if folder db true x y h k = h
Within-if folder db false x y h k = k

Within-only :
    (folder : String) (db : Database) (b : Bool) (e : Effect) → Within folder db (only db b e)
unfolding only
Within-only folder db true e = remains folder db _
Within-only folder db false e = remains folder db _

-- A task that the group may manage is there, and is its own.
authorized_own :
    (folder : String) (o : Option Task) (t : Task)
    → authorize folder false o ≡ some t
    → (o ≡ some t) × (t.group_folder ≡ folder)
unfolding authorize same_text
authorized_own folder none t h = absurd (ground (arith, h))
authorized_own folder (some u) t h = (
  ground (arith, h, string_discrete u.group_folder folder),
  ground (arith, h, string_discrete u.group_folder folder),
)

Within-authorized :
    (folder : String) (db db' : Database) (o : Option Task)
    → ((t : Task) → o ≡ some t → Confined folder db db')
    → Within folder db (if_authorized db o db')
unfolding if_authorized
Within-authorized folder db db' none h = remains folder db _
Within-authorized folder db db' (some t) h = stays (h t refl)

Within-constraint :
    (folder : String) (db : Database) (o : Option Database)
    → ((db' : Database) → o ≡ some db' → Confined folder db db')
    → Within folder db (or_constraint o)
unfolding or_constraint
Within-constraint folder db none h = raises
Within-constraint folder db (some db') h = stays (h db' refl)

module _ (env : Env) (db : Database) (folder : String) (p : Payload) (now : ℕ) where
  Within-message : Within folder db (handle_message db folder false p)
  unfolding handle_message
  Within-message = Within-if folder db _ _ _ (remains folder db _) (Within-only folder db _ _)

  Within-schedule :
      (id : String) → Within folder db (handle_schedule_task env db folder false p id now)
  unfolding handle_schedule_task
  Within-schedule id =
      Within-if folder db _ _ _
        (Within-constraint folder db _ (λ db' h.
          create-Confined folder id (chat_or_own db folder (field p "chatJid" ""))
            (field p "prompt" "") (field p "schedule_type" "") (field p "schedule_value" "")
            (field p "context_mode" "group") _ now db db' h))
        raises

  Within-status :
      (status : TaskStatus) → Within folder db (handle_set_status db folder false p status)
  unfolding handle_set_status get_authorized_task
  Within-status status = Within-authorized folder db _ _ (λ t h.
      let (found, own) = authorized_own folder _ t h in
      update-Confined folder (field p "task_id" "") db (set_status status ∷ []) t found own)

  Within-cancel : Within folder db (handle_cancel_task db folder false p)
  unfolding handle_cancel_task get_authorized_task
  Within-cancel = Within-authorized folder db _ _ (λ t h.
      let (found, own) = authorized_own folder _ t h in
      delete-Confined folder (field p "task_id" "") db t found own)

  Within-update_authorized :
      (id : String) (o : Option Task)
      → ((t : Task) → o ≡ some t → (find_task db id ≡ some t) × (t.group_folder ≡ folder))
      → Within folder db (update_authorized env db p now id o)
  unfolding update_authorized
  Within-update_authorized id none h = remains folder db _
  Within-update_authorized id (some t) h =
      let (found, own) = h t refl in
      stays (update-Confined folder id db (updates_of env p now t) t found own)

  Within-update : Within folder db (handle_update_task env db folder false p now)
  unfolding handle_update_task get_authorized_task
  Within-update = Within-update_authorized _ _ (λ t h. authorized_own folder _ t h)

  Within-send_file : Within folder db (handle_send_file env db folder false p)
  unfolding handle_send_file
  Within-send_file = Within-if folder db _ _ _ (remains folder db _) (remains folder db _)

  Within-self_update : Within folder db (handle_self_update env db folder p)
  unfolding handle_self_update
  Within-self_update =
      Within-if folder db _ _ _ (Within-only folder db _ _) (Within-only folder db _ _)

  Within-kind :
      (id : String) (k : Kind) → Within folder db (handle_kind env db folder false p id now k)
  unfolding handle_kind handle_register_group handle_reset_group handle_apply_skill
      handle_uninstall_skill handle_spawn_agent handle_dev_task handle_memory_recall
      handle_memory_remember handle_memory_search handle_start_remote_control
  Within-kind id Request.message = Within-message
  Within-kind id Request.schedule_task = Within-schedule id
  Within-kind id Request.pause_task = Within-status paused
  Within-kind id Request.resume_task = Within-status active
  Within-kind id Request.cancel_task = Within-cancel
  Within-kind id Request.update_task = Within-update
  Within-kind id Request.register_group = raises
  Within-kind id Request.refresh_groups = remains folder db _
  Within-kind id Request.reset_group = raises
  Within-kind id Request.apply_skill = raises
  Within-kind id Request.uninstall_skill = raises
  Within-kind id Request.list_skills = remains folder db _
  Within-kind id Request.spawn_agent = Within-only folder db _ _
  Within-kind id Request.dev_task = Within-only folder db _ _
  Within-kind id Request.send_file = Within-send_file
  Within-kind id Request.memory_recall = Within-only folder db _ _
  Within-kind id Request.memory_remember = Within-only folder db _ _
  Within-kind id Request.memory_search = Within-only folder db _ _
  Within-kind id Request.start_remote_control = Within-only folder db _ _
  Within-kind id Request.self_update = Within-self_update
  Within-kind id Request.restart_host = remains folder db _
  Within-kind id Request.unknown = remains folder db _

Within-turn :
    (folder : String) (db : Database) (h : Handled)
    → Within folder db h
    → Confined folder db (turn_of db h).database
unfolding turn_of
Within-turn folder db (handled db' es) (stays w) = w
Within-turn folder db (raised _) raises = Confined-refl folder db

module _ (env : Env) (loads : String → Option Payload) (folder : String) where
  content-Confined :
      (db : Database) (content id : String) (now : ℕ)
      → Confined folder db (process_content env loads folder false db content id now).database
  unfolding process_content untouched handle_ipc
  content-Confined db content id now = elim (Bool-cases (is_text (env.strip content))) [
    | inr e ↦ rw e (Confined-refl folder db)
    | inl e ↦ rw e (elim (Option-cases (loads content)) [
      | inl e' ↦ rw e' (Confined-refl folder db)
      | inr (p, e') ↦ rw e' (
          Within-turn folder db (handle_ipc env db folder false p id now)
            (Within-kind env db folder p now id (parse_kind p)))
    ])
  ]

  read-Confined :
      (db : Database) (content : Option String) (id : String) (now : ℕ)
      → Confined folder db (process_read env loads folder false db content id now).database
  unfolding process_read untouched
  read-Confined db none id now = Confined-refl folder db
  read-Confined db (some content) id now = content-Confined db content id now

  process_files-Confined :
      (t : Turn) (files fs : Dict IpcFile)
      → Confined folder t.database (process_files env loads folder false (t, files) fs).0.database
  unfolding process_files process_file add_processed
  process_files-Confined t files [] = Confined-refl folder t.database
  process_files-Confined t files ((name, f) ∷ fs) =
      let r = process_file env loads folder false t.database f in
      Confined-trans folder t.database r.database _
        (read-Confined t.database f.content f.task_id f.now)
        (process_files-Confined (add_processed t r) (dispose r.fate name files) fs)

  folder-Confined :
      (limit : ℕ) (t : Turn) (files : Dict IpcFile)
      → Confined folder t.database
          (process_folder env loads folder false limit (t, files)).0.database
  unfolding process_folder
  folder-Confined limit t files = process_files-Confined t files _

  -- A turn on the folders of a group that is not the main one, whatever files it has left there, with
  -- texts in the fields of their requests: the table of groups and the log of runs stay as they are, and
  -- a task changes, comes or goes only if it is the group's own before and after.
  pub process_ipc_dir-Confined :
      (limit : ℕ) (t : Turn) (messages tasks : Dict IpcFile)
      → Confined folder t.database
          (process_ipc_dir env loads folder false limit t messages tasks).0.database
  unfolding process_ipc_dir
  process_ipc_dir-Confined limit t messages tasks =
      let t' = (process_folder env loads folder false limit (t, messages)).0 in
      Confined-trans folder t.database t'.database _ (folder-Confined limit t messages)
        (folder-Confined limit t' tasks)
