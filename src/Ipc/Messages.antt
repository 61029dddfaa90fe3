-- ===== src/Ipc/Messages.antt =====
-- host/ipc_watcher.py: what a request of a group that is not the main one makes the host start, and
-- which chats it reaches.
use evoclaw.Base.{
  is_text, same_text, ℕ, String, Bool, true, false, not, ◌&&◌, if◌then◌else◌, ◌≡◌, ◌≢◌, refl, inl,
  inr, Option, none, some, List, [], ◌∷◌, arith, string_discrete, Bool-cases, All,
}
use evoclaw.Base.Dict.{get}
use evoclaw.Db.{Database, Task, Group}
use evoclaw.Ipc.Request
use evoclaw.Ipc.Request.{
  Payload, field, Effect, routes, tells_disabled, tells_missing_file, sends_file, makes_folder,
  flags_refresh, flags_reset, applies_skill, uninstalls_skill, lists_skills, spawns_agent,
  runs_dev_task, recalls, remembers, searches, starts_remote_control, updates_itself, restarts_host,
  Env, IpcError, Handled, handled, raised, Kind, parse_kind,
}
use evoclaw.Ipc.Paths.{resolve_container_path}
use evoclaw.Ipc.Rights.{chat_or_own, only, own_or_main, is_foreign, own_group, jid_or, value_or}
use evoclaw.Ipc.TaskRequests.{
  or_constraint, handle_schedule_task, if_authorized, handle_set_status, handle_cancel_task,
  update_authorized, handle_update_task,
}
use evoclaw.Ipc.Handlers.{
  sendable, handle_message, handle_register_group, handle_reset_group, handle_apply_skill,
  handle_uninstall_skill, handle_spawn_agent, handle_dev_task, handle_send_file,
  handle_memory_recall, handle_memory_remember, handle_memory_search, handle_start_remote_control,
  handle_self_update, handle_kind, handle_ipc,
}

module _ (env : Env) (db : Database) (folder : String) (p : Payload) where
  -- What the host may start for the group. No skill, no reset and no new folder. A text of the agent
  -- goes to the group's own chat, if the group is registered; a file is the one that the path resolves
  -- to; the host updates itself for the right token; a development, a memory and a search are the
  -- group's. A file, or the notice that it is missing, goes to whichever chat the request names, and so
  -- do the answers of the last three.
  abbrev pub Allowed : Effect → Type 0
  Allowed (routes jid _ _) = (g : Group) → own_group db folder ≡ some g → g.jid ≡ jid
  Allowed (makes_folder _) = ⊥
  Allowed (flags_reset _) = ⊥
  Allowed (applies_skill _ _) = ⊥
  Allowed (uninstalls_skill _ _) = ⊥
  Allowed (sends_file jid path _ _) =
      (jid ≡ chat_or_own db folder (field p "chatJid" ""))
      × (resolve_container_path env (field p "filePath" "") folder false ≡ some path)
  Allowed (updates_itself jid) =
      (jid ≡ chat_or_own db folder (field p "jid" ""))
      × (env.self_update_token ≢ "")
      × (field p "confirm_token" "" ≡ env.self_update_token)
  Allowed (runs_dev_task _ _ _ jid) = jid ≡ jid_or folder (own_group db folder)
  Allowed (recalls _ _ _ _ jid _) = jid ≡ jid_or folder (own_group db folder)
  Allowed (remembers _ _ _ _ jid _) = jid ≡ jid_or folder (own_group db folder)
  Allowed (searches _ _ jid) = jid ≡ jid_or "" (own_group db folder)
  Allowed (tells_disabled jid) =
      (jid ≡ chat_or_own db folder (field p "jid" "")) × (env.self_update_token ≡ "")
  Allowed (tells_missing_file jid path) =
      (jid ≡ chat_or_own db folder (field p "chatJid" "")) × (path ≡ field p "filePath" "")
  Allowed flags_refresh = Unit
  Allowed (lists_skills _) = Unit
  Allowed (spawns_agent _ _ _ parent) = parent ≡ env.parent_container folder
  Allowed (starts_remote_control jid sender) =
      (jid ≡ chat_or_own db folder (field p "jid" "")) × (sender ≡ field p "sender" "")
  Allowed (restarts_host jid) = jid ≡ chat_or_own db folder (field p "jid" "")

  -- The request raises, or everything that it starts is allowed.
  pub data Heeds : Handled → Type 0 where
    starts : {db' : Database} {es : List Effect} → All Allowed es → Heeds (handled db' es)
    raises : {e : IpcError} → Heeds (raised e)

  nothing : {db' : Database} → Heeds (handled db' [])
  nothing = starts tt

  starts_one : (e : Effect) → Allowed e → Heeds (handled db (e ∷ []))
  starts_one e h = starts (h, tt)

  Heeds-if :
      (b : Bool) (x y : Handled)
      → (b ≡ true → Heeds x)
      → (b ≡ false → Heeds y)
      → Heeds (if b then x else y)
  Heeds-if true x y h k = h refl
  Heeds-if false x y h k = k refl

  Heeds-only : (b : Bool) (e : Effect) → (b ≡ true → Allowed e) → Heeds (only db b e)
  unfolding only
  Heeds-only true e h = starts (h refl, tt)
  Heeds-only false e h = nothing

  Heeds-authorized : (o : Option Task) (db' : Database) → Heeds (if_authorized db o db')
  unfolding if_authorized
  Heeds-authorized none db' = nothing
  Heeds-authorized (some _) db' = nothing

  Heeds-constraint : (o : Option Database) → Heeds (or_constraint o)
  unfolding or_constraint
  Heeds-constraint none = raises
  Heeds-constraint (some _) = nothing

  Heeds-update :
      (now : ℕ) (id : String) (o : Option Task) → Heeds (update_authorized env db p now id o)
  unfolding update_authorized
  Heeds-update now id none = nothing
  Heeds-update now id (some _) = nothing

  -- The chat is the group's own, or the group is not registered.
  own_chat :
      (jid : String)
      → (is_text jid && is_text (field p "text" "")) ≡ true
      → (is_text jid && not false && is_foreign jid (own_group db folder)) ≡ false
      → Allowed (routes jid (field p "text" "") (get "sender" p))
  unfolding is_foreign same_text
  own_chat jid sent passed g e = ground (arith, sent, passed, e, string_discrete g.jid jid)

  Heeds-message : Heeds (handle_message db folder false p)
  unfolding handle_message
  Heeds-message =
      Heeds-if _ _ _ (λ _. nothing)
        (λ passed. Heeds-only _ _ (λ sent. own_chat (field p "chatJid" "") sent passed))

  found_path :
      (o : Option String) (path : String)
      → sendable env o ≡ true
      → path ≡ value_or "" o
      → o ≡ some path
  unfolding sendable value_or
  found_path none path h e = absurd (ground (arith, h))
  found_path (some _) path h e = ground (arith, e)

  Heeds-send_file : Heeds (handle_send_file env db folder false p)
  unfolding handle_send_file
  Heeds-send_file =
      let path = field p "filePath" "" in
      let jid = chat_or_own db folder (field p "chatJid" "") in
      let host_path = resolve_container_path env path folder false in
      Heeds-if _ _ _
        (λ there.
          starts_one
            (sends_file jid (value_or "" host_path) (field p "caption" "")
              (is_text (field p "deleteAfterSend" "")))
            (refl, found_path host_path (value_or "" host_path) there refl))
        (λ _. starts_one (tells_missing_file jid path) (refl, refl))

  unset_token : (not (is_text env.self_update_token)) ≡ true → env.self_update_token ≡ ""
  unfolding is_text
  unset_token h = ground (arith, h, string_discrete env.self_update_token "")

  right_token :
      (not (is_text env.self_update_token)) ≡ false
      → same_text (field p "confirm_token" "") env.self_update_token ≡ true
      → (env.self_update_token ≢ "") × (field p "confirm_token" "" ≡ env.self_update_token)
  unfolding is_text same_text
  right_token h right = (
    ground (arith, h, string_discrete env.self_update_token ""),
    ground (arith, right, string_discrete (field p "confirm_token" "") env.self_update_token),
  )

  Heeds-self_update : Heeds (handle_self_update env db folder p)
  unfolding handle_self_update
  Heeds-self_update =
      let jid = chat_or_own db folder (field p "jid" "") in
      Heeds-if _ _ _ (λ unset. Heeds-only _ (tells_disabled jid) (λ _. (refl, unset_token unset)))
        (λ enabled.
          Heeds-only _ (updates_itself jid)
            (λ right. let (set, same) = right_token enabled right in (refl, set, same)))

  Heeds-schedule :
      (id : String) (now : ℕ) → Heeds (handle_schedule_task env db folder false p id now)
  unfolding handle_schedule_task
  Heeds-schedule id now =
      elim (Bool-cases (own_or_main folder (field p "groupFolder" folder) false)) [
        | inl e ↦ rw e (Heeds-constraint _)
        | inr e ↦ rw e raises
      ]

  Heeds-kind :
      (id : String) (now : ℕ) (k : Kind) → Heeds (handle_kind env db folder false p id now k)
  unfolding handle_kind handle_register_group handle_reset_group handle_apply_skill
      handle_uninstall_skill handle_spawn_agent handle_dev_task handle_memory_recall
      handle_memory_remember handle_memory_search handle_start_remote_control handle_set_status
      handle_cancel_task handle_update_task
  Heeds-kind id now Request.message = Heeds-message
  Heeds-kind id now Request.schedule_task = Heeds-schedule id now
  Heeds-kind id now Request.pause_task = Heeds-authorized _ _
  Heeds-kind id now Request.resume_task = Heeds-authorized _ _
  Heeds-kind id now Request.cancel_task = Heeds-authorized _ _
  Heeds-kind id now Request.update_task = Heeds-update now _ _
  Heeds-kind id now Request.register_group = raises
  Heeds-kind id now Request.refresh_groups = starts (tt, tt)
  Heeds-kind id now Request.reset_group = raises
  Heeds-kind id now Request.apply_skill = raises
  Heeds-kind id now Request.uninstall_skill = raises
  Heeds-kind id now Request.list_skills = starts (tt, tt)
  Heeds-kind id now Request.spawn_agent = Heeds-only _ _ (λ _. refl)
  Heeds-kind id now Request.dev_task = Heeds-only _ _ (λ _. refl)
  Heeds-kind id now Request.send_file = Heeds-send_file
  Heeds-kind id now Request.memory_recall = Heeds-only _ _ (λ _. refl)
  Heeds-kind id now Request.memory_remember = Heeds-only _ _ (λ _. refl)
  Heeds-kind id now Request.memory_search = Heeds-only _ _ (λ _. refl)
  Heeds-kind id now Request.start_remote_control = Heeds-only _ _ (λ _. (refl, refl))
  Heeds-kind id now Request.self_update = Heeds-self_update
  Heeds-kind id now Request.restart_host = starts (refl, tt)
  Heeds-kind id now Request.unknown = nothing

  -- A request of a group that is not the main one, of whatever type and with texts in its fields,
  -- raises, or starts only what the group may start: no skill is applied or removed, no counter reset,
  -- no group's folder made; the text of a `message` goes to no other chat than the group's own if the
  -- group is registered; a file is the one that its path resolves to; an update of the host needs the
  -- configured token; developments, memories and searches are those of the group itself. But a file, or
  -- the text that the requested path was not found, goes to the chat that the request names, whichever
  -- it is, or to the group's own if it names none; and so do the answers of a remote control, an update
  -- and a restart.
  pub handle_ipc-Heeds : (id : String) (now : ℕ) → Heeds (handle_ipc env db folder false p id now)
  unfolding handle_ipc
  handle_ipc-Heeds id now = Heeds-kind id now (parse_kind p)
