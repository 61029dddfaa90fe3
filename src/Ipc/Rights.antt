-- ===== src/Ipc/Rights.antt =====
-- host/ipc_watcher.py: the checks of rights, and the group that a request comes from.
use evoclaw.Base.{
  String, Bool, false, not, ◌&&◌, ◌||◌, Option, none, some, List, [], ◌∷◌, if◌then◌else◌, ite,
  string_discrete, is_text, same_text,
}
use evoclaw.Base.Dict.{get}
use evoclaw.Db.{Database, Task, Group, rows}
use evoclaw.Ipc.Request.{Effect, Handled, handled}

-- `next((g for g in groups if g["folder"] == group_folder), None)`
unfoldable pub find_folder : String → List Group → Option Group
find_folder folder [] = none
find_folder folder (g ∷ groups) =
    let rest = find_folder folder groups in ite (string_discrete g.folder folder) (some g) rest

unfoldable pub own_group : Database → String → Option Group
own_group db folder = find_folder folder (rows db.registered_groups)

unfoldable pub jid_or : String → Option Group → String
jid_or default none = default
jid_or default (some g) = g.jid

-- The payload's chat, or the one of the requester's group.
unfoldable pub chat_or_own : Database → String → String → String
chat_or_own db folder jid = if is_text jid then jid else jid_or "" (own_group db folder)

-- A request that changes no table.
unfoldable pub only : Database → Bool → Effect → Handled
only db b e = if b then handled db (e ∷ []) else handled db []

-- `_require_own_or_main`: whether it passes.
unfoldable pub own_or_main : String → String → Bool → Bool
own_or_main folder target is_main = is_main || same_text folder target

-- `_get_authorized_task`
unfoldable pub authorize : String → Bool → Option Task → Option Task
authorize folder is_main none = none
authorize folder is_main (some t) =
    if not is_main && not (same_text t.group_folder folder) then none else some t

unfoldable pub get_authorized_task : Database → String → String → Bool → Option Task
get_authorized_task db task_id folder is_main =
    authorize folder is_main (get task_id db.scheduled_tasks)

unfoldable pub is_foreign : String → Option Group → Bool
is_foreign jid none = false
is_foreign jid (some g) = not (same_text g.jid jid)

unfoldable pub value_or : String → Option String → String
value_or default none = default
value_or default (some v) = v
