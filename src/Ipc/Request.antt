-- ===== src/Ipc/Request.antt =====
-- host/ipc_watcher.py: the payloads and their types, and what a request makes the host do.
use evoclaw.Base.{ℕ, String, Bool, Option, none, some, List, [], ◌∷◌}
use evoclaw.Base.Dict.{Dict, get}
use evoclaw.Db.{Database}
use evoclaw.Skills.{ℤ}

-- The fields of a request that are texts; other JSON values, on which some handlers raise, are left out.
abbrev pub Payload : Type 0
Payload = Dict String

-- `payload.get(key, default)`
unfoldable pub field : Payload → String → String → String
field p key default = elim (get key p) [ none ↦ default | some v ↦ v ]

-- The values of `type` that are handled.
pub data Kind : Type 0 where
  message schedule_task pause_task resume_task cancel_task update_task register_group : Kind
  refresh_groups reset_group apply_skill uninstall_skill list_skills spawn_agent dev_task : Kind
  send_file memory_recall memory_remember memory_search start_remote_control self_update : Kind
  restart_host unknown : Kind

unfoldable pub find_kind : String → Dict Kind → Kind
find_kind s kinds = elim (get s kinds) [ none ↦ unknown | some k ↦ k ]

abbrev kinds : Dict Kind
kinds =
    ("message", message)
    ∷ ("schedule_task", schedule_task)
    ∷ ("pause_task", pause_task)
    ∷ ("resume_task", resume_task)
    ∷ ("cancel_task", cancel_task)
    ∷ ("update_task", update_task)
    ∷ ("register_group", register_group)
    ∷ ("refresh_groups", refresh_groups)
    ∷ ("reset_group", reset_group)
    ∷ ("apply_skill", apply_skill)
    ∷ ("uninstall_skill", uninstall_skill)
    ∷ ("list_skills", list_skills)
    ∷ ("spawn_agent", spawn_agent)
    ∷ ("dev_task", dev_task)
    ∷ ("send_file", send_file)
    ∷ ("memory_recall", memory_recall)
    ∷ ("memory_remember", memory_remember)
    ∷ ("memory_search", memory_search)
    ∷ ("start_remote_control", start_remote_control)
    ∷ ("self_update", self_update)
    ∷ ("restart_host", restart_host)
    ∷ []

-- The chain of `elif msg_type == ...`.
unfoldable pub parse_kind : Payload → Kind
unfolding find_kind
parse_kind p = find_kind (field p "type" "") kinds

-- What the host starts. The folder of the requester's group, which goes along with each, is left out.
pub data Effect : Type 0 where
  routes : String → String → Option String → Effect
  tells_disabled : String → Effect
  tells_missing_file : String → String → Effect
  sends_file : String → String → String → Bool → Effect
  makes_folder : String → Effect
  flags_refresh : Effect
  flags_reset : String → Effect
  applies_skill : String → String → Effect
  uninstalls_skill : String → String → Effect
  lists_skills : String → Effect
  spawns_agent : String → String → String → Option String → Effect
  runs_dev_task : String → String → String → String → Effect
  recalls remembers : String → String → String → String → String → String → Effect
  searches : String → String → String → Effect
  starts_remote_control : String → String → Effect
  updates_itself : String → Effect
  restarts_host : String → Effect

pub data IpcError : Type 0 where
  not_permitted invalid_folder missing_jid constraint : IpcError

pub data Handled : Type 0 where
  handled : Database → List Effect → Handled
  raised : IpcError → Handled

-- What the host around the watcher gives: `strip` and `lower` are `str.strip` and `str.lower`;
-- `resolve_path` has the parts of the resolved `dir / rel` and `host_path` its text, unresolved;
-- `exists` asks the file system. `is_word` is the class `\w`.
pub record Env : Type 0 where
  pub int : String → Option ℤ
  pub cron : String → ℕ → Option ℕ
  pub fromisoformat : String → Option ℕ
  pub strip : String → String
  pub lower : String → String
  pub groups_dir : List String
  pub base_dir : List String
  pub data_dir : List String
  pub resolve_path : List String → String → Option (List String)
  pub host_path : List String → String → String
  pub exists : String → Bool
  pub is_word : ℕ → Bool
  pub default_trigger : String
  pub self_update_token : String
  pub parent_container : String → Option String
