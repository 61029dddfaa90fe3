-- ===== src/Ipc/Cycle.antt =====
-- host/ipc_watcher.py: `process_ipc_dir`, one turn on the two folders of a group. A folder is a
-- dictionary from names to files, in the order of the names. What a file's request draws and reads (a
-- new task id, the clock) comes with it. The alert to the main group about an error is left out.
use evoclaw.Base.{
  is_text, ℕ, zero, suc, String, Bool, Option, none, some, List, [], ◌∷◌, ◌++◌, if◌then◌else◌, ltb,
}
use evoclaw.Base.Dict.{Dict, remove}
use evoclaw.Db.{Database}
use evoclaw.Ipc.Request.{Payload, Effect, Env, Handled, handled, raised}
use evoclaw.Ipc.Handlers.{handle_ipc}

-- The content is missing if the file vanished before it was read.
pub record IpcFile : Type 0 where
  pub content : Option String
  pub task_id : String
  pub now : ℕ

-- What happens to a file: it had vanished, it is deleted, or it is moved to the errors, as not parsed or
-- as failed.
pub data Fate : Type 0 where
  vanished deleted unparsed failed : Fate

-- One file, and all of a turn.
pub record Processed : Type 0 where
  pub database : Database
  pub effects : List Effect
  pub fate : Fate

pub record Turn : Type 0 where
  pub database : Database
  pub effects : List Effect
  pub fates : List Fate

unfoldable pub turn_of : Database → Handled → Processed
turn_of db (handled db' es) = record { database = db'; effects = es; fate = deleted }
turn_of db (raised _) = record { database = db; effects = []; fate = failed }

unfoldable pub untouched : Database → Fate → Processed
untouched db fate = record { database = db; effects = []; fate = fate }

-- The folder without the file that vanished, after `unlink`, or after `rename` or else `unlink`.
unfoldable pub dispose : Fate → String → Dict IpcFile → Dict IpcFile
dispose vanished name files = remove name files
dispose deleted name files = remove name files
dispose unparsed name files = remove name files
dispose failed name files = remove name files

unfoldable pub add_processed : Turn → Processed → Turn
add_processed t r = record {
  database = r.database;
  effects = t.effects ++ r.effects;
  fates = t.fates ++ r.fate ∷ [];
}

-- `all_files[:limit]`
unfoldable pub first_files : ℕ → Dict IpcFile → Dict IpcFile
first_files zero files = []
first_files (suc n) [] = []
first_files (suc n) (f ∷ files) = f ∷ first_files n files

-- `loads` is `json.loads`.
module _ (env : Env) (loads : String → Option Payload) (folder : String) (is_main : Bool) where
  unfoldable pub process_content : Database → String → String → ℕ → Processed
  process_content db content task_id now =
      if is_text (env.strip content)
      then elim (loads content) [
        | none ↦ untouched db unparsed
        | some p ↦ turn_of db (handle_ipc env db folder is_main p task_id now)
      ]
      else untouched db deleted

  unfoldable pub process_read : Database → Option String → String → ℕ → Processed
  process_read db none task_id now = untouched db vanished
  process_read db (some content) task_id now = process_content db content task_id now

  unfoldable pub process_file : Database → IpcFile → Processed
  process_file db f = process_read db f.content f.task_id f.now

  -- The listed files one after another, with what is left in the folder.
  unfoldable pub process_files : Turn × Dict IpcFile → Dict IpcFile → Turn × Dict IpcFile
  process_files (t, files) [] = (t, files)
  process_files (t, files) ((name, f) ∷ fs) =
      let r = process_file t.database f in
      process_files (add_processed t r, dispose r.fate name files) fs

  -- One turn: at most `limit` files, or all if the limit is 0.
  unfoldable pub process_folder : ℕ → Turn × Dict IpcFile → Turn × Dict IpcFile
  process_folder limit (t, files) =
      process_files (t, files) (if ltb 0 limit then first_files limit files else files)

  -- The messages, then the tasks.
  unfoldable pub process_ipc_dir :
      ℕ → Turn → Dict IpcFile → Dict IpcFile → Turn × (Dict IpcFile × Dict IpcFile)
  process_ipc_dir limit t messages tasks =
      let (t', messages') = process_folder limit (t, messages) in
      let (t'', tasks') = process_folder limit (t', tasks) in (t'', (messages', tasks'))

  unfoldable pub turns : ℕ → ℕ → Turn × Dict IpcFile → Turn × Dict IpcFile
  turns zero limit s = s
  turns (suc n) limit s = turns n limit (process_folder limit s)
