-- ===== src/LogBuffer.antt =====
-- host/log_buffer.py: the ring buffer of log records. `upper` is Python's `str.upper`; the lock makes
-- each function atomic.
pub mod Ring
pub mod Polls
mod Tests
use evoclaw.Base.{
  ℕ, ◌+◌, ◌-◌, min, max, String, Bool, true, false, not, ◌&&◌, ◌||◌, Option, none, some, List, [],
  ◌∷◌, ◌++◌, ltb, if◌then◌else◌, length, drop, ite, string_discrete,
}

-- `_MAX_SIZE`
abbrev pub max_size : ℕ
max_size = 2000

-- A record as the handler gets it, formatted.
pub record LogRecord : Type 0 where
  pub time : String
  pub level : String
  pub name : String
  pub msg : String

pub record LogEntry : Type 0 where
  pub idx : ℕ
  pub entry : LogRecord

pub record LogBuffer : Type 0 where
  pub counter : ℕ
  pub buffer : List LogEntry

abbrev pub init : LogBuffer
init = record { counter = 0; buffer = [] }

-- `items[-n:]`, and what a `deque` of at most `n` elements keeps.
unfoldable pub last {ℓ} : {A : Type ℓ} → ℕ → List A → List A
last n xs = drop (length xs - n) xs

unfoldable pub emit : LogBuffer → LogRecord → LogBuffer
emit b r = record {
  counter = b.counter + 1;
  buffer = last max_size (b.buffer ++ record { idx = b.counter + 1; entry = r } ∷ []);
}

unfoldable pub newer_than : ℕ → List LogEntry → List LogEntry
newer_than since_idx [] = []
newer_than since_idx (i ∷ items) =
    let rest = newer_than since_idx items in if ltb since_idx i.idx then i ∷ rest else rest

unfoldable pub of_level : String → List LogEntry → List LogEntry
of_level level [] = []
of_level level (i ∷ items) =
    let rest = of_level level items in ite (string_discrete i.entry.level level) (i ∷ rest) rest

-- The empty text stands for no level, as in `if level`.
unfoldable pub get_logs : (String → String) → LogBuffer → ℕ → String → ℕ → List LogEntry
get_logs upper b since_idx level limit =
    let items = if ltb 0 since_idx then newer_than since_idx b.buffer else b.buffer in
    let wanted =
      ite (string_discrete level "") items
        (ite (string_discrete (upper level) "ALL") items (of_level (upper level) items)) in
    last (max 1 (min limit max_size)) wanted

unfoldable pub get_error_count : List LogEntry → ℕ
get_error_count [] = 0
get_error_count (i ∷ items) =
    let rest = get_error_count items in
    ite (string_discrete i.entry.level "ERROR") (rest + 1)
      (ite (string_discrete i.entry.level "CRITICAL") (rest + 1) rest)
