-- ===== src/Admission.antt =====
-- host/main.py: the guards in front of an incoming message: the limits on the rate of a group and of
-- a sender, and the fence against duplicates. The clock, the configured limits and the fingerprint
-- of a message are arguments. The fence is initialised.
pub mod Limits
pub mod Fence
mod Tests
use evoclaw.Base.{
  ℕ, ◌+◌, ◌-◌, ◌*◌, String, Bool, true, false, not, ◌&&◌, Option, none, some, List, [], ◌∷◌, ◌++◌,
  ltb, leb, if◌then◌else◌, length, drop,
}
use evoclaw.Base.Dict.{Dict, get, set, remove}

-- `while q and now - q[0] > window: q.popleft()`
unfoldable pub drop_old : ℕ → ℕ → List ℕ → List ℕ
drop_old window now [] = []
drop_old window now (t ∷ q) =
    let rest = drop_old window now q in if ltb window (now - t) then rest else t ∷ q

-- `append` to a `deque` of at most `maxlen` elements.
unfoldable pub push : ℕ → ℕ → List ℕ → List ℕ
push maxlen t q = drop (length (q ++ t ∷ []) - maxlen) (q ++ t ∷ [])

-- `setdefault`
unfoldable pub or_empty : Option (List ℕ) → List ℕ
or_empty none = []
or_empty (some q) = q

-- `_is_rate_limited`; `max_msgs` and `window` are the configured ones.
unfoldable pub is_rate_limited : ℕ → ℕ → Dict (List ℕ) → String → ℕ → Dict (List ℕ) × Bool
is_rate_limited max_msgs window timestamps jid now =
    let q = drop_old window now (or_empty (get jid timestamps)) in
    if leb max_msgs (length q)
    then (set jid q timestamps, true)
    else (set jid (push (max_msgs * 2) now q) timestamps, false)

-- `_SENDER_TIMESTAMPS_MAX`
abbrev pub sender_timestamps_max : ℕ
sender_timestamps_max = 5000

-- The sender that was inserted first goes, when a new one comes and the dict is full.
unfoldable pub make_room : Dict (List ℕ) → String → Dict (List ℕ)
make_room timestamps sender = elim (get sender timestamps) [
  | some _ ↦ timestamps
  | none ↦ if leb sender_timestamps_max (length timestamps) then drop 1 timestamps else timestamps
]

-- `_is_sender_rate_limited`; `max_msgs` and `window` are the configured ones, 1 at least.
unfoldable pub is_sender_rate_limited : ℕ → ℕ → Dict (List ℕ) → String → ℕ → Dict (List ℕ) × Bool
is_sender_rate_limited max_msgs window timestamps sender now =
    is_rate_limited max_msgs window (make_room timestamps sender) sender now

-- `_DEDUP_MAX`
abbrev pub dedup_max : ℕ
dedup_max = 1000

-- `_DEDUP_TTL_SECS`
abbrev pub dedup_ttl_secs : ℕ
dedup_ttl_secs = 300

-- The fingerprint is inserted, and the oldest one goes if there are too many.
unfoldable pub insert : Dict ℕ → String → ℕ → Dict ℕ
insert seen fp now =
    let seen' = set fp now seen in if ltb dedup_max (length seen') then drop 1 seen' else seen'

-- `_is_duplicate_message`, of a fingerprint.
unfoldable pub is_duplicate_message : Dict ℕ → String → ℕ → Dict ℕ × Bool
is_duplicate_message seen fp now = elim (get fp seen) [
  | none ↦ (insert seen fp now, false)
  | some inserted_at ↦
      if ltb (now - inserted_at) dedup_ttl_secs
      then (remove fp seen ++ (fp, inserted_at) ∷ [], true)
      else (insert (remove fp seen) fp now, false)
]
