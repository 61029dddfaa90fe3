-- ===== src/Allowlist.antt =====
-- host/allowlist.py: the allowlist of senders. `strip` is Python's `str.strip`; a set is a list; a
-- sender that is not a text is `none`. The log lines are left out.
pub mod Closed
mod Tests
use evoclaw.Base.{
  String, Bool, true, false, Option, none, some, List, [], ◌∷◌, if◌then◌else◌, ite, member,
  string_discrete,
}

-- What is found at `SENDER_ALLOWLIST_FILE`: nothing, a file that cannot be read or parsed, or its
-- `senders`.
pub data AllowlistFile : Type 0 where
  missing unreadable : AllowlistFile
  senders : List String → AllowlistFile

-- `allow_all` is `_ALLOW_ALL_IF_MISSING`.
unfoldable pub load_sender_allowlist : Bool → AllowlistFile → List String
load_sender_allowlist allow_all missing = if allow_all then [] else "" ∷ []
load_sender_allowlist allow_all unreadable = if allow_all then [] else "" ∷ []
load_sender_allowlist allow_all (senders names) = names

unfoldable pub is_sender_allowed : (String → String) → Option String → List String → Bool
is_sender_allowed strip sender [] = true
is_sender_allowed strip none (x ∷ allowlist) = false
is_sender_allowed strip (some sender_id) (x ∷ allowlist) =
    ite (string_discrete (strip sender_id) "") false (member (strip sender_id) (x ∷ allowlist))
