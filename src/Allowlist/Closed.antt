-- ===== src/Allowlist/Closed.antt =====
-- host/allowlist.py: an allowlist that cannot be loaded admits nobody.
use evoclaw.Base.{
  String, false, ◌≡◌, refl, Option, none, some, List, ◌∷◌, arith, member, string_discrete,
}
use evoclaw.Allowlist.{missing, unreadable, senders, load_sender_allowlist, is_sender_allowed}

-- Unless the operator has opted in, a file that is missing or unreadable admits no sender, whatever
-- it is; a sender that is not a text is admitted by no list that has an entry.
load-closed :
    (strip : String → String) (sender : Option String) (x : String) (names : List String)
    → (is_sender_allowed strip sender (load_sender_allowlist false missing) ≡ false)
      × (is_sender_allowed strip sender (load_sender_allowlist false unreadable) ≡ false)
      × (is_sender_allowed strip none (load_sender_allowlist false (senders (x ∷ names))) ≡ false)
unfolding load_sender_allowlist is_sender_allowed member
load-closed strip none x names = (refl, refl, refl)
load-closed strip (some s) x names = (
  ground (arith, string_discrete (strip s) "", string_discrete "" (strip s)),
  ground (arith, string_discrete (strip s) "", string_discrete "" (strip s)),
  refl,
)
