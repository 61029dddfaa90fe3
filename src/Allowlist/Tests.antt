-- ===== src/Allowlist/Tests.antt =====
-- Before a file that is missing.
use evoclaw.Base.{◌≡◌, refl, false, some, string_discrete, member}
use evoclaw.Allowlist.{missing, load_sender_allowlist, is_sender_allowed}

not_admitted : is_sender_allowed (λ s. s) (some "u") (load_sender_allowlist false missing) ≡ false
unfolding is_sender_allowed load_sender_allowlist string_discrete member
not_admitted = refl
