-- ===== src/Admission/Tests.antt =====
-- Messages within the limits and beyond.
use evoclaw.Base.{◌≡◌, refl, ℕ, String, true, false, List, [], ◌∷◌, arith, string_discrete}
use evoclaw.Base.Dict.{get, set, remove}
use evoclaw.Admission.{
  drop_old, push, or_empty, is_rate_limited, make_room, is_sender_rate_limited, insert,
  is_duplicate_message,
}
use evoclaw.Admission.Fence.{is_duplicate-repeated}
use evoclaw.Admission.Limits.{ask_all}

program : Unit {0}
unfolding string_discrete get set remove drop_old push or_empty is_rate_limited make_room
    is_sender_rate_limited insert is_duplicate_message ask_all
program = tt

abbrev messages : List (String × ℕ)
messages = ("u", 100) ∷ ("u", 101) ∷ ("v", 102) ∷ ("u", 103) ∷ []

third_is_limited : (is_sender_rate_limited 2 60 (ask_all 2 60 [] messages) "u" 104).1 ≡ true
unfolding program
third_is_limited = refl

later_is_not : (is_sender_rate_limited 2 60 (ask_all 2 60 [] messages) "u" 162).1 ≡ false
unfolding program
later_is_not = refl

is_duplicate-repeated_example :
    (is_duplicate_message (is_duplicate_message (("f", 100) ∷ []) "f" 500).0 "f" 799).1 ≡ true
unfolding program
is_duplicate-repeated_example =
    is_duplicate-repeated (("f", 100) ∷ []) "f" 500 799 refl (omega arith)
