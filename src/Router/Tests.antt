-- ===== src/Router/Tests.antt =====
-- Messages of a few code points.
use evoclaw.Base.{ℕ, Bool, ltb, ◌≡◌, ◌≤◌, ◌<◌, refl, some, List, [], ◌∷◌, arith, length, All}
use evoclaw.Router.{
  Text, undelivered, is_space, take, rfind_newline, rstrip, lstrip_newlines, nonempty, split_at,
  split_loop, split_message, try_send, send_chunks,
}
use evoclaw.Router.Text.{ink, concat}
use evoclaw.Router.Split.{split_message-fits}
use evoclaw.Router.Delivery.{notice_for, send_chunks-prefix}

program : Unit {0}
unfolding is_space take rfind_newline rstrip lstrip_newlines nonempty split_at split_loop
    split_message try_send send_chunks ink concat notice_for
program = tt

-- "ab \ncd\n\nefghij"
abbrev message : Text
message = 97 ∷ 98 ∷ 32 ∷ 10 ∷ 99 ∷ 100 ∷ 10 ∷ 10 ∷ 101 ∷ 102 ∷ 103 ∷ 104 ∷ 105 ∷ 106 ∷ []

pieces :
    split_message 5 message
    ≡ some ((97 ∷ 98 ∷ []) ∷ (99 ∷ 100 ∷ []) ∷ (101 ∷ 102 ∷ 103 ∷ 104 ∷ 105 ∷ []) ∷ (106 ∷ []) ∷ [])
unfolding program
pieces = refl

split_message-fits_example :
    (chunks : List Text) × (split_message 5 message ≡ some chunks)
    × All (λ c. (length c ≤ 5) × (0 < length c)) chunks
    × (ink (concat chunks) ≡ ink message)
split_message-fits_example = split_message-fits 5 message (omega arith) (omega arith)

-- The second chunk fails.
abbrev flaky : ℕ → ℕ → Bool
flaky i n = ltb i 1

abbrev three : List Text
three = (97 ∷ []) ∷ (98 ∷ []) ∷ (99 ∷ []) ∷ []

send_chunks-prefix_example :
    ((97 ∷ []) ∷ (98 ∷ []) ∷ (99 ∷ []) ∷ [] ≡ three)
    × ((send_chunks flaky 0 three).1 ≡ some (undelivered 1))
unfolding program
send_chunks-prefix_example = send_chunks-prefix flaky 0 three
