-- ===== src/Admission/Limits.antt =====
-- host/main.py: the rate limits keep few times.
use evoclaw.Base.{
  ℕ, ◌-◌, ◌*◌, ◌≤◌, String, List, [], ◌∷◌, ◌++◌, All, leb, arith, length, drop, length-append,
  length-drop, string_discrete, Option-cases, Bool-cases, inl, inr,
}
use evoclaw.Base.Dict.{Dict, get, set}
use evoclaw.Admission.{drop_old, push, or_empty, is_rate_limited, make_room, is_sender_rate_limited}

-- No more times are kept than messages are allowed.
abbrev pub Few : ℕ → String × List ℕ → Type 0
Few max_msgs (_, q) = length q ≤ max_msgs

length-drop_old : (window now : ℕ) (q : List ℕ) → length (drop_old window now q) ≤ length q
unfolding drop_old
length-drop_old window now [] = omega arith
length-drop_old window now (t ∷ q) = ground (arith, length-drop_old window now q)

set-Few :
    (max_msgs : ℕ) (k : String) (q : List ℕ) (d : Dict (List ℕ))
    → length q ≤ max_msgs
    → All (Few max_msgs) d
    → All (Few max_msgs) (set k q d)
unfolding set
set-Few max_msgs k q [] few v = (few, tt)
set-Few max_msgs k q ((j, p) ∷ d) few v =
    ground (arith, few, v, set-Few max_msgs k q d few v.1, string_discrete j k)

get-Few :
    (max_msgs : ℕ) (k : String) (d : Dict (List ℕ))
    → All (Few max_msgs) d
    → length (or_empty (get k d)) ≤ max_msgs
unfolding get or_empty
get-Few max_msgs k [] v = omega arith
get-Few max_msgs k ((j, p) ∷ d) v = ground (arith, v, get-Few max_msgs k d v.1, string_discrete j k)

limited-Few :
    (max_msgs window : ℕ) (d : Dict (List ℕ)) (k : String) (now : ℕ)
    → All (Few max_msgs) d
    → All (Few max_msgs) (is_rate_limited max_msgs window d k now).0
unfolding is_rate_limited push
limited-Few max_msgs window d k now v =
    let q = drop_old window now (or_empty (get k d)) in
    let few : length q ≤ max_msgs =
      omega (arith, length-drop_old window now (or_empty (get k d)), get-Few max_msgs k d v) in
    let pushed = q ++ now ∷ [] in
    elim (Bool-cases (leb max_msgs (length q))) [
      | inl full ↦ rw full (set-Few max_msgs k q d few v)
      | inr room ↦
          let one_more : length (drop (length pushed - max_msgs * 2) pushed) ≤ max_msgs = ground (
            arith,
            room,
            length-append q (now ∷ []),
            length-drop (length pushed - max_msgs * 2) pushed,
          ) in
          rw room (set-Few max_msgs k _ d one_more v)
    ]

make_room-Few :
    (max_msgs : ℕ) (d : Dict (List ℕ)) (k : String)
    → All (Few max_msgs) d
    → All (Few max_msgs) (make_room d k)
unfolding make_room
make_room-Few max_msgs [] k v = empty
  where
    empty : All (Few max_msgs) (make_room [] k)
    empty = ground (arith, v)
make_room-Few max_msgs (p ∷ d) k v = ground (arith, v, Option-cases (get k (p ∷ d)))

-- Calls of the two limits, for a name, at a time.
unfoldable pub ask_all : ℕ → ℕ → Dict (List ℕ) → List (String × ℕ) → Dict (List ℕ)
ask_all max_msgs window d [] = d
ask_all max_msgs window d ((k, now) ∷ calls) =
    ask_all max_msgs window (is_sender_rate_limited max_msgs window d k now).0 calls

ask_all-Few :
    (max_msgs window : ℕ) (d : Dict (List ℕ)) (calls : List (String × ℕ))
    → All (Few max_msgs) d
    → All (Few max_msgs) (ask_all max_msgs window d calls)
unfolding ask_all is_sender_rate_limited
ask_all-Few max_msgs window d [] v = v
ask_all-Few max_msgs window d ((k, now) ∷ calls) v =
    ask_all-Few max_msgs window (is_rate_limited max_msgs window (make_room d k) k now).0 calls
      (limited-Few max_msgs window (make_room d k) k now (make_room-Few max_msgs d k v))

-- After any messages, at any times: no more times are kept of a sender than messages are allowed.
ask_all-init :
    (max_msgs window : ℕ) (calls : List (String × ℕ))
    → All (Few max_msgs) (ask_all max_msgs window [] calls)
ask_all-init max_msgs window calls = ask_all-Few max_msgs window [] calls tt
