-- ===== src/Admission/Fence.antt =====
-- host/main.py: the fence against duplicates stops a repeated message.
use evoclaw.Base.{
  ℕ, ◌+◌, ◌<◌, String, true, false, ◌≡◌, none, some, [], ◌∷◌, ltb, arith, length, drop,
  string_discrete, Option-cases, Bool-cases, inl, inr,
}
use evoclaw.Base.Dict.{Dict, get, set, remove, get-remove, get-set_self}
use evoclaw.Admission.{insert, is_duplicate_message, dedup_ttl_secs, dedup_max}

get-drop-set :
    (fp : String) (now : ℕ) (d : Dict ℕ)
    → get fp d ≡ none
    → 1 < length (set fp now d)
    → get fp (drop 1 (set fp now d)) ≡ some now
unfolding get set
get-drop-set fp now [] h long = absurd (omega arith)
get-drop-set fp now ((k, v) ∷ d) h long =
    ground (arith, h, string_discrete k fp, get-set_self fp now d)

get-insert :
    (fp : String) (now : ℕ) (d : Dict ℕ) → get fp d ≡ none → get fp (insert d fp now) ≡ some now
unfolding insert
get-insert fp now d h = elim (Bool-cases (ltb dedup_max (length (set fp now d)))) [
  | inl full ↦ rw full (get-drop-set fp now d h (ground (arith, full)))
  | inr room ↦ rw room (get-set_self fp now d)
]

admitted_inserts :
    (seen : Dict ℕ) (fp : String) (now : ℕ)
    → (is_duplicate_message seen fp now).1 ≡ false
    → get fp (is_duplicate_message seen fp now).0 ≡ some now
unfolding is_duplicate_message
admitted_inserts seen fp now h = elim (Option-cases (get fp seen)) [
  | inl e ↦ ground (arith, e, get-insert fp now seen e)
  | inr (t, e) ↦ ground (
    arith,
    e,
    h,
    get-remove fp fp seen,
    string_discrete fp fp,
    get-insert fp now (remove fp seen),
  )
]

stops :
    (d : Dict ℕ) (fp : String) (now later : ℕ)
    → get fp d ≡ some now
    → later < now + dedup_ttl_secs
    → (is_duplicate_message d fp later).1 ≡ true
unfolding is_duplicate_message
stops d fp now later e soon = ground (arith, e, soon)

-- A message that passes the fence, and is repeated within 300 seconds with none in between, is
-- stopped.
pub is_duplicate-repeated :
    (seen : Dict ℕ) (fp : String) (now later : ℕ)
    → (is_duplicate_message seen fp now).1 ≡ false
    → later < now + dedup_ttl_secs
    → (is_duplicate_message (is_duplicate_message seen fp now).0 fp later).1 ≡ true
is_duplicate-repeated seen fp now later first soon =
    stops (is_duplicate_message seen fp now).0 fp now later (admitted_inserts seen fp now first)
      soon
