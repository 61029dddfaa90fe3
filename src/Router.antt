-- ===== src/Router.antt =====
-- host/router.py: outgoing messages. A text is the list of its code points. Channels are given by the
-- environment: whether an attempt to send a chunk succeeds is an argument. The pauses between the
-- attempts and the log lines are left out.
pub mod Text
pub mod Split
pub mod Delivery
mod Tests
use evoclaw.Base.{
  ℕ, zero, suc, ◌+◌, Bool, true, false, not, ◌&&◌, ◌||◌, Option, none, some, List, [], ◌∷◌, leb,
  ◌==◌, if◌then◌else◌, length, drop,
}

abbrev pub Text : Type 0
Text = List ℕ

-- `TELEGRAM_MAX_LEN`
abbrev pub telegram_max_len : ℕ
telegram_max_len = 4000

-- `str.isspace` of one code point.
unfoldable pub is_space : ℕ → Bool
is_space c =
    leb 9 c && leb c 13
    || leb 28 c && leb c 32
    || c == 133
    || c == 160
    || c == 5760
    || leb 8192 c && leb c 8202
    || c == 8232
    || c == 8233
    || c == 8239
    || c == 8287
    || c == 12288

abbrev pub is_newline : ℕ → Bool
is_newline c = c == 10

-- `text[:n]`
unfoldable pub take : ℕ → Text → Text
take zero text = []
take (suc n) [] = []
take (suc n) (c ∷ text) = c ∷ take n text

-- `text.rfind("\n", 0, n)`, with `none` for -1.
unfoldable pub rfind_newline : ℕ → Text → Option ℕ
rfind_newline zero text = none
rfind_newline (suc n) [] = none
rfind_newline (suc n) (c ∷ text) = elim (rfind_newline n text) [
  | some i ↦ some (i + 1)
  | none ↦ if is_newline c then some 0 else none
]

-- `text.rstrip()`
unfoldable pub rstrip : Text → Text
rstrip [] = []
rstrip (c ∷ text) = elim (rstrip text) [
  | [] ↦ if is_space c then [] else c ∷ []
  | d ∷ ds ↦ c ∷ d ∷ ds
]

-- `text.lstrip("\n")`
unfoldable pub lstrip_newlines : Text → Text
lstrip_newlines [] = []
lstrip_newlines (c ∷ text) =
    let rest = lstrip_newlines text in if is_newline c then rest else c ∷ text

unfoldable pub nonempty : List Text → List Text
nonempty [] = []
nonempty ([] ∷ chunks) = nonempty chunks
nonempty ((c ∷ text) ∷ chunks) = (c ∷ text) ∷ nonempty chunks

-- Where the next chunk ends.
unfoldable pub split_at : ℕ → Text → ℕ
split_at max_len text = elim (rfind_newline max_len text) [ none ↦ max_len | some i ↦ i ]

-- The loop of `_split_message`.
unfoldable pub split_loop : ℕ → ℕ → Text → Option (List Text)
split_loop zero max_len text = none
split_loop (suc fuel) max_len [] = some []
split_loop (suc fuel) max_len (c ∷ cs) =
    let at = split_at max_len (c ∷ cs) in
    let rest = split_loop fuel max_len (lstrip_newlines (drop at (c ∷ cs))) in
    if leb (length (c ∷ cs)) max_len
    then some ((c ∷ cs) ∷ [])
    else elim rest [ none ↦ none | some chunks ↦ some (rstrip (take at (c ∷ cs)) ∷ chunks) ]

-- `_split_message`; each turn of the loop takes a code point off the text.
unfoldable pub split_message : ℕ → Text → Option (List Text)
split_message max_len text =
    if leb (length text) max_len
    then some (text ∷ [])
    else elim (split_loop (length text + 1) max_len text) [
      | none ↦ none
      | some chunks ↦ some (nonempty chunks)
    ]

-- What the user is told when a chunk cannot be sent.
pub data Notice : Type 0 where
  undelivered : ℕ → Notice
  failed : Notice

-- `_CHUNK_MAX_RETRIES`
abbrev pub chunk_max_retries : ℕ
chunk_max_retries = 2

-- `sends i n`: attempt `n` to send chunk `i` succeeds.
module _ (sends : ℕ → ℕ → Bool) where
  -- The attempts from `n` on, with `left` more after it.
  unfoldable pub try_send : ℕ → ℕ → ℕ → Bool
  try_send i n zero = sends i n
  try_send i n (suc left) = sends i n || try_send i (n + 1) left

  -- The loop of `route_outbound` from chunk `i` on: the chunks that are sent, and the notice.
  unfoldable pub send_chunks : ℕ → List Text → List Text × Option Notice
  send_chunks i [] = ([], none)
  send_chunks i (chunk ∷ chunks) =
      let (sent, notice) = send_chunks (i + 1) chunks in
      if try_send i 0 chunk_max_retries
      then (chunk ∷ sent, notice)
      else ([], elim chunks [ [] ↦ some failed | _ ∷ rest ↦ some (undelivered (length rest + 1)) ])
