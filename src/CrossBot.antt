-- ===== src/CrossBot.antt =====
-- host/identity/cross_bot_protocol.py: the messages between bots, their signatures, and the handling of
-- a received text. A field of a received message holds whatever JSON value the text has there, and the
-- operations that Python refuses on some values give `none`. The `json` module, floats (`F`), the other
-- values (`J`) and HMAC-SHA256 are in `Codec`; a fresh message id and the clock are arguments. Texts
-- with lone surrogates are left out.
pub mod Protocol
pub mod Signed
pub mod Handling
mod Tests
use Prim.Native.Char.{code}
use Prim.Native.String.{String}
use evoclaw.Base.{
  ℕ, Bool, true, false, not, ◌&&◌, Option, none, some, List, [], ◌∷◌, if◌then◌else◌, concat,
  is_text, same_text, ◌>>=◌, ltb, ◌==◌,
}
use evoclaw.Base.Dict.{Dict, get}

-- A JSON value; `value` has objects, lists, Booleans and negative numbers.
pub data Json (J F : Type 0) : Type 0 where
  null : Json J F
  text : String → Json J F
  number : ℕ → Json J F
  float : F → Json J F
  value : J → Json J F

pub record CrossBotMessage (J F : Type 0) : Type 0 where
  pub from_bot_id : Json J F
  pub type : Json J F
  pub payload : Json J F
  pub to_bot_id : Json J F
  pub msg_id : Json J F
  pub timestamp : Json J F
  pub protocol : Json J F
  pub signature : Json J F

-- `loads` is `none` if the text is not that of an object. `dict_of` builds a dict, and `item` is its
-- `get`, which other values have not; `dumps_sorted` is `json.dumps` with sorted keys; `to_ms v` is
-- `int(v * 1000)` and `of_ms v` is `v / 1000.0`, if they do not raise; `show` is the text in an
-- f-string; `is_true` is `bool` of a float or an other value; `is_hashable` is whether `hash` succeeds;
-- and `bind` is the text with which SQLite compares a number or an other value, if it takes it.
pub record Codec (J F : Type 0) : Type 0 where
  pub dumps : Dict (Json J F) → String
  pub loads : String → Option (Dict (Json J F))
  pub dict_of : Dict (Json J F) → J
  pub item : J → String → Option (Json J F)
  pub dumps_sorted : Json J F → String
  pub to_ms : Json J F → Option (Json J F)
  pub of_ms : Json J F → Option (Json J F)
  pub show : Json J F → String
  pub is_true : Json J F → Bool
  pub is_hashable : J → Bool
  pub bind : Json J F → Option String
  pub hmac_sha256 : String → String → String

abbrev pub protocol_version : String
protocol_version = "crossbot/1.0"

-- `_ALLOWED_MSG_TYPES`
abbrev pub allowed_msg_types : List String
allowed_msg_types =
    "hello" ∷ "ack" ∷ "memory_share" ∷ "task_delegate" ∷ "status" ∷ "ping" ∷ "pong" ∷ []

-- A text or `None`.
unfoldable pub of_optional : {J F : Type 0} → Option String → Json J F
of_optional none = null
of_optional (some s) = text s

-- `d.get(key, default)`
unfoldable pub get_or : {J F : Type 0} → String → Dict (Json J F) → Json J F → Json J F
get_or key d default = elim (get key d) [ none ↦ default | some v ↦ v ]

unfoldable pub is_ascii : String → Bool
is_ascii String.[] = true
is_ascii (String.◌∷◌ c s) = ltb (code c) 128 && is_ascii s

-- `hmac.compare_digest`, which raises on what is not a text of ASCII; the digest is one, and so is a
-- text that equals it.
unfoldable pub compare_digest : {J F : Type 0} → Json J F → String → Option Bool
compare_digest (text s) digest =
    if same_text s digest then some true else if is_ascii s then some false else none
compare_digest null digest = none
compare_digest (number _) digest = none
compare_digest (float _) digest = none
compare_digest (value _) digest = none

module _ {J F : Type 0} (c : Codec J F) where
  abbrev pub Message : Type 0
  Message = CrossBotMessage J F

  -- `bool(v)`
  unfoldable pub truthy : Json J F → Bool
  truthy null = false
  truthy (text s) = is_text s
  truthy (number n) = not (n == 0)
  truthy (float x) = c.is_true (float x)
  truthy (value j) = c.is_true (value j)

  -- The text that is signed, with the milliseconds.
  unfoldable pub body_at : Message → Json J F → String
  body_at m ms = concat (c.show m.msg_id) (
      concat ":" (
        concat (c.show m.from_bot_id)
          (concat ":" (concat (c.show ms) (concat ":" (c.dumps_sorted m.payload))))))

  -- `_signing_body`
  unfoldable pub signing_body : Message → Option String
  signing_body m = elim (c.to_ms m.timestamp) [ none ↦ none | some ms ↦ some (body_at m ms) ]

  unfoldable pub sign : Message → String → Option Message
  sign m secret = elim (signing_body m) [
    | none ↦ none
    | some body ↦ some (record m { signature = text (c.hmac_sha256 secret body) })
  ]

  unfoldable pub verify : Message → String → Option Bool
  verify m secret =
      if truthy m.signature
      then elim (signing_body m) [
        | none ↦ none
        | some body ↦ compare_digest m.signature (c.hmac_sha256 secret body)
      ]
      else some false

  unfoldable pub envelope : Message → Json J F → Dict (Json J F)
  envelope m ms =
      ("protocol", m.protocol)
      ∷ ("from_bot_id", m.from_bot_id)
      ∷ ("to_bot_id", m.to_bot_id)
      ∷ ("msg_id", m.msg_id)
      ∷ ("timestamp_ms", ms)
      ∷ ("type", m.type)
      ∷ ("payload", m.payload)
      ∷ ("signature", m.signature)
      ∷ []

  unfoldable pub to_json : Message → Option String
  to_json m = elim (c.to_ms m.timestamp) [ none ↦ none | some ms ↦ some (c.dumps (envelope m ms)) ]

  -- The new key with milliseconds, or the old one.
  unfoldable pub time_of : Dict (Json J F) → F → Option (Json J F)
  time_of d now = elim (get "timestamp_ms" d) [
    | some ms ↦ c.of_ms ms
    | none ↦ some (get_or "timestamp" d (float now))
  ]

  unfoldable pub read_envelope : Dict (Json J F) → String → F → Option Message
  read_envelope d fresh_id now = do
    timestamp ← time_of d now
    from_bot_id ← get "from_bot_id" d
    type ← get "type" d
    some (record {
      from_bot_id = from_bot_id;
      type = type;
      payload = get_or "payload" d (value (c.dict_of []));
      to_bot_id = get_or "to_bot_id" d null;
      msg_id = get_or "msg_id" d (text fresh_id);
      timestamp = timestamp;
      protocol = get_or "protocol" d (text protocol_version);
      signature = get_or "signature" d null;
    })

  unfoldable pub from_json : String → String → F → Option Message
  from_json raw fresh_id now = elim (c.loads raw) [
    | none ↦ none
    | some d ↦ read_envelope d fresh_id now
  ]
