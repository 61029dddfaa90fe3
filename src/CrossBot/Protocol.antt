-- ===== src/CrossBot/Protocol.antt =====
-- host/identity/cross_bot_protocol.py: `CrossBotProtocol`, which makes messages and handles received
-- texts. A registered handler is a function on messages, which may raise; what else it does is left
-- out. The id and the time of a new message are arguments.
use evoclaw.Base.{
  ℕ, String, Bool, true, false, Option, none, some, [], ◌∷◌, if◌then◌else◌, member, is_text,
  same_text, strip_prefix,
}
use evoclaw.Base.Dict.{Dict, get}
use evoclaw.BotRegistry.{BotRegistry, update_last_seen}
use evoclaw.CrossBot.{
  Json, null, text, number, float, value, CrossBotMessage, Codec, protocol_version,
  allowed_msg_types, of_optional, verify, from_json,
}

-- The registry and the handlers change; they are arguments of `handle`.
pub record CrossBotProtocol : Type 0 where
  pub my_bot_id : String
  pub secret : Option String

-- `handle` returns a message or `None`, or it raises.
pub data Reply (J F : Type 0) : Type 0 where
  answered : Option (CrossBotMessage J F) → Reply J F
  raised : Reply J F

-- `s.startswith(prefix)`
unfoldable pub starts_with : String → String → Bool
starts_with prefix s = elim (strip_prefix prefix s) [ none ↦ false | some _ ↦ true ]

-- One test and then another, each of which may raise; the second is made if the first passes.
unfoldable pub and_test : Option Bool → Option Bool → Option Bool
and_test none later = none
and_test (some false) later = some false
and_test (some true) later = later

module _ {J F : Type 0} where
  -- `v == s`
  unfoldable pub is_the_text : String → Json J F → Bool
  is_the_text s (text t) = same_text t s
  is_the_text s null = false
  is_the_text s (number _) = false
  is_the_text s (float _) = false
  is_the_text s (value _) = false

  -- `protocol.startswith("crossbot/")`, which other values than texts have not.
  unfoldable pub protocol_ok : Json J F → Option Bool
  protocol_ok (text s) = some (starts_with "crossbot/" s)
  protocol_ok null = none
  protocol_ok (number _) = none
  protocol_ok (float _) = none
  protocol_ok (value _) = none

  -- `d.get(v)` on a dict with texts as keys
  unfoldable pub get_at : {V : Type 0} → Json J F → Dict V → Option V
  get_at (text s) d = get s d
  get_at null d = none
  get_at (number _) d = none
  get_at (float _) d = none
  get_at (value _) d = none

  unfoldable pub reply_of : Option (CrossBotMessage J F) → Reply J F
  reply_of none = raised
  reply_of (some m) = answered (some m)

module _ {J F : Type 0} (c : Codec J F) (self : CrossBotProtocol) where
  -- A new message, not signed.
  unfoldable pub new_message :
      Json J F → String → Dict (Json J F) → String → F → CrossBotMessage J F
  new_message to_bot_id type payload msg_id now = record {
    from_bot_id = text self.my_bot_id;
    type = text type;
    payload = value (c.dict_of payload);
    to_bot_id = to_bot_id;
    msg_id = text msg_id;
    timestamp = float now;
    protocol = text protocol_version;
    signature = null;
  }

  unfoldable pub make_hello : Option String → Option String → String → F → CrossBotMessage J F
  make_hello target nonce msg_id now =
      new_message (of_optional target) "hello"
        (("nonce", of_optional nonce) ∷ ("version", text protocol_version) ∷ []) msg_id now

  -- `payload.get(key)`
  unfoldable pub payload_item : Json J F → String → Option (Json J F)
  payload_item (value j) key = c.item j key
  payload_item null key = none
  payload_item (text _) key = none
  payload_item (number _) key = none
  payload_item (float _) key = none

  unfoldable pub make_ack : CrossBotMessage J F → String → F → Option (CrossBotMessage J F)
  make_ack original msg_id now = elim (payload_item original.payload "nonce") [
    | none ↦ none
    | some nonce ↦ some (
        new_message original.from_bot_id "ack"
          (("ack_msg_id", original.msg_id) ∷ ("nonce", nonce) ∷ []) msg_id now)
  ]

  unfoldable pub make_memory_share :
      String → String → Json J F → String → String → F → CrossBotMessage J F
  make_memory_share target key v scope msg_id now =
      new_message (text target) "memory_share"
        (("key", text key) ∷ ("value", v) ∷ ("scope", text scope) ∷ []) msg_id now

  unfoldable pub make_task_delegate : String → String → J → String → F → CrossBotMessage J F
  make_task_delegate target task context msg_id now =
      new_message (text target) "task_delegate"
        (("task", text task) ∷ ("context", value context) ∷ []) msg_id now

  unfoldable pub make_ping : String → F → CrossBotMessage J F
  make_ping msg_id now = new_message null "ping" (("ts", float now) ∷ []) msg_id now

  unfoldable pub make_pong : CrossBotMessage J F → String → F → CrossBotMessage J F
  make_pong m msg_id now = new_message m.from_bot_id "pong" (("ts", float now) ∷ []) msg_id now

  -- `msg.type in _ALLOWED_MSG_TYPES`, which hashes the type.
  unfoldable pub type_ok : Json J F → Option Bool
  type_ok (text s) = some (member s allowed_msg_types)
  type_ok null = some false
  type_ok (number _) = some false
  type_ok (float _) = some false
  type_ok (value j) = if c.is_hashable j then some false else none

  -- `if self.secret`: the check of the signature passes.
  unfoldable pub signature_ok : Option String → CrossBotMessage J F → Option Bool
  signature_ok none m = some true
  signature_ok (some secret) m = if is_text secret then verify c m secret else some true

  unfoldable pub is_accepted : CrossBotMessage J F → Option Bool
  is_accepted m =
      and_test (protocol_ok m.protocol) (and_test (type_ok m.type) (signature_ok self.secret m))

  -- What SQLite compares the ids of bots with: `some none` for NULL, which equals none of them.
  unfoldable pub bound : Json J F → Option (Option String)
  bound (text s) = some (some s)
  bound null = some none
  bound (number n) = elim (c.bind (number n)) [ none ↦ none | some s ↦ some (some s) ]
  bound (float x) = elim (c.bind (float x)) [ none ↦ none | some s ↦ some (some s) ]
  bound (value j) = elim (c.bind (value j)) [ none ↦ none | some s ↦ some (some s) ]

  -- `if self.registry`: the sender has been seen, or SQLite does not take its id.
  unfoldable pub seen : Option BotRegistry → Json J F → ℕ → Option (Option BotRegistry)
  seen none sender at = some none
  seen (some r) sender at = elim (bound sender) [
    | none ↦ none
    | some none ↦ some (some r)
    | some (some bot_id) ↦ some (some (update_last_seen r bot_id at))
  ]

  -- The answer without a handler.
  unfoldable pub answer : CrossBotMessage J F → String → F → Reply J F
  answer m msg_id now =
      if is_the_text "ping" m.type
      then answered (some (make_pong m msg_id now))
      else if is_the_text "hello" m.type
      then reply_of (make_ack m msg_id now)
      else answered none

  module _ (handlers : Dict (CrossBotMessage J F → Reply J F)) where
    unfoldable pub dispatch : CrossBotMessage J F → String → F → Reply J F
    dispatch m msg_id now = elim (get_at m.type handlers) [
      | some handler ↦ handler m
      | none ↦ answer m msg_id now
    ]

    -- What is done with an accepted message.
    unfoldable pub act :
        Option BotRegistry → CrossBotMessage J F → String → F → ℕ → Option BotRegistry × Reply J F
    act registry m msg_id now at = elim (seen registry m.from_bot_id at) [
      | none ↦ (registry, raised)
      | some registry' ↦ (registry', dispatch m msg_id now)
    ]

    unfoldable pub receive :
        Option BotRegistry → CrossBotMessage J F → String → F → ℕ → Option BotRegistry × Reply J F
    receive registry m msg_id now at = elim (is_accepted m) [
      | none ↦ (registry, raised)
      | some false ↦ (registry, answered none)
      | some true ↦ act registry m msg_id now at
    ]

    -- `at` is the clock of the registry; `msg_id` is drawn for a message that has none, or for the
    -- answer.
    unfoldable pub handle :
        Option BotRegistry → String → String → F → ℕ → Option BotRegistry × Reply J F
    handle registry raw msg_id now at = elim (from_json c raw msg_id now) [
      | none ↦ (registry, answered none)
      | some m ↦ receive registry m msg_id now at
    ]
