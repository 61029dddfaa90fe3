-- ===== src/CrossBot/Tests.antt =====
-- Bot `b` shares a secret with bot `a`, which greets it. The digest is the text itself, and `json` is a
-- table with one entry.
use evoclaw.Base.{
  ℕ, ◌≡◌, refl, true, false, String, Option, none, some, [], ◌∷◌, ite, string_discrete, member,
  concat, is_text, same_text, strip_prefix,
}
use evoclaw.Base.Dict.{Dict, get, set}
use evoclaw.BotRegistry.{BotRegistry, BotIdentity, init, update_last_seen}
use evoclaw.CrossBot.{
  Json, null, text, number, float, CrossBotMessage, Codec, of_optional, get_or, is_ascii,
  compare_digest, truthy, body_at, signing_body, sign, verify, envelope, to_json, time_of,
  read_envelope, from_json,
}
use evoclaw.CrossBot.Protocol.{
  CrossBotProtocol, Reply, answered, raised, starts_with, and_test, is_the_text, protocol_ok,
  get_at, reply_of, new_message, make_hello, payload_item, make_ack, make_ping, make_pong, type_ok,
  signature_ok, is_accepted, bound, seen, answer, dispatch, act, receive, handle,
}
use evoclaw.CrossBot.Handling.{Handles, handle-IsGenuine, handle-retyped}

program : Unit {0}
unfolding string_discrete member concat is_text same_text strip_prefix get set update_last_seen
    of_optional get_or is_ascii compare_digest truthy body_at signing_body sign verify envelope
    to_json time_of read_envelope from_json starts_with and_test is_the_text protocol_ok get_at
    reply_of new_message make_hello payload_item make_ack make_ping make_pong type_ok signature_ok
    is_accepted bound seen answer dispatch act receive handle
program = tt

-- Objects are units, and times are in milliseconds.
abbrev V : Type 0
V = Json (Unit {0}) ℕ

abbrev codec : Dict V → Codec (Unit {0}) ℕ
codec d = record {
  dumps = λ _. "json";
  loads = λ s. ite (string_discrete s "json") (some d) none;
  dict_of = λ _. tt;
  item = λ _ _. some null;
  dumps_sorted = λ _. "{}";
  to_ms = λ _. some (number 17);
  of_ms = λ _. some (float 17);
  show = λ _. "17";
  is_true = λ _. true;
  is_hashable = λ _. false;
  bind = λ _. none;
  hmac_sha256 = λ secret body. concat secret body;
}

abbrev a : CrossBotProtocol
a = record { my_bot_id = "a"; secret = some "key" }

abbrev b : CrossBotProtocol
b = record { my_bot_id = "b"; secret = some "key" }

abbrev hello : CrossBotMessage (Unit {0}) ℕ
hello = make_hello (codec []) a (some "b") none "m1" 17

abbrev signed : CrossBotMessage (Unit {0}) ℕ
signed = record hello { signature = text "key17:17:17:{}" }

really_signed : sign (codec []) hello "key" ≡ some signed
unfolding program
really_signed = refl

-- What `a` sent as a greeting, turned into a ping for nobody.
abbrev forged : CrossBotMessage (Unit {0}) ℕ
forged = record signed { type = text "ping"; to_bot_id = null }

abbrev wire : CrossBotMessage (Unit {0}) ℕ → Codec (Unit {0}) ℕ
wire m = codec (envelope (codec []) m (number 17))

abbrev reply : CrossBotMessage (Unit {0}) ℕ → Option BotRegistry × Reply (Unit {0}) ℕ
reply m = handle (wire m) b [] none "json" "m2" 20 3

greeted :
    reply signed ≡ (none, answered (some (new_message (codec []) b (text "a") "ack" [] "m2" 20)))
unfolding program
greeted = refl

unsigned : reply hello ≡ (none, answered none)
unfolding program
unsigned = refl

-- A number has no `startswith`, and a digest that is a number is not compared.
numeric_protocol : reply (record hello { protocol = number 1 }) ≡ (none, raised)
unfolding program
numeric_protocol = refl

numeric_signature : reply (record hello { signature = number 1 }) ≡ (none, raised)
unfolding program
numeric_signature = refl

abbrev bot : BotIdentity
bot = record {
  bot_id = "a";
  name = "a";
  display_name = "a";
  framework = "evoclaw";
  channel = "discord";
  capabilities = [];
  ws_endpoint = none;
  http_endpoint = none;
  public_key = none;
  registered_at = 1;
  last_seen = 1;
  trusted = false;
}

-- A signed greeting without a payload marks its sender as seen, and then raises.
seen_then_raised :
    handle
      (wire (record signed { payload = null }))
      b
      []
      (some (record init { bots = ("a", bot) ∷ [] }))
      "json"
      "m2"
      20
      3
    ≡ (some (record init { bots = ("a", record bot { last_seen = 3 }) ∷ [] }), raised)
unfolding program
seen_then_raised = refl

handle-IsGenuine_example : Handles (wire hello) b [] none "json" "m2" 20 3
handle-IsGenuine_example = handle-IsGenuine (wire hello) b [] none "json" "m2" 20 3

handle-retyped_example :
    (sent : CrossBotMessage (Unit {0}) ℕ) × (sign (wire forged) hello "key" ≡ some sent)
    × ((raw : String) × (to_json
            (wire forged)
            (record sent { type = text "ping"; to_bot_id = null })
          ≡ some raw)
        × (handle (wire forged) b [] none raw "m2" 20 3
            ≡ act
                (wire forged)
                b
                []
                none
                (record sent { type = text "ping"; to_bot_id = null; timestamp = float 17 })
                "m2"
                20
                3))
unfolding program
handle-retyped_example =
    handle-retyped (wire forged) b [] hello (number 17) (float 17) "key" "crossbot/1.0" "ping" null
      refl refl refl refl (λ e. cc (e)) refl refl refl refl none "m2" 20 3
