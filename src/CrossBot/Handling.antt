-- ===== src/CrossBot/Handling.antt =====
-- host/identity/cross_bot_protocol.py: which received texts are acted on.
use evoclaw.Base.{
  ℕ, String, Bool, true, false, ◌≡◌, refl, ap, ◌≢◌, ◌⊎◌, inl, inr, Option, none, some, is_text,
  same_text_eq, string_discrete, arith, member, Option-cases, Bool-cases,
}
use evoclaw.Base.Dict.{Dict}
use evoclaw.BotRegistry.{BotRegistry}
use evoclaw.CrossBot.{
  Json, null, text, number, float, value, CrossBotMessage, Codec, allowed_msg_types, body_at,
  signing_body, sign, verify, compare_digest, to_json, from_json, envelope,
}
use evoclaw.CrossBot.Protocol.{
  CrossBotProtocol, Reply, answered, raised, starts_with, and_test, protocol_ok, type_ok,
  signature_ok, is_accepted, act, receive, handle,
}
use evoclaw.CrossBot.Signed.{signing_body_at, from_json-to_json, verify_signed}

-- The message as it is signed, with another type and addressee.
abbrev pub retyped :
    {J F : Type 0}
    → Codec J F
    → CrossBotMessage J F
    → Json J F
    → String
    → String
    → Json J F
    → CrossBotMessage J F
retyped c m ms secret type to = record m {
  signature = text (c.hmac_sha256 secret (body_at c m ms));
  type = text type;
  to_bot_id = to;
}

and_test-true : (a b : Option Bool) → and_test a b ≡ some true → (a ≡ some true) × (b ≡ some true)
unfolding and_test
and_test-true none b h = absurd (ground (arith, h))
and_test-true (some false) b h = absurd (ground (arith, h))
and_test-true (some true) b h = (refl, h)

module _ {J F : Type 0} (c : Codec J F) (self : CrossBotProtocol) where
  compare_digest-eq :
      (v : Json J F) (digest : String) → compare_digest v digest ≡ some true → v ≡ text digest
  unfolding compare_digest
  compare_digest-eq (text s) digest h = ap text (same_text_eq s digest (ground (arith, h)))
  compare_digest-eq null digest h = absurd (ground (arith, h))
  compare_digest-eq (number _) digest h = absurd (ground (arith, h))
  compare_digest-eq (float _) digest h = absurd (ground (arith, h))
  compare_digest-eq (value _) digest h = absurd (ground (arith, h))

  verify-digest :
      (m : CrossBotMessage J F) (secret : String)
      → verify c m secret ≡ some true
      → (body : String) × (signing_body c m ≡ some body)
        × (m.signature ≡ text (c.hmac_sha256 secret body))
  unfolding verify
  verify-digest m secret h = elim (Option-cases (signing_body c m)) [
    | inl e ↦ absurd (ground (arith, h, e))
    | inr (body, e) ↦
        (body, e, compare_digest-eq m.signature (c.hmac_sha256 secret body) (ground (arith, h, e)))
  ]

  protocol_ok-text :
      (v : Json J F)
      → protocol_ok v ≡ some true
      → (s : String) × (v ≡ text s) × (starts_with "crossbot/" s ≡ true)
  unfolding protocol_ok
  protocol_ok-text (text s) h = (s, refl, ground (arith, h))
  protocol_ok-text null h = absurd (ground (arith, h))
  protocol_ok-text (number _) h = absurd (ground (arith, h))
  protocol_ok-text (float _) h = absurd (ground (arith, h))
  protocol_ok-text (value _) h = absurd (ground (arith, h))

  type_ok-text :
      (v : Json J F)
      → type_ok c self v ≡ some true
      → (s : String) × (v ≡ text s) × (member s allowed_msg_types ≡ true)
  unfolding type_ok
  type_ok-text (text s) h = (s, refl, ground (arith, h))
  type_ok-text null h = absurd (ground (arith, h))
  type_ok-text (number _) h = absurd (ground (arith, h))
  type_ok-text (float _) h = absurd (ground (arith, h))
  type_ok-text (value j) h = absurd (ground (arith, h))

  -- The message is one of the protocol, of a known type; and if there is a secret, signed with it.
  pub record IsGenuine (m : CrossBotMessage J F) : Type 0 where
    pub known_protocol : (s : String) × (m.protocol ≡ text s) × (starts_with "crossbot/" s ≡ true)
    pub known_type : (s : String) × (m.type ≡ text s) × (member s allowed_msg_types ≡ true)
    pub signed :
        (secret : String)
        → self.secret ≡ some secret
        → secret ≢ ""
        → (body : String) × (signing_body c m ≡ some body)
          × (m.signature ≡ text (c.hmac_sha256 secret body))

  ok_signed :
      (m : CrossBotMessage J F) (o : Option String) (secret : String)
      → signature_ok c self o m ≡ some true
      → o ≡ some secret
      → secret ≢ ""
      → verify c m secret ≡ some true
  unfolding signature_ok is_text
  ok_signed m none secret h e n = absurd (ground (arith, e))
  ok_signed m (some s) secret h e n = ground (arith, h, e, n, string_discrete s "")

  accepted-IsGenuine : (m : CrossBotMessage J F) → is_accepted c self m ≡ some true → IsGenuine m
  unfolding is_accepted
  accepted-IsGenuine m h =
      let (protocol, later) = and_test-true _ _ h in
      let (type, signature) = and_test-true _ _ later in
      record {
        known_protocol = protocol_ok-text m.protocol protocol;
        known_type = type_ok-text m.type type;
        signed =
            λ secret e n. verify-digest m secret (ok_signed m self.secret secret signature e n);
      }

  accepted_if :
      (m : CrossBotMessage J F) (secret protocol type : String)
      → self.secret ≡ some secret
      → m.protocol ≡ text protocol
      → starts_with "crossbot/" protocol ≡ true
      → m.type ≡ text type
      → member type allowed_msg_types ≡ true
      → verify c m secret ≡ some true
      → is_accepted c self m ≡ some true
  unfolding is_accepted and_test signature_ok protocol_ok type_ok
  accepted_if m secret protocol type shared proto starts typed known verified =
      let protocol_passes : protocol_ok m.protocol ≡ some true =
        rw (proto, protocol_ok, starts) refl in
      let type_passes : type_ok c self m.type ≡ some true = rw (typed, type_ok, known) refl in
      rw (protocol_passes, type_passes, shared)
        (elim (Bool-cases (is_text secret)) [ inl e ↦ rw (e, verified) refl | inr e ↦ rw e refl ])

  -- No message is answered.
  abbrev pub IsSilent : Reply J F → Type 0
  IsSilent (answered none) = Unit
  IsSilent (answered (some _)) = ⊥
  IsSilent raised = Unit

  module _ (handlers : Dict (CrossBotMessage J F → Reply J F)) where
    -- A text is refused, or it is read as a genuine message, which is acted on.
    abbrev pub Handles : Option BotRegistry → String → String → F → ℕ → Type 0
    Handles registry raw msg_id now at =
        ((r : Reply J F) × (handle c self handlers registry raw msg_id now at ≡ (registry, r))
          × IsSilent r)
        ⊎ ((m : CrossBotMessage J F) × (from_json c raw msg_id now ≡ some m)
            × IsGenuine m
            × (handle c self handlers registry raw msg_id now at
                ≡ act c self handlers registry m msg_id now at))

    receive-IsGenuine :
        (registry : Option BotRegistry) (m : CrossBotMessage J F) (msg_id : String) (now : F)
        (at : ℕ)
        → ((r : Reply J F) × (receive c self handlers registry m msg_id now at ≡ (registry, r))
            × IsSilent r)
          ⊎ IsGenuine m
            × (receive c self handlers registry m msg_id now at
                ≡ act c self handlers registry m msg_id now at)
    unfolding receive
    receive-IsGenuine registry m msg_id now at = elim (Option-cases (is_accepted c self m)) [
      | inl e ↦ inl (raised, rw (e, receive) refl, tt)
      | inr (false, e) ↦ inl (answered none, rw (e, receive) refl, tt)
      | inr (true, e) ↦ inr (accepted-IsGenuine m e, rw (e, receive) refl)
    ]

    -- Whatever text is received, the registry stays as it is and no message is answered, an exception or
    -- not; or the text is read as a message of the protocol, of a known type, that carries the digest
    -- made with the secret, if there is one, and then this message is acted on: its sender is marked as
    -- seen, if the registry takes its id, and the answer is that of the handler for its type.
    pub handle-IsGenuine :
        (registry : Option BotRegistry) (raw msg_id : String) (now : F) (at : ℕ)
        → Handles registry raw msg_id now at
    unfolding handle
    handle-IsGenuine registry raw msg_id now at = elim (Option-cases (from_json c raw msg_id now)) [
      | inl e ↦ inl (answered none, rw (e, handle) refl, tt)
      | inr (m, e) ↦ elim (receive-IsGenuine registry m msg_id now at) [
        | inl (r, same, silent) ↦ inl (r, rw (e, handle) same, silent)
        | inr (genuine, same) ↦ inr (m, e, genuine, rw (e, handle) same)
      ]
    ]

    -- A message that is signed with the receiver's secret, whose type is then replaced by another known
    -- one and whose addressee by any, is acted on as a message of the new type, at any time: the
    -- signature covers neither, and the addressee is not looked at. The message has a time that can be
    -- cut to milliseconds, which survive the way through a float; the digest is not empty, and `json`
    -- reads back the dict that it wrote for the message.
    pub handle-retyped :
        (m : CrossBotMessage J F) (ms t : Json J F) (secret protocol type : String) (to : Json J F)
        → self.secret ≡ some secret
        → c.to_ms m.timestamp ≡ some ms
        → c.of_ms ms ≡ some t
        → c.to_ms t ≡ some ms
        → c.hmac_sha256 secret (body_at c m ms) ≢ ""
        → m.protocol ≡ text protocol
        → starts_with "crossbot/" protocol ≡ true
        → member type allowed_msg_types ≡ true
        → c.loads (c.dumps (envelope c (retyped c m ms secret type to) ms))
          ≡ some (envelope c (retyped c m ms secret type to) ms)
        → (registry : Option BotRegistry) (msg_id : String) (now : F) (at : ℕ)
        → (sent : CrossBotMessage J F) × (sign c m secret ≡ some sent)
          × ((raw : String) × (to_json c (record sent { type = text type; to_bot_id = to })
                ≡ some raw)
              × (handle c self handlers registry raw msg_id now at
                  ≡ act c self handlers registry
                      (record sent { type = text type; to_bot_id = to; timestamp = t })
                      msg_id
                      now
                      at))
    unfolding handle receive sign body_at
    handle-retyped m ms t secret protocol type to shared out back stable digest proto starts known
          reads registry msg_id now at =
        let forged = retyped c m ms secret type to in
        let (raw, written, arrives) = from_json-to_json c forged ms t msg_id now out back reads in
        let verified : verify c (record forged { timestamp = t }) secret ≡ some true =
          verify_signed c (record forged { timestamp = t }) (body_at c m ms) secret
            (signing_body_at c (record forged { timestamp = t }) ms stable) digest refl in
        let accepted : is_accepted c self (record forged { timestamp = t }) ≡ some true =
          accepted_if (record forged { timestamp = t }) secret protocol type shared proto starts
            refl known verified in
        (
          record m { signature = text (c.hmac_sha256 secret (body_at c m ms)) },
          rw (signing_body_at c m ms out, sign) refl,
          (raw, written, rw (arrives, handle, accepted, receive) refl),
        )
