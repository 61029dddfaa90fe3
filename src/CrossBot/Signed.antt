-- ===== src/CrossBot/Signed.antt =====
-- host/identity/cross_bot_protocol.py: a message survives its way through JSON, and so does its
-- signature.
use evoclaw.Base.{
  String, true, ◌≡◌, refl, ◌≢◌, subst, sym, some, is_text, same_text_self, string_discrete, arith,
}
use evoclaw.Base.Dict.{get}
use evoclaw.CrossBot.{
  Json, text, CrossBotMessage, Codec, get_or, compare_digest, truthy, body_at, signing_body, verify,
  envelope, to_json, time_of, read_envelope, from_json,
}

module _ {J F : Type 0} (c : Codec J F) where
  pub signing_body_at :
      (m : CrossBotMessage J F) (ms : Json J F)
      → c.to_ms m.timestamp ≡ some ms
      → signing_body c m ≡ some (body_at c m ms)
  unfolding signing_body
  signing_body_at m ms e = rw (e, signing_body) refl

  read-envelope :
      (m : CrossBotMessage J F) (ms t : Json J F) (fresh_id : String) (now : F)
      → c.of_ms ms ≡ some t
      → read_envelope c (envelope c m ms) fresh_id now ≡ some (record m { timestamp = t })
  unfolding read_envelope envelope get_or get string_discrete time_of
  read-envelope m ms t fresh_id now back = rw back refl

  pub from_json-to_json :
      (m : CrossBotMessage J F) (ms t : Json J F) (fresh_id : String) (now : F)
      → c.to_ms m.timestamp ≡ some ms
      → c.of_ms ms ≡ some t
      → c.loads (c.dumps (envelope c m ms)) ≡ some (envelope c m ms)
      → (raw : String) × (to_json c m ≡ some raw)
        × (from_json c raw fresh_id now ≡ some (record m { timestamp = t }))
  unfolding to_json from_json
  from_json-to_json m ms t fresh_id now out back reads = (
    c.dumps (envelope c m ms),
    rw (out, to_json) refl,
    rw (reads, from_json) (read-envelope m ms t fresh_id now back),
  )

  truthy_text : (s : String) → s ≢ "" → truthy c (text s) ≡ true
  unfolding truthy is_text
  truthy_text s n = ground (arith, n, string_discrete s "")

  compare_digest_self : (s : String) → compare_digest {J = J} {F = F} (text s) s ≡ some true
  unfolding compare_digest
  compare_digest_self s = rw (same_text_self s) refl

  -- A digest that is not empty verifies what was signed.
  pub verify_signed :
      (m : CrossBotMessage J F) (body secret : String)
      → signing_body c m ≡ some body
      → c.hmac_sha256 secret body ≢ ""
      → m.signature ≡ text (c.hmac_sha256 secret body)
      → verify c m secret ≡ some true
  unfolding verify
  verify_signed m body secret signs digest e =
      let hash = c.hmac_sha256 secret body in
      let is_there : truthy c m.signature ≡ true =
        subst (λ v. truthy c v ≡ true) (sym e) (truthy_text hash digest) in
      let same : compare_digest m.signature hash ≡ some true =
        subst (λ v. compare_digest v hash ≡ some true) (sym e) (compare_digest_self hash) in
      rw (is_there, signs) same
