-- ===== src/BotRegistry/Tests.antt =====
-- Two bots that shake hands.
use evoclaw.Base.{
  ℕ, ◌≤◌, ◌≡◌, refl, String, Bool, true, false, none, some, List, [], ◌∷◌, string_discrete,
}
use evoclaw.Base.Dict.{get, set}
use evoclaw.BotRegistry.{
  BotIdentity, init, register, lookup, set_trusted, trust, prune, timestamps, initiate_handshake,
  is_pending, matches, settle_row, complete_handshake, update_last_seen, fresh_bots,
  purge_stale_bots, fresh_handshakes, evict_empty, purge_stale_handshakes,
}
use evoclaw.BotRegistry.Nonce.{open_handshakes, attempts, attempts-bounded}
use evoclaw.BotRegistry.Pending.{Call, registers, initiates, completes, step, run, run-init-Pending}

program : Unit {0}
unfolding string_discrete get set register lookup set_trusted trust prune timestamps
    initiate_handshake is_pending matches settle_row complete_handshake update_last_seen fresh_bots
    purge_stale_bots fresh_handshakes evict_empty purge_stale_handshakes step run open_handshakes
    attempts
program = tt

abbrev bot : String → BotIdentity
bot k = record {
  bot_id = k;
  name = k;
  display_name = k;
  framework = "evoclaw";
  channel = "discord";
  capabilities = [];
  ws_endpoint = none;
  http_endpoint = none;
  public_key = none;
  registered_at = 1000;
  last_seen = 1000;
  trusted = false;
}

abbrev calls : List Call
calls =
    registers (bot "a")
    ∷ registers (bot "b")
    ∷ initiates "a" "b" 1010 "n1"
    ∷ initiates "b" "a" 1020 "n2"
    ∷ completes "a" "b" "n1" 1030
    ∷ completes "b" "a" "n2" 2000
    ∷ []

-- The second use of a nonce fails.
used_once : (complete_handshake (run init calls) "a" "b" "n1" 2010).1 ≡ false
unfolding program
used_once = refl

trusted_now : Bool
trusted_now = elim (lookup (run init calls) "b") [ none ↦ false | some b ↦ b.trusted ]

b_is_trusted : trusted_now ≡ true
unfolding program trusted_now
b_is_trusted = refl

run-init-Pending_example :
    (purge_stale_handshakes (run init calls) 600 9000).pending_handshakes
    ≡ ("b", 1010 ∷ []) ∷ ("a", 1020 ∷ []) ∷ []
unfolding program
run-init-Pending_example = (run-init-Pending calls 600 9000).1

abbrev two_initiated : List Call
two_initiated =
    registers (bot "a")
    ∷ registers (bot "b")
    ∷ initiates "a" "b" 1010 "n1"
    ∷ initiates "a" "b" 1020 "n2"
    ∷ []

abbrev tries : List ℕ
tries = 1030 ∷ 1040 ∷ 1050 ∷ []

attempts-bounded_example :
    ((attempts "a" "b" "n1" (run init two_initiated) tries).1 ≤ 1)
    × ((attempts "a" "b" "n1" (run init two_initiated) tries).1 ≡ 0
        → (attempts "a" "b" "n1" (run init two_initiated) tries).0.bots
          ≡ (run init two_initiated).bots)
unfolding program
attempts-bounded_example = attempts-bounded "a" "b" "n1" (run init two_initiated) tries
