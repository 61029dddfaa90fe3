-- ===== src/BotRegistry.antt =====
-- host/identity/bot_registry.py: the table of bots, the table of handshakes, and the times of the
-- recent handshakes per target. The nonce that `secrets` draws and the clock are arguments; the lock
-- makes each method atomic. SQL failures are left out.
pub mod Pending
pub mod Nonce
mod Tests
use evoclaw.Base.{
  ℕ, ◌+◌, ◌-◌, String, Bool, true, false, not, ◌&&◌, ◌||◌, Option, none, some, List, [], ◌∷◌, ◌++◌,
  ltb, leb, if◌then◌else◌, length, ite, string_discrete,
}
use evoclaw.Base.Dict.{Dict, get, set}

pub record BotIdentity : Type 0 where
  pub bot_id : String
  pub name : String
  pub display_name : String
  pub framework : String
  pub channel : String
  pub capabilities : List String
  pub ws_endpoint : Option String
  pub http_endpoint : Option String
  pub public_key : Option String
  pub registered_at : ℕ
  pub last_seen : ℕ
  pub trusted : Bool

pub data HandshakeStatus : Type 0 where
  pending completed expired : HandshakeStatus

pub record Handshake : Type 0 where
  pub initiator_bot_id : String
  pub target_bot_id : String
  pub status : HandshakeStatus
  pub initiated_at : ℕ
  pub completed_at : Option ℕ
  pub nonce : String

-- The rows of `bots` stand under their primary key, those of `bot_handshakes` in the order of ids.
pub record BotRegistry : Type 0 where
  pub bots : Dict BotIdentity
  pub handshakes : List Handshake
  pub pending_handshakes : Dict (List ℕ)

abbrev pub init : BotRegistry
init = record { bots = []; handshakes = []; pending_handshakes = [] }

-- `_NONCE_TTL_SECS`
abbrev pub nonce_ttl_secs : ℕ
nonce_ttl_secs = 300

unfoldable pub register : BotRegistry → BotIdentity → BotRegistry
register r b = record r {
  bots =
      set b.bot_id
        (elim (get b.bot_id r.bots) [
          | none ↦ b
          | some old ↦ record old {
            display_name = b.display_name;
            ws_endpoint = b.ws_endpoint;
            http_endpoint = b.http_endpoint;
            last_seen = b.last_seen;
            capabilities = b.capabilities;
          }
        ])
        r.bots;
}

unfoldable pub lookup : BotRegistry → String → Option BotIdentity
lookup r bot_id = get bot_id r.bots

-- `UPDATE bots SET trusted=1 WHERE bot_id=?`
unfoldable pub set_trusted : String → Dict BotIdentity → Dict BotIdentity
set_trusted bot_id bots = elim (get bot_id bots) [
  | none ↦ bots
  | some b ↦ set bot_id (record b { trusted = true }) bots
]

unfoldable pub trust : BotRegistry → String → BotRegistry × Bool
trust r bot_id = (
  record r { bots = set_trusted bot_id r.bots },
  elim (get bot_id r.bots) [ none ↦ false | some _ ↦ true ],
)

-- `[t for t in timestamps if now - t < _NONCE_TTL_SECS]`
unfoldable pub prune : ℕ → List ℕ → List ℕ
prune now [] = []
prune now (t ∷ ts) =
    let rest = prune now ts in if ltb (now - t) nonce_ttl_secs then t ∷ rest else rest

-- `setdefault(target_id, [])`
unfoldable pub timestamps : BotRegistry → String → List ℕ
timestamps r target_id = elim (get target_id r.pending_handshakes) [ none ↦ [] | some ts ↦ ts ]

-- The nonce, or `none` for the error "Handshake rate limit exceeded for target".
unfoldable pub initiate_handshake :
    BotRegistry → String → String → ℕ → String → BotRegistry × Option String
initiate_handshake r initiator_id target_id now nonce =
    let recent = prune now (timestamps r target_id) in
    if leb 5 (length recent)
    then (record r { pending_handshakes = set target_id recent r.pending_handshakes }, none)
    else (
      record r {
        pending_handshakes = set target_id (recent ++ now ∷ []) r.pending_handshakes;
        handshakes =
            r.handshakes
            ++ record {
              initiator_bot_id = initiator_id;
              target_bot_id = target_id;
              status = pending;
              initiated_at = now;
              completed_at = none;
              nonce = nonce;
            }
              ∷ [];
      },
      some nonce,
    )

unfoldable pub is_pending : HandshakeStatus → Bool
is_pending pending = true
is_pending completed = false
is_pending expired = false

-- The `WHERE` of the query in `complete_handshake`.
unfoldable pub matches : String → String → String → Handshake → Bool
matches initiator_id target_id nonce h =
    ite (string_discrete h.initiator_bot_id initiator_id) true false
    && ite (string_discrete h.target_bot_id target_id) true false
    && ite (string_discrete h.nonce nonce) true false
    && is_pending h.status

-- The first row that matches is expired or completed; the answer is whether it is completed, and
-- `none` if no row matches.
unfoldable pub settle_row :
    String → String → String → ℕ → List Handshake → List Handshake × Option Bool
settle_row initiator_id target_id nonce now [] = ([], none)
settle_row initiator_id target_id nonce now (h ∷ hs) =
    let (hs', found) = settle_row initiator_id target_id nonce now hs in
    if matches initiator_id target_id nonce h
    then (if ltb h.initiated_at (now - nonce_ttl_secs)
        then (record h { status = expired } ∷ hs, some false)
        else (record h { status = completed; completed_at = some now } ∷ hs, some true))
    else (h ∷ hs', found)

unfoldable pub complete_handshake : BotRegistry → String → String → String → ℕ → BotRegistry × Bool
complete_handshake r initiator_id target_id nonce now =
    let (handshakes', found) = settle_row initiator_id target_id nonce now r.handshakes in
    let r' : BotRegistry = record r { handshakes = handshakes' } in
    elim found [
      | none ↦ (r, false)
      | some false ↦ (r', false)
      | some true ↦
          (record r' { bots = set_trusted target_id (set_trusted initiator_id r.bots) }, true)
    ]

unfoldable pub update_last_seen : BotRegistry → String → ℕ → BotRegistry
update_last_seen r bot_id now = elim (get bot_id r.bots) [
  | none ↦ r
  | some b ↦ record r { bots = set bot_id (record b { last_seen = now }) r.bots }
]

-- `DELETE FROM bots WHERE trusted=0 AND last_seen < ?`
unfoldable pub fresh_bots : ℕ → Dict BotIdentity → Dict BotIdentity
fresh_bots cutoff [] = []
fresh_bots cutoff ((k, b) ∷ bots) =
    let rest = fresh_bots cutoff bots in
    if not b.trusted && ltb b.last_seen cutoff then rest else (k, b) ∷ rest

unfoldable pub purge_stale_bots : BotRegistry → ℕ → ℕ → BotRegistry
purge_stale_bots r max_age now = record r { bots = fresh_bots (now - max_age) r.bots }

-- `DELETE FROM bot_handshakes WHERE initiated_at < ? AND status IN ('completed','expired')`
unfoldable pub fresh_handshakes : ℕ → List Handshake → List Handshake
fresh_handshakes cutoff [] = []
fresh_handshakes cutoff (h ∷ hs) =
    let rest = fresh_handshakes cutoff hs in
    if ltb h.initiated_at cutoff && not (is_pending h.status) then rest else h ∷ rest

-- The keys with an empty list are deleted.
unfoldable pub evict_empty : Dict (List ℕ) → Dict (List ℕ)
evict_empty [] = []
evict_empty ((k, []) ∷ d) = evict_empty d
evict_empty ((k, t ∷ ts) ∷ d) = (k, t ∷ ts) ∷ evict_empty d

unfoldable pub purge_stale_handshakes : BotRegistry → ℕ → ℕ → BotRegistry
purge_stale_handshakes r max_age now = record r {
  handshakes = fresh_handshakes (now - max_age) r.handshakes;
  pending_handshakes = evict_empty r.pending_handshakes;
}
