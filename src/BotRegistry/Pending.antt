-- ===== src/BotRegistry/Pending.antt =====
-- host/identity/bot_registry.py: the times of the recent handshakes, over all methods.
use evoclaw.Base.{
  ℕ, ◌≤◌, ◌<◌, String, ◌≡◌, refl, ap, some, List, [], ◌∷◌, ◌++◌, arith, length, length-append,
  string_discrete, Option-cases, inl, inr, All, Bool-cases, leb,
}
use evoclaw.Base.Dict.{Dict, get, set}
use evoclaw.BotRegistry.{
  BotIdentity, BotRegistry, init, register, trust, prune, timestamps, initiate_handshake,
  complete_handshake, update_last_seen, purge_stale_bots, purge_stale_handshakes, evict_empty,
  settle_row,
}

-- A call of a method that writes, with its arguments.
pub data Call : Type 0 where
  registers : BotIdentity → Call
  trusts : String → Call
  initiates : String → String → ℕ → String → Call
  completes : String → String → String → ℕ → Call
  sees : String → ℕ → Call
  purges_bots : ℕ → ℕ → Call
  purges_handshakes : ℕ → ℕ → Call

unfoldable pub step : BotRegistry → Call → BotRegistry
step r (registers b) = register r b
step r (trusts k) = (trust r k).0
step r (initiates i k now nonce) = (initiate_handshake r i k now nonce).0
step r (completes i k nonce now) = (complete_handshake r i k nonce now).0
step r (sees k now) = update_last_seen r k now
step r (purges_bots age now) = purge_stale_bots r age now
step r (purges_handshakes age now) = purge_stale_handshakes r age now

unfoldable pub run : BotRegistry → List Call → BotRegistry
run r [] = r
run r (c ∷ cs) = run (step r c) cs

-- At least one time is kept for a target, and at most five.
abbrev pub OneToFive : String × List ℕ → Type 0
OneToFive (_, ts) = (0 < length ts) × (length ts ≤ 5)

set-OneToFive :
    (k : String) (ts : List ℕ) (d : Dict (List ℕ))
    → 0 < length ts
    → length ts ≤ 5
    → All OneToFive d
    → All OneToFive (set k ts d)
unfolding set
set-OneToFive k ts [] some_time few v = ((some_time, few), tt)
set-OneToFive k ts ((j, us) ∷ d) some_time few v =
    ground (arith, some_time, few, v, set-OneToFive k ts d some_time few v.1, string_discrete j k)

evict_empty-OneToFive : (d : Dict (List ℕ)) → All OneToFive d → evict_empty d ≡ d
unfolding evict_empty
evict_empty-OneToFive [] v = refl
evict_empty-OneToFive ((k, []) ∷ d) v = absurd (omega (arith, v.0.0))
evict_empty-OneToFive ((k, t ∷ ts) ∷ d) v =
    ap (λ rest. (k, t ∷ ts) ∷ rest) (evict_empty-OneToFive d v.1)

length-prune : (now : ℕ) (ts : List ℕ) → length (prune now ts) ≤ length ts
unfolding prune
length-prune now [] = omega arith
length-prune now (t ∷ ts) = ground (arith, length-prune now ts)

length-get :
    (k : String) (d : Dict (List ℕ)) (ts : List ℕ)
    → All OneToFive d
    → get k d ≡ some ts
    → length ts ≤ 5
unfolding get
length-get k [] ts v h = ground (arith, h)
length-get k ((j, us) ∷ d) ts v h = ground (arith, h, v, length-get k d ts v.1, string_discrete j k)

length-timestamps :
    (r : BotRegistry) (k : String)
    → All OneToFive r.pending_handshakes
    → length (timestamps r k) ≤ 5
unfolding timestamps
length-timestamps r k v = elim (Option-cases (get k r.pending_handshakes)) [
  | inl e ↦ ground (arith, e)
  | inr (ts, e) ↦ ground (arith, e, length-get k r.pending_handshakes ts v e)
]

initiate-OneToFive :
    (r : BotRegistry) (i k : String) (now : ℕ) (nonce : String)
    → All OneToFive r.pending_handshakes
    → All OneToFive (initiate_handshake r i k now nonce).0.pending_handshakes
unfolding initiate_handshake
initiate-OneToFive r i k now nonce v =
    let recent = prune now (timestamps r k) in
    let few : length recent ≤ 5 =
      omega (arith, length-prune now (timestamps r k), length-timestamps r k v) in
    elim (Bool-cases (leb 5 (length recent))) [
      | inl full ↦
          rw full (set-OneToFive k recent r.pending_handshakes (ground (arith, full)) few v)
      | inr room ↦ rw room (
          set-OneToFive k (recent ++ now ∷ []) r.pending_handshakes
            (omega (arith, length-append recent (now ∷ [])))
            (ground (arith, room, length-append recent (now ∷ []))) v)
    ]

complete-pending :
    (r : BotRegistry) (i k nonce : String) (now : ℕ)
    → (complete_handshake r i k nonce now).0.pending_handshakes ≡ r.pending_handshakes
unfolding complete_handshake
complete-pending r i k nonce now =
    ground (arith, Option-cases (settle_row i k nonce now r.handshakes).1)

seen-pending :
    (r : BotRegistry) (k : String) (now : ℕ)
    → (update_last_seen r k now).pending_handshakes ≡ r.pending_handshakes
unfolding update_last_seen
seen-pending r k now = ground (arith, Option-cases (get k r.bots))

step-OneToFive :
    (r : BotRegistry) (c : Call)
    → All OneToFive r.pending_handshakes
    → All OneToFive (step r c).pending_handshakes
unfolding step register trust purge_stale_bots purge_stale_handshakes
step-OneToFive r (registers b) v = v
step-OneToFive r (trusts k) v = v
step-OneToFive r (initiates i k now nonce) v = initiate-OneToFive r i k now nonce v
step-OneToFive r (completes i k nonce now) v = rw (complete-pending r i k nonce now) v
step-OneToFive r (sees k now) v = rw (seen-pending r k now) v
step-OneToFive r (purges_bots age now) v = v
step-OneToFive r (purges_handshakes age now) v = rw (evict_empty-OneToFive r.pending_handshakes v) v

run-OneToFive :
    (r : BotRegistry) (cs : List Call)
    → All OneToFive r.pending_handshakes
    → All OneToFive (run r cs).pending_handshakes
unfolding run
run-OneToFive r [] v = v
run-OneToFive r (c ∷ cs) v = run-OneToFive (step r c) cs (step-OneToFive r c v)

-- After any calls from an empty registry: of each target of a handshake at least one time is kept
-- and at most five, and so the purge of stale handshakes takes no target off the pending ones.
pub run-init-Pending :
    (cs : List Call) (age now : ℕ)
    → let r = run init cs in
      All OneToFive r.pending_handshakes
      × ((purge_stale_handshakes r age now).pending_handshakes ≡ r.pending_handshakes)
unfolding purge_stale_handshakes
run-init-Pending cs age now =
    let v = run-OneToFive init cs tt in
    (v, evict_empty-OneToFive (run init cs).pending_handshakes v)
