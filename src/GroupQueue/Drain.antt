-- ===== src/GroupQueue/Drain.antt =====
-- The loop of `_drain_waiting`: what each turn keeps, the loop keeps, and how it ends.
use evoclaw.Base.{
  ℕ, ◌≤◌, ◌<◌, String, ◌≡◌, refl, ◌⊎◌, inl, inr, List, [], ◌∷◌, ltb, discard, Bool-cases, ltb→lt,
  lt→ltb, ap, sym, arith, ◌∙◌,
}
use evoclaw.GroupQueue.{GroupQueue, launch, serve_waiting, drain_loop, drain_waiting}
use evoclaw.GroupQueue.Cases.{serve_cases}

-- The queue without the head of its waiting groups.
abbrev pub pop_waiting : GroupQueue → String → List String → GroupQueue
pop_waiting q j rest = record q { waiting_groups = rest; waiting_set = discard j q.waiting_set }

pub waiting_groups-serve_waiting :
    (q : GroupQueue) (j : String) (now : ℕ)
    → (serve_waiting q j now).waiting_groups ≡ q.waiting_groups
unfolding launch
waiting_groups-serve_waiting q j now =
    serve_cases (λ r. r.waiting_groups ≡ q.waiting_groups) q j now (λ t rest e. refl) (λ e. refl)
      λ e. refl

module _ (max now : ℕ) (P : GroupQueue → Type 0)
    (turn : (q : GroupQueue) (j : String) (rest : List String)
      → q.waiting_groups ≡ j ∷ rest
      → q.active_count < max
      → P q
      → P (serve_waiting (pop_waiting q j rest) j now)) where
  drain_loop_keeps :
      (ws : List String) (q : GroupQueue)
      → q.waiting_groups ≡ ws
      → P q
      → P (drain_loop max ws q now)
  unfolding drain_loop
  drain_loop_keeps [] q e h = h
  drain_loop_keeps (j ∷ rest) q e h = elim (Bool-cases (ltb q.active_count max)) [
    | inl room ↦ rw room (
        drain_loop_keeps rest (serve_waiting (pop_waiting q j rest) j now)
          (waiting_groups-serve_waiting (pop_waiting q j rest) j now)
          (turn q j rest e (ltb→lt _ _ room) h))
    | inr full ↦ rw full h
  ]

  pub drain_waiting_keeps : (q : GroupQueue) → P q → P (drain_waiting max q now)
  unfolding drain_waiting
  drain_waiting_keeps q h = drain_loop_keeps q.waiting_groups q refl h

drain_loop_ends :
    (max now : ℕ) (ws : List String) (q : GroupQueue)
    → q.waiting_groups ≡ ws
    → let r = drain_loop max ws q now in (r.waiting_groups ≡ []) ⊎ (max ≤ r.active_count)
unfolding drain_loop
drain_loop_ends max now [] q e = inl e
drain_loop_ends max now (j ∷ rest) q e = elim (Bool-cases (ltb q.active_count max)) [
  | inl room ↦ rw room (
      drain_loop_ends max now rest (serve_waiting (pop_waiting q j rest) j now)
        (waiting_groups-serve_waiting (pop_waiting q j rest) j now))
  | inr full ↦ rw full (inr (ground arith))
]

-- The loop ends with no group waiting, or with every slot in use.
pub drain_waiting_ends :
    (max now : ℕ) (q : GroupQueue)
    → ((drain_waiting max q now).waiting_groups ≡ [])
      ⊎ (max ≤ (drain_waiting max q now).active_count)
unfolding drain_waiting
drain_waiting_ends max now q = drain_loop_ends max now q.waiting_groups q refl

-- One turn, if there is room: the head of the queue is served, and the loop goes on.
pub drain_waiting-cons :
    (max now : ℕ) (q : GroupQueue) (j : String) (rest : List String)
    → q.waiting_groups ≡ j ∷ rest
    → q.active_count < max
    → drain_waiting max q now ≡ drain_waiting max (serve_waiting (pop_waiting q j rest) j now) now
unfolding drain_waiting drain_loop
drain_waiting-cons max now q j rest e room =
    let after = serve_waiting (pop_waiting q j rest) j now in
    ap (λ ws. drain_loop max ws q now) e
    ∙ (rw (lt→ltb _ _ room) (
        ap (λ ws. drain_loop max ws after now)
          (sym (waiting_groups-serve_waiting (pop_waiting q j rest) j now))))
