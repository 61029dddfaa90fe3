-- ===== src/Leader/Single.antt =====
-- host/leader_election.py: one leader, as long as the lease is renewed in time.
use evoclaw.Base.{
  ℕ, String, true, ◌≡◌, some, List, [], ◌∷◌, arith, string_discrete, Option-cases, Bool-cases, inl,
  inr,
}
use evoclaw.Leader.{acquire_row, heartbeat_row, delete_row, try_acquire, heartbeat, release_lease}
use evoclaw.Leader.Cluster.{
  Cluster, Event, acquires, beats, releases, start, write, step, run, in_time, all_in_time, holder,
}

-- An instance that takes itself for the leader is the one that the row names.
abbrev pub HoldsLease : Cluster → Type 0
HoldsLease c = (k : String) → (c.instances k).is_leader ≡ true → holder c.row ≡ some k

step-HoldsLease :
    (timeout : ℕ) (c : Cluster) (ev : Event)
    → HoldsLease c
    → in_time timeout c ev ≡ true
    → HoldsLease (step timeout c ev)
unfolding step in_time write holder try_acquire acquire_row heartbeat heartbeat_row release_lease
    delete_row
step-HoldsLease timeout c (acquires me now reached) v live k lead =
    ground (arith, v k, v me, live, lead, string_discrete me k, Option-cases c.row)
step-HoldsLease timeout c (beats me now reached) v live k lead =
    ground (arith, v k, v me, lead, string_discrete me k, Option-cases c.row)
step-HoldsLease timeout c (releases me reached) v live k lead =
    ground (arith, v k, v me, lead, string_discrete me k, Option-cases c.row)

run-HoldsLease :
    (timeout : ℕ) (c : Cluster) (evs : List Event)
    → HoldsLease c
    → all_in_time timeout c evs ≡ true
    → HoldsLease (run timeout c evs)
unfolding run all_in_time
run-HoldsLease timeout c [] v live = v
run-HoldsLease timeout c (ev ∷ evs) v live = elim (Bool-cases (in_time timeout c ev)) [
  | inl t ↦
      run-HoldsLease timeout (step timeout c ev) evs (step-HoldsLease timeout c ev v t)
        (ground (arith, live, t))
  | inr f ↦ absurd (ground (arith, live, f))
]

-- From an empty table, after any turns of any instances in which no attempt to acquire finds an
-- expired lease, whichever statements fail: at most one instance takes itself for the leader, and
-- the row names it.
pub run-start-Single :
    (timeout : ℕ) (evs : List Event)
    → all_in_time timeout start evs ≡ true
    → let c = run timeout start evs in
      ((k : String) → (c.instances k).is_leader ≡ true → holder c.row ≡ some k)
      × ((j k : String)
          → (c.instances j).is_leader ≡ true
          → (c.instances k).is_leader ≡ true
          → j ≡ k)
run-start-Single timeout evs live =
    let v = run-HoldsLease timeout start evs (λ k lead. absurd (cc lead)) live in
    (v, λ j k lead_j lead_k. ground (arith, v j lead_j, v k lead_k))
