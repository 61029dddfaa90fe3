-- ===== src/Leader/Deposed.antt =====
-- host/leader_election.py: a leader whose lease was taken over gives up.
use evoclaw.Base.{
  ℕ, ◌+◌, ◌≤◌, ◌<◌, String, Bool, true, false, not, ◌&&◌, ◌≡◌, refl, ◌≢◌, ◌⊎◌, inl, inr, some, List,
  [], ◌∷◌, ite, arith, string_discrete, subst, Option-cases,
}
use evoclaw.Leader.{
  LeaderElection, acquire_row, heartbeat_row, delete_row, try_acquire, heartbeat, release_lease,
}
use evoclaw.Leader.Cluster.{
  Cluster, Event, acquires, beats, releases, start, write, step, run, holder,
}

-- A leader has its heartbeat task, fewer than three failures, and has not stopped itself.
pub record IsAlive (e : LeaderElection) : Type 0 where
  beating : e.is_leader ≡ true → e.heartbeating ≡ true
  patient : e.terminated ≡ false → e.consecutive_hb_failures < 3
  running : e.is_leader ≡ true → e.terminated ≡ false

step-IsAlive :
    (timeout : ℕ) (c : Cluster) (ev : Event) (k : String)
    → IsAlive (c.instances k)
    → IsAlive ((step timeout c ev).instances k)
unfolding step write try_acquire acquire_row heartbeat heartbeat_row release_lease
step-IsAlive timeout c (acquires me now reached) k v = record {
  beating = ground (arith, v, string_discrete me k);
  patient = ground (arith, v, string_discrete me k);
  running = ground (arith, v, string_discrete me k);
}
step-IsAlive timeout c (beats me now reached) k v = record {
  beating = ground (arith, v, v.beating, v.patient, v.running, string_discrete me k);
  patient = ground (arith, v, v.beating, v.patient, v.running, string_discrete me k);
  running = ground (arith, v, v.beating, v.patient, v.running, string_discrete me k);
}
step-IsAlive timeout c (releases me reached) k v = record {
  beating = ground (arith, v, v.beating, v.patient, v.running, string_discrete me k);
  patient = ground (arith, v, v.beating, v.patient, v.running, string_discrete me k);
  running = ground (arith, v, v.beating, v.patient, v.running, string_discrete me k);
}

-- The turns of an instance among the events are all heartbeats.
unfoldable pub only_beats : String → List Event → Bool
only_beats i [] = true
only_beats i (acquires me _ _ ∷ evs) =
    not (ite (string_discrete me i) true false) && only_beats i evs
only_beats i (beats _ _ _ ∷ evs) = only_beats i evs
only_beats i (releases me _ ∷ evs) = not (ite (string_discrete me i) true false) && only_beats i evs

unfoldable pub beats_of : String → List Event → ℕ
beats_of i [] = 0
beats_of i (acquires _ _ _ ∷ evs) = beats_of i evs
beats_of i (beats me _ _ ∷ evs) = ite (string_discrete me i) 1 0 + beats_of i evs
beats_of i (releases _ _ ∷ evs) = beats_of i evs

run-IsAlive :
    (timeout : ℕ) (c : Cluster) (evs : List Event) (k : String)
    → IsAlive (c.instances k)
    → IsAlive ((run timeout c evs).instances k)
unfolding run
run-IsAlive timeout c [] k v = v
run-IsAlive timeout c (ev ∷ evs) k v =
    run-IsAlive timeout (step timeout c ev) evs k (step-IsAlive timeout c ev k v)

-- The instance has given up, or it will within `n` more of its heartbeats.
abbrev GivesUp : String → Cluster → ℕ → Type 0
GivesUp i c n =
    let e = c.instances i in
    (e.is_leader ≡ false) × (e.heartbeating ≡ false)
    ⊎ (e.is_leader ≡ true)
      × (e.heartbeating ≡ true)
      × (e.consecutive_hb_failures < 3)
      × (3 ≤ e.consecutive_hb_failures + n)
      × (holder c.row ≢ some i)

step-GivesUp :
    (timeout : ℕ) (c : Cluster) (ev : Event) (i : String) (n : ℕ)
    → only_beats i (ev ∷ []) ≡ true
    → GivesUp i c (beats_of i (ev ∷ []) + n)
    → GivesUp i (step timeout c ev) n
unfolding step write holder try_acquire acquire_row heartbeat heartbeat_row release_lease delete_row
    only_beats beats_of
step-GivesUp timeout c (acquires me now reached) i n own v =
    ground (arith, own, v, string_discrete me i, Option-cases c.row)
step-GivesUp timeout c (beats me now reached) i n own v =
    ground (arith, own, v, string_discrete me i, Option-cases c.row)
step-GivesUp timeout c (releases me reached) i n own v =
    ground (arith, own, v, string_discrete me i, Option-cases c.row)

beats_of-cons :
    (i : String) (ev : Event) (evs : List Event)
    → beats_of i (ev ∷ evs) ≡ beats_of i (ev ∷ []) + beats_of i evs
unfolding beats_of
beats_of-cons i (acquires _ _ _) evs = ground arith
beats_of-cons i (beats _ _ _) evs = ground arith
beats_of-cons i (releases _ _) evs = ground arith

only_beats-cons :
    (i : String) (ev : Event) (evs : List Event)
    → only_beats i (ev ∷ evs) ≡ true
    → (only_beats i (ev ∷ []) ≡ true) × (only_beats i evs ≡ true)
unfolding only_beats
only_beats-cons i (acquires me _ _) evs h = (ground (arith, h), ground (arith, h))
only_beats-cons i (beats _ _ _) evs h = (refl, h)
only_beats-cons i (releases me _) evs h = (ground (arith, h), ground (arith, h))

run-GivesUp :
    (timeout : ℕ) (c : Cluster) (evs : List Event) (i : String)
    → only_beats i evs ≡ true
    → GivesUp i c (beats_of i evs)
    → GivesUp i (run timeout c evs) 0
unfolding run beats_of
run-GivesUp timeout c [] i own v = v
run-GivesUp timeout c (ev ∷ evs) i own v =
    let (one, rest) = only_beats-cons i ev evs own in
    run-GivesUp timeout (step timeout c ev) evs i rest (
      step-GivesUp timeout c ev i (beats_of i evs) one
        (subst (λ n. GivesUp i c n) (beats_of-cons i ev evs) v))

-- After any turns from an empty table, an instance takes itself for the leader while the row does
-- not name it. After any further turns in which it only sends heartbeats, three at least, it does
-- not take itself for the leader, whichever statements fail.
pub run-deposed :
    (timeout : ℕ) (evs later : List Event) (i : String)
    → let c = run timeout start evs in
      (c.instances i).is_leader ≡ true
      → holder c.row ≢ some i
      → only_beats i later ≡ true
      → 3 ≤ beats_of i later
      → ((run timeout c later).instances i).is_leader ≡ false
run-deposed timeout evs later i lead lost own three =
    let c = run timeout start evs in
    let alive = run-IsAlive timeout start evs i (record {
      beating = λ h. absurd (cc h);
      patient = λ _. omega arith;
      running = λ h. absurd (cc h);
    }) in
    elim (run-GivesUp timeout c later i own
      (inr (lead, alive.beating lead, alive.patient (alive.running lead), omega arith, lost))) [
        | inl (off, _) ↦ off
        | inr (_, _, few, many, _) ↦ absurd (omega arith)
      ]
