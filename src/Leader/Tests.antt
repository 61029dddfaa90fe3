-- ===== src/Leader/Tests.antt =====
-- Runs of two instances on one table.
use evoclaw.Base.{
  ◌≡◌, ◌≢◌, refl, ap, String, Bool, true, false, ite, Option, none, some, List, [], ◌∷◌, arith,
  string_discrete,
}
use evoclaw.Leader.{
  expired, acquire_row, heartbeat_row, delete_row, try_acquire, heartbeat, release_lease,
}
use evoclaw.Leader.Cluster.{
  Event, acquires, beats, releases, start, write, step, run, in_time, all_in_time, holder,
}
use evoclaw.Leader.Single.{run-start-Single}
use evoclaw.Leader.Deposed.{only_beats, beats_of, run-deposed}

program : Unit {0}
unfolding string_discrete expired acquire_row heartbeat_row delete_row try_acquire heartbeat
    release_lease write step run in_time all_in_time holder only_beats beats_of
program = tt

-- `a` leads and gives the lease back; `b`, which tried in vain before, takes it.
abbrev handed_over : List Event
handed_over =
    acquires "a" 100 true
    ∷ acquires "b" 105 true
    ∷ beats "a" 110 true
    ∷ releases "a" true
    ∷ acquires "b" 117 true
    ∷ []

b_leads : holder (run 30 start handed_over).row ≡ some "b"
unfolding program
b_leads = refl

run-start-Single_example : holder (run 30 start handed_over).row ≡ some "b"
unfolding program
run-start-Single_example = (run-start-Single 30 handed_over refl).0 "b" refl

-- `a` misses its heartbeats, and `b` takes the lease over.
abbrev taken_over : List Event
taken_over = acquires "a" 100 true ∷ beats "a" 110 false ∷ acquires "b" 131 true ∷ []

abbrev three_beats : List Event
three_beats =
    beats "a" 132 false ∷ beats "b" 141 true ∷ beats "a" 142 true ∷ beats "a" 152 true ∷ []

names_b : Option String → Bool
names_b none = false
names_b (some k) = ite (string_discrete "b" k) true false

not_a : ◌≢◌ {A = Option String} (some "b") (some "a")
unfolding names_b string_discrete
not_a e = absurd (cc (ap names_b e))

run-deposed_example :
    ((run 30 (run 30 start taken_over) three_beats).instances "a").is_leader ≡ false
unfolding program
run-deposed_example = run-deposed 30 taken_over three_beats "a" refl not_a refl (omega arith)
