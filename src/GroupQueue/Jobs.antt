-- ===== src/GroupQueue/Jobs.antt =====
-- How many of the created or running containers are a group's.
use evoclaw.Base.{
  ℕ, zero, suc, ◌+◌, String, ◌≡◌, refl, List, [], ◌∷◌, ◌++◌, Option, none, some, arith, ite,
  string_discrete, take_at,
}
use evoclaw.GroupQueue.{Job, messages, task, GroupQueue}

unfoldable pub job_jid : Job → String
job_jid (messages j queued) = j
job_jid (task j t) = j

unfoldable pub is_of : String → Job → ℕ
unfolding job_jid
is_of k job = ite (string_discrete (job_jid job) k) 1 0

abbrev pub jobs_of : String → List Job → ℕ
jobs_of k [] = 0
jobs_of k (job ∷ jobs) = is_of k job + jobs_of k jobs

-- The containers of a group: those that have begun, and those about to begin.
abbrev pub containers : GroupQueue → String → ℕ
containers q k = jobs_of k q.created + jobs_of k q.running

pub jobs_of-append :
    (k : String) (xs ys : List Job) → jobs_of k (xs ++ ys) ≡ jobs_of k xs + jobs_of k ys
jobs_of-append k [] ys = omega arith
jobs_of-append k (x ∷ xs) ys = omega (arith, jobs_of-append k xs ys)

abbrev pub Splits : String → ℕ → Option (Job × List Job) → Type 0
Splits k n none = Unit
Splits k n (some (job, rest)) = n ≡ is_of k job + jobs_of k rest

pub jobs_of-take_at : (k : String) (xs : List Job) (i : ℕ) → Splits k (jobs_of k xs) (take_at xs i)
unfolding take_at
jobs_of-take_at k [] i = tt
jobs_of-take_at k (x ∷ xs) zero = refl
jobs_of-take_at k (x ∷ xs) (suc i) = ground (arith, jobs_of-take_at k xs i)

pub is_of_lem :
    (k j : String) (job : Job) → job_jid job ≡ j → is_of k job ≡ ite (string_discrete j k) 1 0
unfolding is_of
is_of_lem k j job e = ground (arith, string_discrete (job_jid job) k, string_discrete j k)

pub job_jid-messages : (j : String) (queued : ℕ) → job_jid (messages j queued) ≡ j
unfolding job_jid
job_jid-messages j queued = refl
