-- ===== src/GroupQueue/Streak.antt =====
-- The backoff against its description: what counts is the number of failures since the last
-- success, and each sixth one in a row gives up and tells the group's users.
use native.Mathlib.Nat.{add_assoc}
use evoclaw.Base.{
  ℕ, ◌+◌, ◌%◌, String, ◌≡◌, refl, List, [], ◌∷◌, arith, length, length-append, if◌then◌else◌, ◌==◌,
  ap, ◌∙◌,
}
use evoclaw.GroupQueue.{GroupQueue, GroupState, retry_exceeded, get_group, put_group}
use evoclaw.GroupQueue.Store.{get_group-put_self, get_group_congr}
use evoclaw.GroupQueue.Retry.{schedule_retry}
use evoclaw.GroupQueue.Cases.{retry_cases}
use evoclaw.GroupQueue.Run.{Outcome, succeeded, failed, raised, skipped, settle}

-- The outcomes of one group's runs, in order.
unfoldable pub settle_all : GroupQueue → String → List Outcome → GroupQueue
settle_all q j [] = q
settle_all q j (o ∷ os) = settle_all (settle q j o) j os

-- Failures in a row at the end, after `n` before.
abbrev pub streak : ℕ → List Outcome → ℕ
streak n [] = n
streak n (succeeded ∷ os) = streak 0 os
streak n (failed ∷ os) = streak (n + 1) os
streak n (raised ∷ os) = streak (n + 1) os
streak n (skipped ∷ os) = streak n os

-- How many failures among them are the sixth, twelfth, ... of their row.
abbrev pub sixths : ℕ → List Outcome → ℕ
sixths n [] = 0
sixths n (succeeded ∷ os) = sixths 0 os
sixths n (failed ∷ os) = (if (n + 1) % 6 == 0 then 1 else 0) + sixths (n + 1) os
sixths n (raised ∷ os) = (if (n + 1) % 6 == 0 then 1 else 0) + sixths (n + 1) os
sixths n (skipped ∷ os) = sixths n os

-- After `n` failures in a row, and `told` messages to users.
record Follows (q : GroupQueue) (j : String) (n told : ℕ) : Type 0 where
  count : (get_group q j).retry_count ≡ n % 6
  notices : length q.notices ≡ told

module _ (q : GroupQueue) (j : String) (n told : ℕ) (h : Follows q j n told) where
  schedule_retry-Follows :
      Follows (schedule_retry q j) j (n + 1) (told + (if (n + 1) % 6 == 0 then 1 else 0))
  unfolding put_group
  schedule_retry-Follows =
      retry_cases (λ r. Follows r j (n + 1) (told + (if (n + 1) % 6 == 0 then 1 else 0))) q j
        (λ over. record {
          count = written _ _ refl (ground (arith, h.count));
          notices =
              ground
                (arith, h.count, h.notices, length-append q.notices ((j, retry_exceeded) ∷ []));
        })
        λ again. record {
          count = written _ _ refl (ground (arith, h.count));
          notices = ground (arith, h.count, h.notices);
        }
    where
      written :
          (r : GroupQueue) (s : GroupState)
          → r.groups ≡ (put_group q j s).groups
          → s.retry_count ≡ (n + 1) % 6
          → (get_group r j).retry_count ≡ (n + 1) % 6
      written r s e c =
          ap (λ g. g.retry_count)
            (get_group_congr r (put_group q j s) j e ∙ get_group-put_self q j s)
          ∙ c

settle_all-Follows :
    (os : List Outcome) (q : GroupQueue) (j : String) (n told : ℕ)
    → Follows q j n told
    → Follows (settle_all q j os) j (streak n os) (told + sixths n os)
unfolding settle_all settle
settle_all-Follows [] q j n told h = record { count = h.count; notices = omega (arith, h.notices) }
settle_all-Follows (succeeded ∷ os) q j n told h =
    settle_all-Follows os _ j 0 told
      (record { count = rw get_group-put_self; notices = unfold put_group in h.notices })
settle_all-Follows (failed ∷ os) q j n told h =
    rw (← add_assoc) (settle_all-Follows os _ j (n + 1) _ (schedule_retry-Follows q j n told h))
settle_all-Follows (raised ∷ os) q j n told h =
    rw (← add_assoc) (settle_all-Follows os _ j (n + 1) _ (schedule_retry-Follows q j n told h))
settle_all-Follows (skipped ∷ os) q j n told h = settle_all-Follows os q j n told h

-- From a group with no failure on its count, after any outcomes of its runs: the retry count is the
-- number of failures since the last success, modulo 6, and the users are told once for each sixth
-- failure in a row.
pub settle_all-streak :
    (q : GroupQueue) (j : String) (os : List Outcome)
    → (get_group q j).retry_count ≡ 0
    → ((get_group (settle_all q j os) j).retry_count ≡ streak 0 os % 6)
      × (length (settle_all q j os).notices ≡ length q.notices + sixths 0 os)
settle_all-streak q j os e =
    let h = settle_all-Follows os q j 0 (length q.notices) (record { count = e; notices = refl }) in
    (h.count, h.notices)
