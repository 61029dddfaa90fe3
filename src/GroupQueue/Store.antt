-- ===== src/GroupQueue/Store.antt =====
-- What a group's state is after a write, and what a change of one group leaves alone.
use evoclaw.Base.{arith, String, ◌≡◌, refl, ite, string_discrete, Option, some, if_pos}
use evoclaw.Base.Dict.{get, get-set}
use evoclaw.GroupQueue.{
  init, fresh_group, GroupQueue, GroupState, Job, or_fresh, get_group, put_group, launch,
  wait_for_slot,
}

or_fresh-ite :
    {P : Type 0} (d : Dec P) (s : GroupState) (o : Option GroupState)
    → or_fresh (ite d (some s) o) ≡ ite d s (or_fresh o)
unfolding or_fresh
or_fresh-ite (yes p) s o = refl
or_fresh-ite (no n) s o = refl

pub get_group-put_group :
    (q : GroupQueue) (j k : String) (s : GroupState)
    → get_group (put_group q j s) k ≡ ite (string_discrete j k) s (get_group q k)
unfolding get_group put_group
get_group-put_group q j k s = rw get-set (or_fresh-ite (string_discrete j k) s (get k q.groups))

pub get_group-launch :
    (q : GroupQueue) (j k : String) (s : GroupState) (job : Job)
    → get_group (launch q j s job) k ≡ ite (string_discrete j k) s (get_group q k)
unfolding get_group launch
get_group-launch q j k s job = rw get-set (or_fresh-ite (string_discrete j k) s (get k q.groups))

-- Two queues with the same dict have the same groups.
pub get_group_congr :
    (q r : GroupQueue) (k : String) → q.groups ≡ r.groups → get_group q k ≡ get_group r k
unfolding get_group
get_group_congr q r k e = rw e

pub get_group-wait_for_slot :
    (q : GroupQueue) (j k : String) → get_group (wait_for_slot q j) k ≡ get_group q k
unfolding get_group wait_for_slot
get_group-wait_for_slot q j k = ground arith

-- A property of every group holds after a write of one group that has it.
pub ite_elim {ℓ κ} :
    {A : Type ℓ} (P : A → Type κ) {B : Type 0} (d : Dec B) (x y : A) → P x → P y → P (ite d x y)
ite_elim P (yes p) x y hx hy = hx
ite_elim P (no n) x y hx hy = hy

module _ (P : GroupState → Type 0) (q : GroupQueue) (j : String) (s : GroupState) where
  pub put_group-each :
      ((k : String) → P (get_group q k)) → P s → (k : String) → P (get_group (put_group q j s) k)
  put_group-each all h k =
      rw get_group-put_group (ite_elim P (string_discrete j k) s (get_group q k) h (all k))

  pub launch-each :
      (job : Job)
      → ((k : String) → P (get_group q k))
      → P s
      → (k : String) → P (get_group (launch q j s job) k)
  launch-each job all h k =
      rw get_group-launch (ite_elim P (string_discrete j k) s (get_group q k) h (all k))

pub get_group-init : (k : String) → get_group init k ≡ fresh_group
unfolding get_group get
get_group-init k = refl

pub get_group-put_self :
    (q : GroupQueue) (j : String) (s : GroupState) → get_group (put_group q j s) j ≡ s
get_group-put_self q j s = rw get_group-put_group (if_pos (string_discrete j j) refl s _)

pub get_group-launch_self :
    (q : GroupQueue) (j : String) (s : GroupState) (job : Job) → get_group (launch q j s job) j ≡ s
get_group-launch_self q j s job = rw get_group-launch (if_pos (string_discrete j j) refl s _)
