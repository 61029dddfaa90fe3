-- ===== src/Workflow/Sets.antt =====
-- The set operations of the scheduler on lists of distinct names.
use evoclaw.Base.{
  ◌≤◌, ◌<◌, String, Bool, true, false, ◌≡◌, refl, ◌∙◌, List, [], ◌∷◌, ite, arith, string_discrete,
  length, member, discard, Distinct, member-discard,
}
use evoclaw.Workflow.{WorkflowStep, minus, is_ready, select_ready}
use evoclaw.Base.Dict.{Dict}

-- The steps to do, without one of them, and without several.
abbrev pub without : String → (String → Bool) → String → Bool
without n todo k = ite (string_discrete n k) false (todo k)

abbrev pub without_all : List String → (String → Bool) → String → Bool
without_all [] todo = todo
without_all (n ∷ ns) todo = without_all ns (without n todo)

-- A list of names as a set.
abbrev pub among : List String → String → Bool
among xs k = member k xs

pub without_all-absent :
    (ns : List String) (todo : String → Bool) (k : String)
    → member k ns ≡ false
    → without_all ns todo k ≡ todo k
unfolding member
without_all-absent [] todo k h = refl
without_all-absent (n ∷ ns) todo k h =
    ground (arith, without_all-absent ns (without n todo) k, h, string_discrete n k)

pub without_all-none :
    (ns : List String) (todo : String → Bool) (k : String)
    → todo k ≡ false
    → without_all ns todo k ≡ false
without_all-none [] todo k h = h
without_all-none (n ∷ ns) todo k h =
    without_all-none ns (without n todo) k (ground (arith, h, string_discrete n k))

pub without_all-present :
    (ns : List String) (todo : String → Bool) (k : String)
    → member k ns ≡ true
    → without_all ns todo k ≡ false
unfolding member
without_all-present [] todo k h = cc
without_all-present (n ∷ ns) todo k h = elim (string_discrete n k) [
  | yes e ↦ without_all-none ns (without n todo) k (ground (arith, e, string_discrete n k))
  | no e ↦ without_all-present ns (without n todo) k (ground (arith, h, e, string_discrete n k))
]

without_all-ext :
    (ns : List String) (t u : String → Bool)
    → ((k : String) → t k ≡ u k)
    → (k : String) → without_all ns t k ≡ without_all ns u k
without_all-ext [] t u h = h
without_all-ext (n ∷ ns) t u h =
    without_all-ext ns (without n t) (without n u) λ k. ground (arith, h k, string_discrete n k)

pub member-minus :
    (ys xs : List String) (k : String) → member k (minus xs ys) ≡ without_all ys (among xs) k
unfolding minus
member-minus [] xs k = refl
member-minus (y ∷ ys) xs k =
    member-minus ys (discard y xs) k
    ∙ without_all-ext ys (among (discard y xs)) (without y (among xs)) (λ j. member-discard y j xs)
        k

length-discard-le : (y : String) (xs : List String) → length (discard y xs) ≤ length xs
unfolding discard
length-discard-le y [] = omega arith
length-discard-le y (x ∷ xs) = ground (arith, length-discard-le y xs)

length-discard-lt :
    (y : String) (xs : List String) → member y xs ≡ true → length (discard y xs) < length xs
unfolding discard member
length-discard-lt y [] h = cc
length-discard-lt y (x ∷ xs) h = ground (arith, h, length-discard-le y xs, length-discard-lt y xs)

pub length-minus-le : (ys xs : List String) → length (minus xs ys) ≤ length xs
unfolding minus
length-minus-le [] xs = omega arith
length-minus-le (y ∷ ys) xs =
    omega (arith, length-minus-le ys (discard y xs), length-discard-le y xs)

-- Taking away a set with an element of the list makes it shorter.
pub length-minus-lt :
    (y : String) (ys xs : List String) → member y xs ≡ true → length (minus xs (y ∷ ys)) < length xs
unfolding minus
length-minus-lt y ys xs h =
    omega (arith, length-minus-le ys (discard y xs), length-discard-lt y xs h)

Distinct-discard : (y : String) (xs : List String) → Distinct xs → Distinct (discard y xs)
unfolding discard
Distinct-discard y [] d = tt
Distinct-discard y (x ∷ xs) d = ground (arith, d, Distinct-discard y xs, member-discard y x xs)

pub Distinct-minus : (ys xs : List String) → Distinct xs → Distinct (minus xs ys)
unfolding minus
Distinct-minus [] xs d = d
Distinct-minus (y ∷ ys) xs d = Distinct-minus ys (discard y xs) (Distinct-discard y xs d)

module _ {V : Type 0} (steps : Dict (WorkflowStep V)) where
  pub select_ready-among :
      (ns : List String) (k : String)
      → member k (select_ready steps ns) ≡ true
      → (member k ns ≡ true) × (is_ready steps k ≡ true)
  unfolding select_ready member
  select_ready-among [] k h = cc
  select_ready-among (n ∷ ns) k h = ground (arith, h, select_ready-among ns k, string_discrete n k)

  pub Distinct-select_ready : (ns : List String) → Distinct ns → Distinct (select_ready steps ns)
  unfolding select_ready
  Distinct-select_ready [] d = tt
  Distinct-select_ready (n ∷ ns) d =
      ground (arith, d, Distinct-select_ready ns, select_ready-among ns n)
