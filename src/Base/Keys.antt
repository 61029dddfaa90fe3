-- ===== src/Base/Keys.antt =====
-- Texts as keys: the decision of their equality, and lists of texts used as Python's sets.
use Prim.Native.String.{String}
use mathlib.Core.Path.{◌≡◌, refl, ap}
use mathlib.Core.Logic.{◌↔◌, ◌≢◌, ite, if_pos}
use mathlib.Core.Bool.{Bool, true, false, ◌||◌}
use mathlib.Core.List.{List, [], ◌∷◌, ◌++◌}
use native.Mathlib.Omega.{arith}
use text.Mathlib.Text.{◌==◌ as str_eq}
use text.Mathlib.TextEquality.{eq_iff}

decide_by : {P : Type 0} (b : Bool) → (b ≡ true) ↔ P → Dec P
decide_by true e = yes (e.0 refl)
decide_by false e = no (λ p. cc (e.1 p))

unfoldable pub string_discrete : Discrete String
unfolding decide_by
string_discrete s t = decide_by (str_eq s t) (eq_iff s t)

-- `k in xs`
unfoldable pub member : String → List String → Bool
member k [] = false
member k (x ∷ xs) = ite (string_discrete x k) true (member k xs)

-- `xs.discard(k)`
unfoldable pub discard : String → List String → List String
discard k [] = []
discard k (x ∷ xs) = let rest = discard k xs in ite (string_discrete x k) rest (x ∷ rest)

-- No text stands twice.
abbrev pub Distinct : List String → Type 0
Distinct [] = Unit {0}
Distinct (x ∷ xs) = (member x xs ≡ false) × Distinct xs

pub member-append :
    (k : String) (xs ys : List String) → member k (xs ++ ys) ≡ (member k xs || member k ys)
unfolding member
member-append k [] ys = refl
member-append k (x ∷ xs) ys = ground (arith, member-append k xs ys)

pub member-discard :
    (k j : String) (xs : List String)
    → member j (discard k xs) ≡ ite (string_discrete k j) false (member j xs)
unfolding member discard
member-discard k j [] = ground arith
member-discard k j (x ∷ xs) = ground (arith, member-discard k j xs)

pub discard_absent : (k : String) (xs : List String) → member k xs ≡ false → discard k xs ≡ xs
unfolding member discard
discard_absent k [] h = refl
discard_absent k (x ∷ xs) h = ground (arith, discard_absent k xs)

-- Discarding the head of a list of distinct texts leaves its tail.
pub discard-head : (k : String) (xs : List String) → member k xs ≡ false → discard k (k ∷ xs) ≡ xs
unfolding discard
discard-head k xs h = rw (if_pos (string_discrete k k) refl) (discard_absent k xs h)

pub member_self : (k : String) (xs : List String) → member k (k ∷ xs) ≡ true
unfolding member
member_self k xs = if_pos (string_discrete k k) refl _ _

pub Distinct-snoc :
    (xs : List String) (k : String) → Distinct xs → member k xs ≡ false → Distinct (xs ++ k ∷ [])
unfolding member
Distinct-snoc [] k d h = (refl, tt)
Distinct-snoc (x ∷ xs) k d h =
    (ground (arith, member-append x xs (k ∷ [])), Distinct-snoc xs k d.1 (ground arith))

pub member-one : (k j : String) → member k (j ∷ []) ≡ ite (string_discrete j k) true false
unfolding member
member-one k j = refl

pub member_later : (x k : String) (xs : List String) → member k xs ≡ true → member k (x ∷ xs) ≡ true
unfolding member
member_later x k xs h = ground (arith, h, string_discrete x k)

pub not_member_cons :
    (x k : String) (xs : List String) → member k (x ∷ xs) ≡ false → (x ≢ k) × (member k xs ≡ false)
unfolding member
not_member_cons x k xs h = ground (arith, h, string_discrete x k)

pub not_member_of :
    (x k : String) (xs : List String) → x ≢ k → member k xs ≡ false → member k (x ∷ xs) ≡ false
unfolding member
not_member_of x k xs n h = ground (arith, n, h, string_discrete x k)

-- An element of the list is none that the list does not have.
pub apart : (xs : List String) (x k : String) → member x xs ≡ false → member k xs ≡ true → x ≢ k
apart xs x k out here e = cc (ap (λ j. member j xs) e)
