-- ===== src/Base/Pigeonhole.antt =====
-- A list of distinct texts is no longer than a list that has them all.
use evoclaw.Base.{
  suc, ◌≤◌, ◌<◌, String, true, ◌≡◌, refl, ap, List, [], ◌∷◌, string_discrete, member, discard,
  Distinct, member-discard, length, arith,
}
use evoclaw.Base.Dict.{Dict, keys}

length-discard : (k : String) (xs : List String) → length (discard k xs) ≤ length xs
unfolding discard
length-discard k [] = omega arith
length-discard k (x ∷ xs) = ground (arith, length-discard k xs, string_discrete x k)

length-discard_lt :
    (k : String) (xs : List String) → member k xs ≡ true → length (discard k xs) < length xs
unfolding discard member
length-discard_lt k [] h = absurd (ground (arith, h))
length-discard_lt k (x ∷ xs) h =
    ground (arith, h, length-discard_lt k xs, length-discard k xs, string_discrete x k)

-- Distinct texts that all stand in another list are not more than it has.
pub Distinct-within :
    (xs ys : List String)
    → Distinct xs
    → ((k : String) → member k xs ≡ true → member k ys ≡ true)
    → length xs ≤ length ys
unfolding member
Distinct-within [] ys d h = omega arith
Distinct-within (x ∷ xs) ys (out, d) h =
    let here : member x ys ≡ true = h x (ground (arith, string_discrete x x)) in
    let shorter = length-discard_lt x ys here in
    let rest = Distinct-within xs (discard x ys) d (λ k m. ground (
      arith,
      m,
      out,
      member-discard x k ys,
      h k,
      string_discrete x k,
      (λ (e : x ≡ k). ap (λ j. member j xs) e),
    )) in
    omega arith

pub length-keys : {V : Type 0} (d : Dict V) → length (keys d) ≡ length d
unfolding keys
length-keys [] = refl
length-keys (_ ∷ d) = ap suc (length-keys d)
