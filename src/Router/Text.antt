-- ===== src/Router/Text.antt =====
-- host/router.py: what the text operations of `_split_message` keep.
use evoclaw.Base.{
  ℕ, zero, suc, ◌≤◌, ◌<◌, true, ◌≡◌, refl, ap, some, List, [], ◌∷◌, ◌++◌, if◌then◌else◌, arith,
  length, drop, length-drop, inl, inr, Option-cases,
}
use evoclaw.Router.{
  Text, is_space, is_newline, take, rfind_newline, rstrip, lstrip_newlines, split_at,
}

-- The code points of a text that are not whitespace.
unfoldable pub ink : Text → Text
ink [] = []
ink (c ∷ text) = let rest = ink text in if is_space c then rest else c ∷ rest

unfoldable pub concat : List Text → Text
concat [] = []
concat (text ∷ texts) = text ++ concat texts

pub ink-append : (xs ys : Text) → ink (xs ++ ys) ≡ ink xs ++ ink ys
unfolding ink
ink-append [] ys = refl
ink-append (x ∷ xs) ys = ground (arith, ink-append xs ys)

pub take-drop : (n : ℕ) (text : Text) → take n text ++ drop n text ≡ text
unfolding take
take-drop zero text = refl
take-drop (suc n) [] = refl
take-drop (suc n) (c ∷ text) = ap (λ rest. c ∷ rest) (take-drop n text)

pub ink-rstrip : (text : Text) → ink (rstrip text) ≡ ink text
unfolding ink rstrip
ink-rstrip [] = refl
ink-rstrip (c ∷ text) = ground (arith, ink-rstrip text)

newline-is_space : (c : ℕ) → is_newline c ≡ true → is_space c ≡ true
unfolding is_space
newline-is_space c h = ground arith

pub ink-lstrip_newlines : (text : Text) → ink (lstrip_newlines text) ≡ ink text
unfolding ink lstrip_newlines
ink-lstrip_newlines [] = refl
ink-lstrip_newlines (c ∷ text) = ground (arith, ink-lstrip_newlines text, newline-is_space c)

pub length-take : (n : ℕ) (text : Text) → length (take n text) ≤ n
unfolding take
length-take zero text = omega arith
length-take (suc n) [] = omega arith
length-take (suc n) (c ∷ text) = ground (arith, length-take n text)

pub length-rstrip : (text : Text) → length (rstrip text) ≤ length text
unfolding rstrip
length-rstrip [] = omega arith
length-rstrip (c ∷ text) = ground (arith, length-rstrip text)

length-lstrip_newlines : (text : Text) → length (lstrip_newlines text) ≤ length text
unfolding lstrip_newlines
length-lstrip_newlines [] = omega arith
length-lstrip_newlines (c ∷ text) = ground (arith, length-lstrip_newlines text)

rfind_newline-lt : (n : ℕ) (text : Text) (i : ℕ) → rfind_newline n text ≡ some i → i < n
unfolding rfind_newline
rfind_newline-lt zero text i h = ground arith
rfind_newline-lt (suc n) [] i h = ground arith
rfind_newline-lt (suc n) (c ∷ text) i h = elim (Option-cases (rfind_newline n text)) [
  | inl e ↦ ground (arith, h, e)
  | inr (j, e) ↦ ground (arith, h, e, rfind_newline-lt n text j e)
]

pub split_at-le : (n : ℕ) (text : Text) → split_at n text ≤ n
unfolding split_at
split_at-le n text = elim (Option-cases (rfind_newline n text)) [
  | inl e ↦ ground (arith, e)
  | inr (j, e) ↦ ground (arith, e, rfind_newline-lt n text j e)
]

rfind_newline-head : (n c : ℕ) (cs : Text) → rfind_newline n (c ∷ cs) ≡ some 0 → is_newline c ≡ true
unfolding rfind_newline
rfind_newline-head zero c cs h = ground (arith, h)
rfind_newline-head (suc n) c cs h = elim (Option-cases (rfind_newline n cs)) [
  | inl e ↦ ground (arith, h, e)
  | inr (j, e) ↦ ground (arith, h, e)
]

shrinks_at :
    (at c : ℕ) (cs : Text)
    → (at ≡ 0 → is_newline c ≡ true)
    → length (lstrip_newlines (drop at (c ∷ cs))) < length (c ∷ cs)
unfolding lstrip_newlines
shrinks_at zero c cs h = ground (arith, h refl, length-lstrip_newlines cs)
shrinks_at (suc i) c cs h = omega (arith, length-lstrip_newlines (drop i cs), length-drop i cs)

-- Each turn of the loop takes something off the text: a chunk of no length is followed by a newline.
pub split-shrinks :
    (max_len c : ℕ) (cs : Text)
    → 0 < max_len
    → length (lstrip_newlines (drop (split_at max_len (c ∷ cs)) (c ∷ cs))) < length (c ∷ cs)
unfolding split_at
split-shrinks max_len c cs pos = shrinks_at (split_at max_len (c ∷ cs)) c cs λ zero_at.
    elim (Option-cases (rfind_newline max_len (c ∷ cs))) [
      | inl e ↦ absurd (ground (arith, e, zero_at))
      | inr (j, e) ↦ rfind_newline-head max_len c cs (ground (arith, e, zero_at))
    ]
