-- ===== src/Router/Split.antt =====
-- host/router.py: `_split_message` ends, and its chunks are short and hold the text.
use evoclaw.Base.{
  ℕ, zero, suc, ◌+◌, ◌≤◌, ◌<◌, ◌≡◌, refl, ap, ◌∙◌, Option, some, List, [], ◌∷◌, ◌++◌, leb, inl, inr,
  arith, length, drop, All, Bool-cases, leb→le,
}
use evoclaw.Router.{
  Text, take, rstrip, lstrip_newlines, nonempty, split_at, split_loop, split_message,
}
use evoclaw.Router.Text.{
  ink, concat, ink-append, take-drop, ink-rstrip, ink-lstrip_newlines, length-take, length-rstrip,
  split_at-le, split-shrinks,
}

-- There are chunks, of at most `max_len` code points, that hold the text but for whitespace.
abbrev pub SplitsInto : ℕ → Text → Option (List Text) → Type 0
SplitsInto max_len text result =
    (chunks : List Text) × (result ≡ some chunks)
    × All (λ c. length c ≤ max_len) chunks
    × (ink (concat chunks) ≡ ink text)

ink_parts :
    (text : Text) (at : ℕ) (chunks : List Text)
    → ink (concat chunks) ≡ ink (lstrip_newlines (drop at text))
    → ink (concat (rstrip (take at text) ∷ chunks)) ≡ ink text
unfolding concat
ink_parts text at chunks e = cc (
  ink-append (rstrip (take at text)) (concat chunks),
  ink-rstrip (take at text),
  ink-lstrip_newlines (drop at text),
  ink-append (take at text) (drop at text),
  take-drop at text,
  e,
)

concat-one : (text : Text) → concat (text ∷ []) ≡ text
unfolding concat
concat-one [] = refl
concat-one (c ∷ text) = ap (λ rest. c ∷ rest) (concat-one text)

split_loop-SplitsInto :
    (fuel max_len : ℕ) (text : Text)
    → 0 < max_len
    → length text < fuel
    → SplitsInto max_len text (split_loop fuel max_len text)
unfolding split_loop concat ink
split_loop-SplitsInto zero max_len text pos enough = absurd (omega arith)
split_loop-SplitsInto (suc fuel) max_len [] pos enough = ([], refl, tt, refl)
split_loop-SplitsInto (suc fuel) max_len (c ∷ cs) pos enough =
    elim (Bool-cases (leb (length (c ∷ cs)) max_len)) [
      | inl short ↦
          ((c ∷ cs) ∷ [], rw short refl, (leb→le _ _ short, tt), ap ink (concat-one (c ∷ cs)))
      | inr long ↦
          let at = split_at max_len (c ∷ cs) in
          let (chunks, e, fit, same) =
            split_loop-SplitsInto fuel max_len (lstrip_newlines (drop at (c ∷ cs))) pos
              (omega (arith, split-shrinks max_len c cs pos)) in
          (
            rstrip (take at (c ∷ cs)) ∷ chunks,
            rw (long, e) refl,
            (
              omega (
                arith,
                length-rstrip (take at (c ∷ cs)),
                length-take at (c ∷ cs),
                split_at-le max_len (c ∷ cs),
              ),
              fit,
            ),
            ink_parts (c ∷ cs) at chunks same,
          )
    ]

concat-nonempty : (chunks : List Text) → concat (nonempty chunks) ≡ concat chunks
unfolding concat nonempty
concat-nonempty [] = refl
concat-nonempty ([] ∷ chunks) = concat-nonempty chunks
concat-nonempty ((c ∷ text) ∷ chunks) = ap (λ rest. (c ∷ text) ++ rest) (concat-nonempty chunks)

All-nonempty :
    (P : Text → Type 0) (chunks : List Text)
    → All P chunks
    → All (λ c. P c × (0 < length c)) (nonempty chunks)
unfolding nonempty
All-nonempty P [] h = tt
All-nonempty P ([] ∷ chunks) (_, h) = All-nonempty P chunks h
All-nonempty P ((c ∷ text) ∷ chunks) (p, h) = ((p, omega arith), All-nonempty P chunks h)

-- With a positive limit, a message that has a code point is split, without a loop that never ends,
-- into chunks of at least one code point and at most the limit; all code points but whitespace are
-- in them, in their order.
pub split_message-fits :
    (max_len : ℕ) (text : Text)
    → 0 < max_len
    → 0 < length text
    → (chunks : List Text) × (split_message max_len text ≡ some chunks)
      × All (λ c. (length c ≤ max_len) × (0 < length c)) chunks
      × (ink (concat chunks) ≡ ink text)
unfolding split_message
split_message-fits max_len text pos some_text = elim (Bool-cases (leb (length text) max_len)) [
  | inl short ↦
      (text ∷ [], rw short refl, ((leb→le _ _ short, some_text), tt), ap ink (concat-one text))
  | inr long ↦
      let (chunks, e, fit, same) =
        split_loop-SplitsInto (length text + 1) max_len text pos (omega arith) in
      (
        nonempty chunks,
        rw (long, e) refl,
        All-nonempty (λ c. length c ≤ max_len) chunks fit,
        ap ink (concat-nonempty chunks) ∙ same,
      )
]
