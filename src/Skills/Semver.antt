-- ===== src/Skills/Semver.antt =====
-- skills_engine/state.py: `compare_semver` subtracts at the first part that differs.
use evoclaw.Base.{
  ℕ, zero, suc, ◌+◌, ◌≤◌, ◌<◌, max, ◌≡◌, refl, ◌≢◌, ◌⊎◌, inl, inr, List, [], ◌∷◌, arith, length,
  ◌==◌, true, Bool-cases, ltb, ltb→lt,
}
use evoclaw.Skills.{ℤ, pos, minus, part, compare_from, compare_semver}

-- The versions agree in all parts, with 0 for a part that is not there; or the comparison is the
-- difference of the parts at the first index at which they differ.
abbrev pub FirstDifference : List ℕ → List ℕ → ℤ → Type 0
FirstDifference a b z =
    (z ≡ pos 0) × ((i : ℕ) → part a i ≡ part b i)
    ⊎ (i : ℕ) × (part a i ≢ part b i)
      × ((j : ℕ) → j < i → part a j ≡ part b j)
      × (z ≡ minus (part a i) (part b i))

part_behind : (vs : List ℕ) (i : ℕ) → length vs ≤ i → part vs i ≡ 0
unfolding part
part_behind [] i h = refl
part_behind (v ∷ vs) zero h = absurd (omega arith)
part_behind (v ∷ vs) (suc i) h = part_behind vs i (omega arith)

-- What holds below `i` and at `i` holds below its successor.
same_suc :
    (a b : List ℕ) (i : ℕ)
    → ((j : ℕ) → j < i → part a j ≡ part b j)
    → (part a i == part b i) ≡ true
    → (j : ℕ) → j < suc i
    → part a j ≡ part b j
same_suc a b i same eq j h = elim (Bool-cases (ltb j i)) [
  | inl lt ↦ same j (ltb→lt j i lt)
  | inr ge ↦ let at_i : j ≡ i = ground (arith, ge, h) in rw at_i (ground (arith, eq))
]

compare_from-FirstDifference :
    (a b : List ℕ) (i left : ℕ)
    → ((j : ℕ) → j < i → part a j ≡ part b j)
    → length a ≤ i + left
    → length b ≤ i + left
    → FirstDifference a b (compare_from a b i left)
unfolding compare_from
compare_from-FirstDifference a b i zero same ha hb = inl (
  refl,
  λ j. elim (Bool-cases (ltb j i)) [
    | inl lt ↦ same j (ltb→lt j i lt)
    | inr ge ↦
        let ha' : length a ≤ j = ground (arith, ge, ha) in
        let hb' : length b ≤ j = ground (arith, ge, hb) in
        ground (arith, part_behind a j ha', part_behind b j hb')
  ],
)
compare_from-FirstDifference a b i (suc left) same ha hb =
    elim (Bool-cases (part a i == part b i)) [
      | inl eq ↦ rw eq (
          compare_from-FirstDifference a b (suc i) left (same_suc a b i same eq) (omega arith)
            (omega arith))
      | inr ne ↦ rw ne (inr (i, (λ e. ground (arith, e, ne)), same, refl))
    ]

-- For any two versions: all their parts agree, with 0 for a part that is not there, and the
-- comparison is 0; or it is the difference of the parts at the first index at which they differ.
pub compare_semver-FirstDifference : (a b : List ℕ) → FirstDifference a b (compare_semver a b)
unfolding compare_semver
compare_semver-FirstDifference a b =
    compare_from-FirstDifference a b 0 (max (length a) (length b)) (λ j h. absurd (omega arith))
      (omega arith) (omega arith)
