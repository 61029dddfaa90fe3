-- ===== src/GroupFolder/Safe.antt =====
-- host/group_folder.py: a valid name cannot leave the folder of the groups.
use evoclaw.Base.{
  ℕ, ◌≤◌, ◌<◌, String, Bool, true, ◌||◌, ◌≡◌, ◌⊎◌, inl, List, [], ◌∷◌, All, arith, ◌==◌, length,
}
use evoclaw.GroupFolder.{
  codes, is_name_char, matches_pattern, is_valid_group_folder, max_folder_name_len, validate_folder,
}

-- A letter, a digit, `_` or `-`; or a newline.
abbrev pub IsPlain : ℕ → Type 0
IsPlain c = (is_name_char c ≡ true) ⊎ (c ≡ 10)

matches_pattern-All : (cs : List ℕ) → matches_pattern is_name_char cs ≡ true → All IsPlain cs
unfolding matches_pattern
matches_pattern-All [] h = tt
matches_pattern-All (c ∷ []) h = (inl h, tt)
matches_pattern-All (c ∷ d ∷ []) h = ground (arith, h)
matches_pattern-All (c ∷ d ∷ e ∷ cs) h = ground (arith, h, matches_pattern-All (d ∷ e ∷ cs))

-- A valid name has one to 128 code points, each a letter, a digit, `_`, `-` or a newline.
pub is_valid-IsPlain :
    (name : String)
    → is_valid_group_folder name ≡ true
    → (0 < length (codes name))
      × (length (codes name) ≤ max_folder_name_len)
      × All IsPlain (codes name)
unfolding is_valid_group_folder
is_valid-IsPlain name h =
    (ground (arith, h), ground (arith, h), matches_pattern-All (codes name) (ground (arith, h)))

matches_pattern_mono :
    (f g : ℕ → Bool)
    → ((c : ℕ) → f c ≡ true → g c ≡ true)
    → (cs : List ℕ) → matches_pattern f cs ≡ true
    → matches_pattern g cs ≡ true
unfolding matches_pattern
matches_pattern_mono f g sub [] h = h
matches_pattern_mono f g sub (c ∷ []) h = sub c h
matches_pattern_mono f g sub (c ∷ d ∷ []) h = ground (arith, h, sub c, sub d)
matches_pattern_mono f g sub (c ∷ d ∷ e ∷ cs) h =
    ground (arith, h, sub c, matches_pattern_mono f g sub (d ∷ e ∷ cs))

-- The database takes every valid name, if `\w` has the letters, the digits and `_`.
pub validate-is_valid :
    (is_word : ℕ → Bool)
    → ((c : ℕ) → is_name_char c ≡ true → (is_word c || c == b'-') ≡ true)
    → (name : String) → is_valid_group_folder name ≡ true
    → validate_folder is_word name ≡ true
unfolding is_valid_group_folder validate_folder
validate-is_valid is_word words name h =
    let cs = codes name in
    ground (arith, h, matches_pattern_mono is_name_char (λ c. is_word c || c == b'-') words cs)
