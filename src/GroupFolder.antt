-- ===== src/GroupFolder.antt =====
-- host/group_folder.py: which names a group's folder may have. A name is read as its code points;
-- the paths on the file system are left out.
pub mod Safe
mod Tests
use Prim.Native.Char.{code}
use Prim.Native.String.{String}
use evoclaw.Base.{
  ℕ, suc, ◌+◌, Bool, true, false, not, ◌&&◌, ◌||◌, List, [], ◌∷◌, leb, ltb, ◌==◌, length,
  if◌then◌else◌, ite, string_discrete,
}

-- `_MAX_FOLDER_NAME_LEN`
abbrev pub max_folder_name_len : ℕ
max_folder_name_len = 128

-- The code points of a text.
abbrev pub codes : String → List ℕ
codes String.[] = []
codes (String.◌∷◌ c s) = code c ∷ codes s

-- `[a-zA-Z0-9_-]`
unfoldable pub is_name_char : ℕ → Bool
is_name_char c =
    leb b'a' c && leb c b'z'
    || leb b'A' c && leb c b'Z'
    || leb b'0' c && leb c b'9'
    || c == b'_'
    || c == b'-'

-- The match of `^[...]+$` for a class of characters: `$` also matches before a newline that ends the
-- text.
unfoldable pub matches_pattern : (ℕ → Bool) → List ℕ → Bool
matches_pattern in_class [] = false
matches_pattern in_class (c ∷ []) = in_class c
matches_pattern in_class (c ∷ d ∷ []) = in_class c && (in_class d || d == 10)
matches_pattern in_class (c ∷ d ∷ e ∷ cs) = in_class c && matches_pattern in_class (d ∷ e ∷ cs)

-- `RESERVED`
unfoldable pub is_reserved : String → Bool
is_reserved name =
    ite (string_discrete name "global") true
      (ite (string_discrete name ".") true (ite (string_discrete name "..") true false))

-- `chr(x) in name`
unfoldable pub contains : ℕ → List ℕ → Bool
contains x [] = false
contains x (c ∷ cs) = c == x || contains x cs

-- `".." in name`
unfoldable pub contains_dots : List ℕ → Bool
contains_dots [] = false
contains_dots (c ∷ []) = false
contains_dots (c ∷ d ∷ cs) = c == b'.' && d == b'.' || contains_dots (d ∷ cs)

unfoldable pub is_valid_group_folder : String → Bool
is_valid_group_folder name =
    let cs = codes name in
    not (length cs == 0)
    && not (is_reserved name)
    && leb (length cs) max_folder_name_len
    && not (contains b'/' cs || contains 92 cs || contains_dots cs)
    && matches_pattern is_name_char cs

-- `_validate_folder` of host/db.py, which asks for `[\w\-]`; `is_word` is the class `\w`.
unfoldable pub validate_folder : (ℕ → Bool) → String → Bool
validate_folder is_word name =
    let cs = codes name in
    not (length cs == 0 || contains_dots cs || contains b'/' cs || contains 92 cs)
    && matches_pattern (λ c. is_word c || c == b'-') cs
