-- ===== src/GroupFolder/Tests.antt =====
-- Names of folders.
use evoclaw.Base.{◌≡◌, refl, ◌≤◌, ◌<◌, true, false, length, All, string_discrete}
use evoclaw.GroupFolder.{
  codes, is_name_char, matches_pattern, is_reserved, contains, contains_dots, is_valid_group_folder,
  max_folder_name_len,
}
use evoclaw.GroupFolder.Safe.{IsPlain, is_valid-IsPlain}

program : Unit {0}
unfolding string_discrete is_name_char matches_pattern is_reserved contains contains_dots
    is_valid_group_folder
program = tt

parent : is_valid_group_folder ".." ≡ false
unfolding program
parent = refl

-- A newline at the end passes.
with_newline : is_valid_group_folder "ops\n" ≡ true
unfolding program
with_newline = refl

is_valid-IsPlain_example :
    (0 < length (codes "ops-2"))
    × (length (codes "ops-2") ≤ max_folder_name_len)
    × All IsPlain (codes "ops-2")
unfolding program
is_valid-IsPlain_example = is_valid-IsPlain "ops-2" refl
