-- ===== src/Base/Texts.antt =====
-- Texts as Python tests and cuts them.
use Prim.Native.Char.{code}
use Prim.Native.String.{String}
use mathlib.Core.Path.{◌≡◌}
use mathlib.Core.Logic.{ite}
use mathlib.Core.Bool.{Bool, true, false}
use mathlib.Core.Option.{Option, none, some}
use native.Mathlib.Omega.{arith}
use evoclaw.Base.Tests.{◌==◌, if◌then◌else◌}
use evoclaw.Base.Keys.{string_discrete}

-- The empty text counts as false.
unfoldable pub is_text : String → Bool
is_text s = ite (string_discrete s "") false true

unfoldable pub same_text : String → String → Bool
same_text s t = ite (string_discrete s t) true false

-- What follows a prefix that the text starts with.
unfoldable pub strip_prefix : String → String → Option String
strip_prefix String.[] s = some s
strip_prefix (String.◌∷◌ d p) String.[] = none
strip_prefix (String.◌∷◌ d p) (String.◌∷◌ c s) =
    let rest = strip_prefix p s in if code c == code d then rest else none

-- `s.endswith(p)`
unfoldable pub ends_with : String → String → Bool
ends_with p String.[] = ite (string_discrete p "") true false
ends_with p (String.◌∷◌ c s) =
    let rest = ends_with p s in ite (string_discrete p (String.◌∷◌ c s)) true rest

-- `s + t`
unfoldable pub concat : String → String → String
concat String.[] t = t
concat (String.◌∷◌ c s) t = String.◌∷◌ c (concat s t)

pub same_text_self : (s : String) → same_text s s ≡ true
unfolding same_text
same_text_self s = ground (arith, string_discrete s s)

pub same_text_eq : (s t : String) → same_text s t ≡ true → s ≡ t
unfolding same_text
same_text_eq s t h = ground (arith, h, string_discrete s t)
