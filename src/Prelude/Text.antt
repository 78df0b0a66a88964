-- ===== src/Prelude/Text.antt =====
-- JavaScript strings: equality, concatenation and lower case. Addresses and hashes are hexadecimal
-- text, so lower case is that of ASCII.
use Prim.Native.Char.{Char, code}
use Prim.Native.String.{String, ◌++◌}
use mathlib.Core.Path.{◌≡◌, refl}
use mathlib.Core.Bool.{Bool, true, false}
use mathlib.Core.Option.{Option, none, some}
use text.Mathlib.Text.{◌==◌ as str_eq}
use lp_monitor.Prelude.Tests.{◌==◌, if◌then◌else◌}

abbrev pub concat : String → String → String
concat s t = s ++ t

-- The letter at the place in the second text that the character has in the first.
translate : String → String → Char → Char
translate String.[] lowers c = c
translate (String.◌∷◌ u us) String.[] c = c
translate (String.◌∷◌ u us) (String.◌∷◌ l ls) c =
    let rest = translate us ls c in if code c == code u then l else rest

unfoldable pub to_lower_case : String → String
unfolding translate
to_lower_case String.[] = String.[]
to_lower_case (String.◌∷◌ c s) =
    String.◌∷◌ (translate "ABCDEFGHIJKLMNOPQRSTUVWXYZ" "abcdefghijklmnopqrstuvwxyz" c)
      (to_lower_case s)

-- `a.toLowerCase() === b.toLowerCase()`.
abbrev pub same_hex : String → String → Bool
same_hex a b = str_eq (to_lower_case a) (to_lower_case b)

-- `a === b` where both may be null.
abbrev pub same_optional : Option String → Option String → Bool
same_optional none none = true
same_optional (some a) (some b) = str_eq a b
same_optional _ _ = false

lower_address : to_lower_case "0xAbC9F" ≡ "0xabc9f"
unfolding to_lower_case
lower_address = refl
