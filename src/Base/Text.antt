-- ===== src/Base/Text.antt =====
-- Texts: identifiers, tokens and bodies. Their order is that of Go on strings, which on UTF-8 is
-- the order of the code points.
use Prim.Native.Char.{code}
use Prim.Native.String.{String}
use text.Mathlib.TextEquality.{Char-path}
use mathlib.Core.Path.{◌≡◌, refl, ap₂}
use mathlib.Core.Bool.{Bool, true, false}
use native.Mathlib.Omega.{arith}
use october_bus.Base.Tests.{ltb, ◌==◌, if◌then◌else◌}

unfoldable pub text_ltb : String → String → Bool
text_ltb s String.[] = false
text_ltb String.[] (String.◌∷◌ d t) = true
text_ltb (String.◌∷◌ c s) (String.◌∷◌ d t) =
    if code c == code d then text_ltb s t else ltb (code c) (code d)

-- Two texts of which neither is below the other are equal.
pub text_ltb_antisymm : (s t : String) → text_ltb s t ≡ false → text_ltb t s ≡ false → s ≡ t
unfolding text_ltb
text_ltb_antisymm String.[] String.[] h k = refl
text_ltb_antisymm String.[] (String.◌∷◌ d t) h k = cc
text_ltb_antisymm (String.◌∷◌ c s) String.[] h k = cc
text_ltb_antisymm (String.◌∷◌ c s) (String.◌∷◌ d t) h k =
    ap₂ String.◌∷◌ (Char-path c d (ground arith))
      (text_ltb_antisymm s t (ground arith) (ground arith))

pub text_ltb-asymm : (s t : String) → text_ltb s t ≡ true → text_ltb t s ≡ false
unfolding text_ltb
text_ltb-asymm String.[] String.[] h = cc
text_ltb-asymm String.[] (String.◌∷◌ d t) h = refl
text_ltb-asymm (String.◌∷◌ c s) String.[] h = cc
text_ltb-asymm (String.◌∷◌ c s) (String.◌∷◌ d t) h = ground (arith, text_ltb-asymm s t)
