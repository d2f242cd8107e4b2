-- ===== src/Prelude/Text.antt =====
-- Texts as Python has them: their order by code points, and `text.strip()` that is empty.
use Prim.Native.String.{String, compare, [], ◌∷◌}
use Prim.Native.Nat.{ℕ}
use Prim.Native.Char.{code}
use text.Mathlib.Text.{is_lt}
use mathlib.Core.Bool.{Bool, true, ◌&&◌, ◌||◌}
use pufferlab.Prelude.Tests.{leb, ◌==◌}

-- `s < t`
abbrev pub text_lt : String → String → Bool
text_lt s t = is_lt (compare s t)

-- `chr(c).isspace()`
abbrev is_space : ℕ → Bool
is_space c =
    leb 9 c && leb c 13
    || leb 28 c && leb c 32
    || c == 133
    || c == 160
    || c == 5760
    || leb 8192 c && leb c 8202
    || c == 8232
    || c == 8233
    || c == 8239
    || c == 8287
    || c == 12288

-- `not s.strip()`
unfoldable pub is_blank : String → Bool
is_blank [] = true
is_blank (c ∷ s) = is_space (code c) && is_blank s
