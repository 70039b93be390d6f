-- ===== src/Prelude/Text.antt =====
-- Texts as lists of code points.
use Prim.Native.Nat.{ℕ, ◌+◌}
use mathlib.Core.List.{List, [], ◌∷◌}
use anchr.Prelude.Tests.{if◌then◌else◌, ltb}

-- `text.length`, in code units of UTF-16.
unfoldable pub utf16_length : List ℕ → ℕ
utf16_length [] = 0
utf16_length (c ∷ rest) = (if ltb 65535 c then 2 else 1) + utf16_length rest
