-- ===== src/Base/Text.antt =====
-- Strings as JavaScript sees them: falsy texts, defaults and lengths in UTF-16 units.
use Prim.Native.Nat.{ℕ, ◌+◌}
use Prim.Native.Char.{code}
use Prim.Native.String.{String}
use mathlib.Core.Bool.{Bool}
use mathlib.Core.Option.{Option, none, some}
use chain_verse_backend.Base.Tests.{ltb, ◌===◌, if◌then◌else◌}

-- `s.length`
unfoldable pub utf16_length : String → ℕ
utf16_length String.[] = 0
utf16_length (String.◌∷◌ c s) = (if ltb (code c) 65536 then 1 else 2) + utf16_length s

-- `!s`
abbrev pub is_blank : String → Bool
is_blank s = s === ""

-- `value || default`, where the value may be missing.
abbrev pub or_default : Option String → String → String
or_default none d = d
or_default (some s) d = if is_blank s then d else s
