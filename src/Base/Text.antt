-- ===== src/Base/Text.antt =====
-- Texts: a suffix and a separated list.
use Prim.Native.String.{String, ◌++◌ as ◌<>◌}
use mathlib.Core.Bool.{Bool, ◌||◌}
use mathlib.Core.List.{List, [], ◌∷◌}
use text.Mathlib.Text.{◌==◌}

-- `str::ends_with`
unfoldable pub ends_with : String → String → Bool
ends_with String.[] t = "" == t
ends_with (String.◌∷◌ c s) t = (String.◌∷◌ c s == t) || ends_with s t

-- `[String]::join`
unfoldable pub join : String → List String → String
join sep [] = ""
join sep (s ∷ []) = s
join sep (s ∷ t ∷ rest) = s <> (sep <> join sep (t ∷ rest))
