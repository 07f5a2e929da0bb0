-- ===== src/ActorGraph/Render/Escape/Labels.antt =====
-- The texts of rsactor-graph/src/render.rs in a DOT file end where the code ends them.
use Prim.Native.Char.{Char}
use Prim.Native.String.append
use rsactor.Base.{ℕ, String, Bool, not, ◌&&◌, ◌==◌}
use rsactor.ActorGraph.Render.Escape.{quote, backslash, special_in_record}

abbrev pub is_quote : ℕ → Bool
is_quote n = n == quote

-- what ends a field of a record label, or gives it structure
abbrev pub is_structural : ℕ → Bool
is_structural n = special_in_record n && not (n == backslash)
