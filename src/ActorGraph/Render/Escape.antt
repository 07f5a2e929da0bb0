-- ===== src/ActorGraph/Render/Escape.antt =====
-- How rsactor-graph/src/render.rs writes a text between the quotes of a DOT file.
pub mod Reading
pub mod Labels
use Prim.Native.Char.{Char, code}
use rsactor.Base.{ℕ, String, ◌<>◌, Bool, ◌||◌, ◌==◌, if◌then◌else◌}

-- the characters by their numbers
abbrev pub quote : ℕ
quote = b'"'

abbrev pub backslash : ℕ
backslash = b'\\'

abbrev pub newline : ℕ
newline = b'\n'

-- a backslash before each special character, and `\n` for a line's end
unfoldable pub escape : (ℕ → Bool) → String → String
escape special String.[] = ""
escape special (String.◌∷◌ c s) =
    let rest = escape special s in
    if special (code c)
    then String.◌∷◌ "\\" (String.◌∷◌ c rest)
    else if code c == newline
    then String.◌∷◌ "\\" (String.◌∷◌ "n" rest)
    else String.◌∷◌ c rest

-- `'"' | '\\'`
unfoldable pub special_in_text : ℕ → Bool
special_in_text n = (n == quote) || (n == backslash)

-- `'{' | '}' | '|' | '<' | '>' | '"' | '\\'`
unfoldable pub special_in_record : ℕ → Bool
special_in_record n =
    (n == b'{')
    || (n == b'}')
    || (n == b'|')
    || (n == b'<')
    || (n == b'>')
    || (n == quote)
    || (n == backslash)

unfoldable pub escape_text : String → String
unfolding escape special_in_text
escape_text text = escape special_in_text text

unfoldable pub escape_record : String → String
unfolding escape special_in_record
escape_record text = escape special_in_record text

-- `str::replace` of a character
unfoldable pub replace : ℕ → String → String → String
replace n by String.[] = ""
replace n by (String.◌∷◌ c s) =
    let rest = replace n by s in if code c == n then by <> rest else String.◌∷◌ c rest

unfoldable pub quote_id : String → String
unfolding replace
quote_id text = "\"" <> (replace quote "\\\"" (replace backslash "\\\\" text) <> "\"")
