-- ===== src/Prelude/Strings.antt =====
-- What the program uses of Rust's `str` besides equality and `contains`: lines, words and `trim`.
use Prim.Native.Char.{Char, code}
use lgtv_manager.Prelude.{
  ℕ, Bool, not, ◌&&◌, ◌||◌, if◌then◌else◌, ◌==◌, ltb, String, str_eq, List, [], ◌∷◌,
}

abbrev within : ℕ → ℕ → ℕ → Bool
within low high n = not (ltb n low) && not (ltb high n)

-- `char::is_whitespace`: the characters that Unicode calls White_Space.
abbrev pub is_whitespace : Char → Bool
is_whitespace c =
    within 9 13 (code c)
    || within 32 32 (code c)
    || within 133 133 (code c)
    || within 160 160 (code c)
    || within 5760 5760 (code c)
    || within 8192 8202 (code c)
    || within 8232 8233 (code c)
    || within 8239 8239 (code c)
    || within 8287 8287 (code c)
    || within 12288 12288 (code c)

is_line_feed : Char → Bool
is_line_feed c = code c == 10

-- A character put before the first piece.
grow : Char → List String → List String
grow c [] = String.◌∷◌ c "" ∷ []
grow c (p ∷ ps) = String.◌∷◌ c p ∷ ps

-- The pieces of a text between the characters that pass the test.
pieces : (Char → Bool) → String → List String
unfolding grow
pieces is_cut String.[] = "" ∷ []
pieces is_cut (String.◌∷◌ c s) =
    let rest = pieces is_cut s in if is_cut c then "" ∷ rest else grow c rest

full_pieces : List String → List String
full_pieces [] = []
full_pieces (p ∷ ps) = let rest = full_pieces ps in if str_eq p "" then rest else p ∷ rest

-- `str::split_whitespace`.
unfoldable pub split_whitespace : String → List String
unfolding pieces full_pieces
split_whitespace s = full_pieces (pieces is_whitespace s)

-- A line without the carriage return before its line feed.
strip_return : String → String
strip_return String.[] = ""
strip_return (String.◌∷◌ c String.[]) = if code c == 13 then "" else String.◌∷◌ c ""
strip_return (String.◌∷◌ c (String.◌∷◌ d s)) = String.◌∷◌ c (strip_return (String.◌∷◌ d s))

-- What follows the last line feed is a line only if there is something.
line_pieces : List String → List String
unfolding strip_return
line_pieces [] = []
line_pieces (p ∷ []) = if str_eq p "" then [] else p ∷ []
line_pieces (p ∷ q ∷ ps) = strip_return p ∷ line_pieces (q ∷ ps)

-- `str::lines`.
unfoldable pub lines : String → List String
unfolding pieces line_pieces is_line_feed
lines s = line_pieces (pieces is_line_feed s)

trim_start : String → String
trim_start String.[] = ""
trim_start (String.◌∷◌ c s) =
    let rest = trim_start s in if is_whitespace c then rest else String.◌∷◌ c s

trim_end : String → String
trim_end String.[] = ""
trim_end (String.◌∷◌ c s) =
    let rest = trim_end s in if is_whitespace c && str_eq rest "" then "" else String.◌∷◌ c rest

-- `str::trim`.
unfoldable pub trim : String → String
unfolding trim_start trim_end
trim s = trim_end (trim_start s)
