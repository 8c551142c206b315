-- ===== src/Text.antt =====
-- Python's operations on texts that the code walks: a text is the list of its characters' numbers.
pub mod Lines
pub mod Fence
use Prim.Native.Char.{code}
use Prim.Native.String.{String, ◌++◌ as ◌+++◌}
use secure_orchestration_mes.Prelude.{
  ℕ, ◌==◌, leb, Bool, true, false, ◌&&◌, ◌||◌, if◌then◌else◌, List, [], ◌∷◌, ◌++◌,
}

abbrev pub Text : Type 0
Text = List ℕ

abbrev pub chars : String → Text
chars String.[] = []
chars (String.◌∷◌ c s) = code c ∷ chars s

abbrev within : ℕ → ℕ → ℕ → Bool
within lo hi c = leb lo c && leb c hi

-- `str.isspace`, for one character.
unfoldable pub is_space : ℕ → Bool
is_space c =
    within 9 13 c
    || within 28 32 c
    || c == 133
    || c == 160
    || c == 5760
    || within 8192 8202 c
    || within 8232 8233 c
    || c == 8239
    || c == 8287
    || c == 12288

-- `s.strip()`
unfoldable pub strip_left : Text → Text
strip_left [] = []
strip_left (c ∷ s) = let rest = strip_left s in if is_space c then rest else c ∷ s

abbrev pub end_with : ℕ → Text → Text
end_with c [] = if is_space c then [] else c ∷ []
end_with c (d ∷ s) = c ∷ d ∷ s

unfoldable pub strip_right : Text → Text
strip_right [] = []
strip_right (c ∷ s) = end_with c (strip_right s)

unfoldable pub strip : Text → Text
strip s = strip_right (strip_left s)

-- `s.startswith(t)`
unfoldable pub starts_with : Text → Text → Bool
starts_with s [] = true
starts_with [] (d ∷ t) = false
starts_with (c ∷ s) (d ∷ t) = c == d && starts_with s t

abbrev pub newline : ℕ
newline = 10

abbrev pub push : ℕ → List Text → List Text
push c [] = (c ∷ []) ∷ []
push c (line ∷ lines) = (c ∷ line) ∷ lines

-- `s.split("\n")` and `"\n".join(lines)`
unfoldable pub split_lines : Text → List Text
split_lines [] = [] ∷ []
split_lines (c ∷ s) = let rest = split_lines s in if c == newline then [] ∷ rest else push c rest

unfoldable pub join_lines : List Text → Text
join_lines [] = []
join_lines (line ∷ []) = line
join_lines (line ∷ line' ∷ lines) = line ++ newline ∷ join_lines (line' ∷ lines)

abbrev pub ticks : Text
ticks = 96 ∷ 96 ∷ 96 ∷ []

-- The same join over texts of the library.
unfoldable pub joined : List String → String
joined [] = ""
joined (line ∷ []) = line
joined (line ∷ line' ∷ lines) = line +++ "\n" +++ joined (line' ∷ lines)

-- `if lines[0].startswith("```"): lines = lines[1:]`
unfoldable pub drop_open : List Text → List Text
unfolding starts_with
drop_open [] = []
drop_open (line ∷ lines) = if starts_with line ticks then lines else line ∷ lines

-- `if lines and closes(lines[-1]): lines = lines[:-1]`
unfoldable pub drop_close : (Text → Bool) → List Text → List Text
drop_close closes [] = []
drop_close closes (line ∷ []) = if closes line then [] else line ∷ []
drop_close closes (line ∷ line' ∷ lines) = line ∷ drop_close closes (line' ∷ lines)

-- The text of an answer without its markdown fence, where `closes` is the test of the last line.
unfoldable pub unfence : (Text → Bool) → Text → Text
unfence closes text =
    let text' = strip text in
    if starts_with text' ticks
    then join_lines (drop_close closes (drop_open (split_lines text')))
    else text'
