-- ===== src/Ctl/Render.antt =====
-- filewallctl/src/render.rs, `render_table`: rows of cells as lines of columns. A cell is as wide as
-- it has bytes, and is padded by characters.
pub mod Columns
use filewall.Prelude.{
  ℕ, ◌+◌, ◌-◌, ◌&&◌, List, [], ◌∷◌, ◌++◌, Text, length, replicate, max, ltb, is_nil, is_whitespace,
  if◌then◌else◌,
}

-- The bytes of a character in UTF-8.
utf8_len : ℕ → ℕ
utf8_len c = if ltb c 128 then 1 else if ltb c 2048 then 2 else if ltb c 65536 then 3 else 4

-- `str::len`.
unfoldable pub byte_len : Text → ℕ
unfolding utf8_len
byte_len [] = 0
byte_len (c ∷ cs) = utf8_len c + byte_len cs

-- `str::trim_end`.
unfoldable pub trim_end : Text → Text
unfolding is_whitespace
trim_end [] = []
trim_end (c ∷ cs) =
    let rest = trim_end cs in if is_whitespace c && is_nil rest then [] else c ∷ rest

-- The widths after a row.
unfoldable pub widen : List ℕ → List Text → List ℕ
unfolding byte_len
widen [] cells = []
widen (w ∷ ws) [] = w ∷ ws
widen (w ∷ ws) (c ∷ cs) = max w (byte_len c) ∷ widen ws cs

unfoldable pub widen_all : List ℕ → List (List Text) → List ℕ
unfolding widen
widen_all ws [] = ws
widen_all ws (row ∷ rows) = widen_all (widen ws row) rows

header_widths : List Text → List ℕ
unfolding byte_len
header_widths [] = []
header_widths (h ∷ hs) = byte_len h ∷ header_widths hs

-- The widths of the columns.
unfoldable pub widths : List Text → List (List Text) → List ℕ
unfolding widen_all header_widths
widths headers rows = widen_all (header_widths headers) rows

-- `format!("{:width$}")` of a text.
unfoldable pub pad : Text → ℕ → Text
pad c w = c ++ replicate (w - length c) 32

-- The padded cells, with two spaces between them.
unfoldable pub join_padded : List ℕ → List Text → Text
unfolding pad
join_padded [] cells = []
join_padded (w ∷ ws) [] = []
join_padded (w ∷ ws) (c ∷ []) = pad c w
join_padded (w ∷ []) (c ∷ d ∷ cs) = pad c w
join_padded (w ∷ v ∷ ws) (c ∷ d ∷ cs) = pad c w ++ (32 ∷ 32 ∷ join_padded (v ∷ ws) (d ∷ cs))

unfoldable pub fmt_row : List ℕ → List Text → Text
unfolding join_padded trim_end
fmt_row ws cells = trim_end (join_padded ws cells)

unfoldable pub fmt_rows : List ℕ → List (List Text) → Text
unfolding fmt_row
fmt_rows ws [] = []
fmt_rows ws (row ∷ rows) = fmt_row ws row ++ (b'\n' ∷ fmt_rows ws rows)

unfoldable pub render_table : List Text → List (List Text) → Text
unfolding widths fmt_rows
render_table headers rows = fmt_rows (widths headers rows) (headers ∷ rows)
