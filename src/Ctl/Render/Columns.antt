-- ===== src/Ctl/Render/Columns.antt =====
-- The columns of a table stand one below the other.
use mathlib.Core.List.{append_assoc, append-nil}
use filewall.Ctl.Render.{
  byte_len, utf8_len, trim_end, widen, widen_all, header_widths, widths, pad, join_padded, fmt_row,
}
use filewall.Prelude.{
  is_whitespace, get_elem?, ℕ, zero, suc, ◌+◌, ◌-◌, ◌≤◌, Bool, true, ◌&&◌, some, List, [], ◌∷◌,
  ◌++◌, Text, length, replicate, take, drop, All, is_nil, Bool-cases, inl, inr, ◌≡◌, ◌∙◌, ap, refl,
  arith, Memᴰ, subst, length-append, take-append,
}

length-le-byte_len : (s : Text) → length s ≤ byte_len s
unfolding byte_len utf8_len
length-le-byte_len [] = omega arith
length-le-byte_len (c ∷ cs) = ground (arith, length-le-byte_len cs)

-- Every cell fits into its column.
abbrev pub Fits : List ℕ → List Text → Type 0
Fits [] cells = Unit
Fits (w ∷ ws) [] = Unit
Fits (w ∷ ws) (c ∷ cs) = (length c ≤ w) × Fits ws cs

-- No column is narrower.
abbrev Wider : List ℕ → List ℕ → Type 0
Wider [] ws = ws ≡ []
Wider (v ∷ vs) [] = ⊥
Wider (v ∷ vs) (w ∷ ws) = (v ≤ w) × Wider vs ws

Wider-refl : (ws : List ℕ) → Wider ws ws
Wider-refl [] = refl
Wider-refl (w ∷ ws) = (omega arith, Wider-refl ws)

widen-Wider : (ws : List ℕ) (row : List Text) → Wider ws (widen ws row)
unfolding widen
widen-Wider [] row = refl
widen-Wider (w ∷ ws) [] = Wider-refl (w ∷ ws)
widen-Wider (w ∷ ws) (c ∷ cs) = (omega arith, widen-Wider ws cs)

Wider-trans : (us vs ws : List ℕ) → Wider us vs → Wider vs ws → Wider us ws
Wider-trans [] [] ws h k = k
Wider-trans [] (v ∷ vs) ws h k = cc
Wider-trans (u ∷ us) [] ws h k = absurd h
Wider-trans (u ∷ us) (v ∷ vs) [] h k = k
Wider-trans (u ∷ us) (v ∷ vs) (w ∷ ws) h k = (omega arith, Wider-trans us vs ws h.1 k.1)

Fits-Wider : (vs ws : List ℕ) (cells : List Text) → Fits vs cells → Wider vs ws → Fits ws cells
Fits-Wider [] [] cells h k = tt
Fits-Wider [] (w ∷ ws) cells h k = cc
Fits-Wider (v ∷ vs) [] cells h k = absurd k
Fits-Wider (v ∷ vs) (w ∷ ws) [] h k = tt
Fits-Wider (v ∷ vs) (w ∷ ws) (c ∷ cs) h k = (omega arith, Fits-Wider vs ws cs h.1 k.1)

widen-Fits : (ws : List ℕ) (row : List Text) → Fits (widen ws row) row
unfolding widen
widen-Fits [] row = tt
widen-Fits (w ∷ ws) [] = tt
widen-Fits (w ∷ ws) (c ∷ cs) = (omega (arith, length-le-byte_len c), widen-Fits ws cs)

widen_all-Wider : (ws : List ℕ) (rows : List (List Text)) → Wider ws (widen_all ws rows)
unfolding widen_all
widen_all-Wider ws [] = Wider-refl ws
widen_all-Wider ws (row ∷ rows) =
    Wider-trans ws (widen ws row) (widen_all (widen ws row) rows) (widen-Wider ws row)
      (widen_all-Wider (widen ws row) rows)

widen_all-Fits :
    (ws : List ℕ) (rows : List (List Text)) (row : List Text)
    → Memᴰ row rows
    → Fits (widen_all ws rows) row
unfolding widen_all
widen_all-Fits ws [] row m = elim m [ ]
widen_all-Fits ws (r ∷ rows) row (Memᴰ.head e) = rw e (
    Fits-Wider (widen ws r) (widen_all (widen ws r) rows) r (widen-Fits ws r)
      (widen_all-Wider (widen ws r) rows))
widen_all-Fits ws (r ∷ rows) row (Memᴰ.tail m) = widen_all-Fits (widen ws r) rows row m

header_widths-Fits : (hs : List Text) → Fits (header_widths hs) hs
unfolding header_widths
header_widths-Fits [] = tt
header_widths-Fits (h ∷ hs) = (length-le-byte_len h, header_widths-Fits hs)

widths-Fits :
    (headers : List Text) (rows : List (List Text)) (row : List Text)
    → Memᴰ row (headers ∷ rows)
    → Fits (widths headers rows) row
unfolding widths
widths-Fits headers rows row (Memᴰ.head e) = rw e (
    Fits-Wider (header_widths headers) (widen_all (header_widths headers) rows) headers
      (header_widths-Fits headers) (widen_all-Wider (header_widths headers) rows))
widths-Fits headers rows row (Memᴰ.tail m) = widen_all-Fits (header_widths headers) rows row m

length-widen : (ws : List ℕ) (row : List Text) → length (widen ws row) ≡ length ws
unfolding widen
length-widen [] row = refl
length-widen (w ∷ ws) [] = refl
length-widen (w ∷ ws) (c ∷ cs) = omega (arith, length-widen ws cs)

length-widen_all : (ws : List ℕ) (rows : List (List Text)) → length (widen_all ws rows) ≡ length ws
unfolding widen_all
length-widen_all ws [] = refl
length-widen_all ws (row ∷ rows) = length-widen_all (widen ws row) rows ∙ length-widen ws row

length-header_widths : (hs : List Text) → length (header_widths hs) ≡ length hs
unfolding header_widths
length-header_widths [] = refl
length-header_widths (h ∷ hs) = omega (arith, length-header_widths hs)

length-widths :
    (headers : List Text) (rows : List (List Text)) → length (widths headers rows) ≡ length headers
unfolding widths
length-widths headers rows =
    length-widen_all (header_widths headers) rows ∙ length-header_widths headers

-- Where the column begins.
abbrev pub column_start : List ℕ → ℕ → ℕ
column_start [] i = 0
column_start (w ∷ ws) zero = 0
column_start (w ∷ ws) (suc i) = w + (2 + column_start ws i)

length-replicate : (n c : ℕ) → length (replicate n c) ≡ n
length-replicate zero c = omega arith
length-replicate (suc n) c = omega (arith, length-replicate n c)

length-pad : (c : Text) (w : ℕ) → length c ≤ w → length (pad c w) ≡ w
unfolding pad
length-pad c w h =
    omega (arith, length-append c (replicate (w - length c) 32), length-replicate (w - length c) 32)

take-pad : (c rest : Text) (w : ℕ) → take (length c) (pad c w ++ rest) ≡ c
unfolding pad
take-pad c rest w =
    rw (append_assoc c (replicate (w - length c) 32) rest)
      (take-append c (replicate (w - length c) 32 ++ rest))

drop-past : (xs ys : Text) (n : ℕ) → drop (length xs + n) (xs ++ ys) ≡ drop n ys
drop-past [] ys n = let e : 0 + n ≡ n = omega arith in rw e refl
drop-past (x ∷ xs) ys n =
    let e : suc (length xs) + n ≡ suc (length xs + n) = omega arith in rw e (drop-past xs ys n)

skip_column :
    (c rest : Text) (w k : ℕ)
    → length c ≤ w
    → drop (w + (2 + k)) (pad c w ++ (32 ∷ 32 ∷ rest)) ≡ drop k rest
skip_column c rest w k h =
    let e : 2 + k ≡ suc (suc k) = omega arith in
    subst (λ n. drop (n + (2 + k)) (pad c w ++ (32 ∷ 32 ∷ rest)) ≡ drop k rest) (length-pad c w h)
      (drop-past (pad c w) (32 ∷ 32 ∷ rest) (2 + k) ∙ rw e refl)

cell_in_line :
    (ws : List ℕ) (cells : List Text) (rest : Text) (i : ℕ) (c : Text)
    → Fits ws cells
    → length cells ≤ length ws
    → get_elem? cells i ≡ some c
    → take (length c) (drop (column_start ws i) (join_padded ws cells ++ rest)) ≡ c
unfolding join_padded
cell_in_line ws [] rest i c h n e = cc
cell_in_line [] (x ∷ cells) rest i c h n e = absurd (omega arith)
cell_in_line (w ∷ ws) (x ∷ []) rest zero c h n e =
    let same : x ≡ c = cc e in rw (← same) (take-pad x rest w)
cell_in_line (w ∷ ws) (x ∷ []) rest (suc i) c h n e = cc
cell_in_line (w ∷ []) (x ∷ y ∷ cells) rest i c h n e = absurd (omega arith)
cell_in_line (w ∷ v ∷ ws) (x ∷ y ∷ cells) rest zero c h n e =
    let same : x ≡ c = cc e in
    let behind = 32 ∷ 32 ∷ join_padded (v ∷ ws) (y ∷ cells) in
    rw (← same) (rw (append_assoc (pad x w) behind rest) (take-pad x (behind ++ rest) w))
cell_in_line (w ∷ v ∷ ws) (x ∷ y ∷ cells) rest (suc i) c h n e =
    let later = join_padded (v ∷ ws) (y ∷ cells) in
    rw
      (
        append_assoc (pad x w) (32 ∷ 32 ∷ later) rest,
        skip_column x (later ++ rest) w (column_start (v ∷ ws) i) h.0,
      )
      (cell_in_line (v ∷ ws) (y ∷ cells) rest i c h.1 (omega arith) e)

and-left : (a b : Bool) → (a && b) ≡ true → a ≡ true
and-left a b h = ground (arith, h)

and-right : (a b : Bool) → (a && b) ≡ true → b ≡ true
and-right a b h = ground (arith, h)

nothing_left : (t cs blanks : Text) → cs ≡ t ++ blanks → is_nil t ≡ true → cs ≡ blanks
nothing_left [] cs blanks h k = h
nothing_left (x ∷ t) cs blanks h k = cc

-- Only white space is cut off.
trim_end_lem :
    (s : Text)
    → (blanks : Text) × All (λ c. is_whitespace c ≡ true) blanks × (s ≡ trim_end s ++ blanks)
unfolding trim_end
trim_end_lem [] = ([], tt, refl)
trim_end_lem (c ∷ cs) =
    let (blanks, white, layout) = trim_end_lem cs in
    elim (Bool-cases (is_whitespace c && is_nil (trim_end cs))) [
      | inl cut ↦ rw cut (
        c ∷ blanks,
        (and-left _ _ cut, white),
        ap (λ l. c ∷ l) (nothing_left (trim_end cs) cs blanks layout (and-right _ _ cut)),
      )
      | inr kept ↦ rw kept (blanks, white, ap (λ l. c ∷ l) layout)
    ]

-- In every line of a table, the header's included, the cell of a column stands whole at the place where
-- that column begins, which is the same for all lines, once the white space is put back that was cut
-- off at the end of the line. Every row has as many cells as there are headers, at most.
pub render_table_aligned :
    (headers : List Text) (rows : List (List Text)) (row : List Text)
    → Memᴰ row (headers ∷ rows)
    → length row ≤ length headers
    → let ws = widths headers rows in
      (blanks : Text) × All (λ c. is_whitespace c ≡ true) blanks
      × ((i : ℕ) (c : Text)
          → get_elem? row i ≡ some c
          → take (length c) (drop (column_start ws i) (fmt_row ws row ++ blanks)) ≡ c)
unfolding fmt_row
render_table_aligned headers rows row m n =
    let ws = widths headers rows in
    let line = join_padded ws row in
    let (blanks, white, layout) = trim_end_lem line in
    let enough : length row ≤ length ws = omega (arith, length-widths headers rows) in
    (
      blanks,
      white,
      λ i c e.
          subst (λ t. take (length c) (drop (column_start ws i) t) ≡ c) (append-nil line ∙ layout)
            (cell_in_line ws row [] i c (widths-Fits headers rows row m) enough e),
    )
