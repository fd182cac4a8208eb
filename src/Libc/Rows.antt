-- ===== src/Libc/Rows.antt =====
-- What the loops over `fgets` read from a text that is written line by line.
use stonesh.Libc.Stdio.{get_line, fgets, read_loop, read_lines}
use stonesh.Prelude.{
  ℕ, zero, suc, ◌≤◌, ◌<◌, false, List, [], ◌∷◌, ◌++◌, map, ◌≡◌, refl, ap, ◌∙◌, arith, Bytes, ◌==◌,
  length, length-append, All, Lacks,
}

-- A line with its newline, and a text of such lines.
abbrev pub with_newline : Bytes → Bytes
with_newline row = row ++ b'\n' ∷ []

abbrev pub text_of : List Bytes → Bytes
text_of [] = []
text_of (row ∷ rows) = row ++ b'\n' ∷ text_of rows

-- The row and its newline fit into a buffer with `room` bytes in front of the NUL.
abbrev pub IsRow : ℕ → Bytes → Type 0
IsRow room row = Lacks b'\n' row × (length row < room)

get_line-row :
    (room : ℕ) (row rest : Bytes)
    → Lacks b'\n' row
    → length row < room
    → get_line room (row ++ b'\n' ∷ rest) ≡ (with_newline row, rest)
unfolding get_line
get_line-row zero row rest h l = absurd (omega arith)
get_line-row (suc room) [] rest h l = refl
get_line-row (suc room) (c ∷ row) rest (h, hs) l =
    let e : (c == b'\n') ≡ false = ground arith in
    rw e (rw (get_line-row room row rest hs (omega arith)))

module _ (room : ℕ) where
  read_loop-row :
      (fuel : ℕ) (row rest : Bytes)
      → IsRow room row
      → read_loop (suc fuel) room (row ++ b'\n' ∷ rest)
        ≡ with_newline row ∷ read_loop fuel room rest
  unfolding read_loop fgets
  read_loop-row fuel [] rest (h, l) = rw (get_line-row room [] rest h l)
  read_loop-row fuel (c ∷ row) rest (h, l) = rw (get_line-row room (c ∷ row) rest h l)

  read_loop-nil : (fuel : ℕ) → read_loop fuel room [] ≡ []
  unfolding read_loop fgets
  read_loop-nil zero = refl
  read_loop-nil (suc fuel) = refl

  read_loop-text_of :
      (fuel : ℕ) (rows : List Bytes)
      → All (IsRow room) rows
      → length rows ≤ fuel
      → read_loop fuel room (text_of rows) ≡ map with_newline rows
  read_loop-text_of fuel [] h l = read_loop-nil fuel
  read_loop-text_of zero (row ∷ rows) h l = absurd (omega arith)
  read_loop-text_of (suc fuel) (row ∷ rows) (h, hs) l =
      read_loop-row fuel row (text_of rows) h
      ∙ ap (◌∷◌ (with_newline row)) (read_loop-text_of fuel rows hs (omega arith))

  length-text_of : (rows : List Bytes) → length rows ≤ length (text_of rows)
  length-text_of [] = omega arith
  length-text_of (row ∷ rows) =
      omega (arith, length-append row (b'\n' ∷ text_of rows), length-text_of rows)

  -- Each row that fits into the buffer is read as one line.
  pub read_lines-text_of :
      (rows : List Bytes)
      → All (IsRow room) rows
      → read_lines room (text_of rows) ≡ map with_newline rows
  unfolding read_lines
  read_lines-text_of rows h = read_loop-text_of _ rows h (length-text_of rows)
