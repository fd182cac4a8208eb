-- ===== src/Libc/Stdio.antt =====
-- Reading a file by `fgets`. A file is the list of its bytes.
use stonesh.Prelude.{
  ℕ, zero, suc, List, [], ◌∷◌, Option, none, some, ◌==◌, if◌then◌else◌, Bytes, length,
}

-- At most `room` bytes, up to a newline, which is kept; and the bytes not read.
unfoldable pub get_line : ℕ → Bytes → Bytes × Bytes
get_line zero s = ([], s)
get_line (suc room) [] = ([], [])
get_line (suc room) (c ∷ s) =
    let (line, rest) = get_line room s in if c == b'\n' then (c ∷ [], s) else (c ∷ line, rest)

-- `fgets(buf, suc room, f)`: what it stores before the NUL, and the bytes not read; NULL at the end.
unfoldable pub fgets : ℕ → Bytes → Option (Bytes × Bytes)
unfolding get_line
fgets room [] = none
fgets room (c ∷ s) = some (get_line room (c ∷ s))

unfoldable pub read_loop : ℕ → ℕ → Bytes → List Bytes
unfolding fgets
read_loop zero room s = []
read_loop (suc fuel) room s = elim (fgets room s) [
  | none ↦ []
  | some (line, rest) ↦ line ∷ read_loop fuel room rest
]

-- What the calls of `while (fgets(buf, suc room, f))` store, in order.
unfoldable pub read_lines : ℕ → Bytes → List Bytes
unfolding read_loop
read_lines room s = read_loop (length s) room s
