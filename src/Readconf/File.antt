-- ===== src/Readconf/File.antt =====
-- `read_config_file` of readconf.c. The file system is an argument: the bytes of the files that can
-- be opened. Closing a file has no effect on the result.
pub mod Outcome
use stonesh.Prelude.{
  ℕ, ◌+◌, List, [], ◌∷◌, Option, none, some, ℤ, pos, minus_one, int_eq, Run, ok, ◌>>=◌, Bytes,
  if◌then◌else◌, ltb,
}
use stonesh.Libc.{c_str, read_lines}
use stonesh.Readconf.Line.{process_config_line}
use stonesh.Readconf.Options.{Options, free_options, initialize_options, fill_default_options}

abbrev pub FileSystem : Type 0
FileSystem = Bytes → Option Bytes

-- `sizeof(line) - 1`
abbrev pub config_room : ℕ
config_room = 1023

-- The loop over the lines, with `bad_options`; it stops behind a line whose result is -1.
unfoldable pub read_options : List Bytes → Options → ℕ → Run (Options × ℕ)
read_options [] o bad = ok (o, bad)
read_options (line ∷ lines) o bad = do
  (o', err) ← process_config_line o (c_str line) (some (pos 1))
  (let more = read_options lines o' (if int_eq err (pos 0) then bad else bad + 1) in
      if int_eq err minus_one then ok (o', bad + 1) else more)

-- Behind the loop: the options afterwards, and the result.
unfoldable pub finish_options : Options × ℕ → Options × ℤ
finish_options (o, bad) =
    if ltb 0 bad then (free_options o, pos 0) else (fill_default_options o, pos 1)

-- On what `fopen` gives.
unfoldable pub read_opened : Option Bytes → Options → Run (Options × ℤ)
read_opened none o = ok (free_options o, pos 0)
read_opened (some content) o = do
  r ← read_options (read_lines config_room content) (initialize_options o) 0
  ok (finish_options r)

unfoldable pub read_config_file : FileSystem → Bytes → Options → Run (Options × ℤ)
read_config_file files filename o = read_opened (files filename) o
