-- ===== src/Stonesh/Lines.antt =====
-- The text that stonesh.c assembles of a command fits into its buffer.
use stonesh.Stonesh.{total_length, line_size, append_within, append_args, command_line}
use stonesh.Prelude.{
  ℕ, ◌+◌, ◌*◌, ◌<◌, true, List, [], ◌∷◌, ◌++◌, append_assoc, append-nil, Option, none, some, ok,
  ◌≡◌, refl, sym, ap, ◌∙◌, arith, Bytes, codes, length, length-append, ltb,
}

-- The arguments behind the first, each in quotes behind a blank.
abbrev pub quoted_args : List (Option Bytes) → Bytes
quoted_args [] = []
quoted_args (none ∷ argv) = quoted_args argv
quoted_args (some arg ∷ argv) = codes " \"" ++ (arg ++ (codes "\"" ++ quoted_args argv))

append_within-fits :
    (size : ℕ) (s t : Bytes) → length s + length t < size → append_within size s t ≡ ok (s ++ t)
unfolding append_within
append_within-fits size s t h = let e : ltb (length s + length t) size ≡ true = ground arith in rw e

module _ (size : ℕ) where
  -- One argument takes its length and three bytes.
  append_arg :
      (s arg : Bytes) (argv : List (Option Bytes))
      → length s + (length arg + 3) < size
      → append_args size s (some arg ∷ argv)
        ≡ append_args size (((s ++ codes " \"") ++ arg) ++ codes "\"") argv
  unfolding append_args
  append_arg s arg argv h =
      let l₁ = length-append s (codes " \"") in
      let l₂ = length-append (s ++ codes " \"") arg in
      rw (append_within-fits size s (codes " \"") (omega arith)) (
        rw (append_within-fits size (s ++ codes " \"") arg (omega (arith, l₁))) (
          rw
            (append_within-fits size ((s ++ codes " \"") ++ arg) (codes "\"")
              (omega (arith, l₁, l₂)))
            refl))

  append_args-fits :
      (s : Bytes) (argv : List (Option Bytes))
      → length s + (total_length argv + length argv * 3) < size
      → append_args size s argv ≡ ok (s ++ quoted_args argv)
  unfolding append_args
  append_args-fits s [] h = ap ok (sym (append-nil s))
  append_args-fits s (none ∷ argv) h = append_args-fits s argv (omega arith)
  append_args-fits s (some arg ∷ argv) h =
      let l₁ = length-append s (codes " \"") in
      let l₂ = length-append (s ++ codes " \"") arg in
      let l₃ = length-append ((s ++ codes " \"") ++ arg) (codes "\"") in
      append_arg s arg argv (omega arith)
      ∙ append_args-fits (((s ++ codes " \"") ++ arg) ++ codes "\"") argv
          (omega (arith, l₁, l₂, l₃))
      ∙ ap ok (
          append_assoc ((s ++ codes " \"") ++ arg) (codes "\"") (quoted_args argv)
          ∙ append_assoc (s ++ codes " \"") arg (codes "\"" ++ quoted_args argv)
          ∙ append_assoc s (codes " \"") (arg ++ (codes "\"" ++ quoted_args argv)))

-- The text of a command with a first argument is that argument and the others that are not NULL, each
-- in quotes behind a blank: no write goes past the buffer, which has the lengths of the arguments
-- and four bytes for each.
pub command_line-fits :
    (arg : Bytes) (argv : List (Option Bytes))
    → command_line (some arg ∷ argv) ≡ ok (arg ++ quoted_args argv)
unfolding command_line
command_line-fits arg argv =
    rw (append_within-fits (line_size (some arg ∷ argv)) [] arg (omega arith))
      (append_args-fits (line_size (some arg ∷ argv)) arg argv (omega arith))
