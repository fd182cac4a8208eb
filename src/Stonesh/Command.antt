-- ===== src/Stonesh/Command.antt =====
-- stonesh.c: the command that `main` executes, and its text for the log.
use stonesh.Prelude.{
  ℕ, ◌+◌, ◌*◌, List, [], ◌∷◌, ◌++◌, Option, none, some, ℤ, pos, Run, ok, fault, ◌>>=◌, Bytes, codes,
  length, ltb, if◌then◌else◌,
}
use stonesh.Readconf.Options.{Options}

-- `exit_with` is the end of the program, and `execute` the arguments of `execvp`.
pub data Outcome : Type 0 where
  exit_with : ℤ → Outcome
  execute : List (Option Bytes) → Outcome

abbrev pub exit_success : ℤ
exit_success = pos 0

abbrev pub exit_failure : ℤ
exit_failure = pos 1

-- The arguments for `nc` and for `ssh`.
abbrev pub nc_command : Options → Option Bytes → Option Bytes → List (Option Bytes)
nc_command o host port = o.nc_path ∷ some (codes "-w") ∷ o.nc_timeout ∷ host ∷ port ∷ []

abbrev pub args_list : Option Bytes → List (Option Bytes)
args_list none = []
args_list (some args) = some args ∷ []

abbrev pub ssh_command : Options → Option Bytes → Option Bytes → Option Bytes → List (Option Bytes)
ssh_command o host port args =
    o.ssh_path
    ∷ some (codes "-p")
    ∷ port
    ∷ some (codes "-q")
    ∷ host
    ∷ some (codes "--")
    ∷ args_list args

-- The sum of the lengths of the arguments that are not NULL.
abbrev pub total_length : List (Option Bytes) → ℕ
total_length [] = 0
total_length (none ∷ argv) = total_length argv
total_length (some arg ∷ argv) = length arg + total_length argv

-- `strncat(s, t, strlen(t))`, or `strncpy` into a buffer of zeros, where the string and its NUL have to
-- fit into a buffer of `size` bytes.
unfoldable pub append_within : ℕ → Bytes → Bytes → Run Bytes
append_within size s t = if ltb (length s + length t) size then ok (s ++ t) else fault

-- The loop over the arguments behind the first.
unfoldable pub append_args : ℕ → Bytes → List (Option Bytes) → Run Bytes
append_args size s [] = ok s
append_args size s (none ∷ argv) = append_args size s argv
append_args size s (some arg ∷ argv) = do
  s₁ ← append_within size s (codes " \"")
  s₂ ← append_within size s₁ arg
  s₃ ← append_within size s₂ (codes "\"")
  append_args size s₃ argv

-- `argv_len + argc * 4` bytes are allocated.
abbrev pub line_size : List (Option Bytes) → ℕ
line_size argv = total_length argv + length argv * 4

-- The text of a command; without a first argument the code reads through NULL.
unfoldable pub command_line : List (Option Bytes) → Run Bytes
command_line [] = fault
command_line (none ∷ argv) = fault
command_line (some arg ∷ argv) = do
  s ← append_within (line_size (some arg ∷ argv)) [] arg
  append_args (line_size (some arg ∷ argv)) s argv
