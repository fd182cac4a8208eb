-- ===== src/Streams.antt =====
-- The files that hosts.c, auth_local.c and readconf.c open and close, the strings that these and
-- auth_ldap.c allocate, and their messages: the state of a process, as far as these touch it. The C library is a parameter.
use stonesh.Log.Errors.{IsQuiet, debug-quiet}
use stonesh.Log.{Log, error, debug}
use stonesh.Prelude.{
  ℕ, ◌+◌, ◌-◌, Bool, [], ◌∷◌, Option, none, some, Bytes, codes, ◌≡◌, inl, inr, refl, Bool-cases,
  if◌then◌else◌,
}
use stonesh.Readconf.File.{FileSystem}

-- The files that can be opened, the text of the error for a file that cannot be opened or closed, and
-- whether `fclose` succeeds.
pub record Disk : Type 0 where
  pub files : FileSystem
  pub strerror : Bytes → Bytes
  pub closes : Bytes → Bool

-- The log, the number of open streams, and the number of allocated strings.
pub record Io : Type 0 where
  pub log : Log
  pub streams : ℕ
  pub strings : ℕ

-- As many streams are open and strings allocated as there were.
abbrev pub IsEven : Io → Io → Type 0
IsEven before io = (io.streams ≡ before.streams) × (io.strings ≡ before.strings)

abbrev pub tell : (Log → Log) → Io → Io
tell f io = record io { log = f io.log }

-- `fopen` of a file that can be opened, with the message behind it
unfoldable pub open_file : Bytes → Io → Io
open_file file io =
    tell (debug (codes "opened %s") (file ∷ [])) (record io { streams = io.streams + 1 })

-- `fclose` gives the stream back even where it fails; `message` is the format for that.
unfoldable pub close_file : Disk → Bytes → Bytes → Io → Io
close_file disk message file io =
    let closed = record io { streams = io.streams - 1 } in
    if disk.closes file
    then tell (debug (codes "closed %s") (file ∷ [])) closed
    else tell (error message (file ∷ disk.strerror file ∷ [])) closed

-- `strdup`
unfoldable pub new_string : Io → Io
new_string io = record io { strings = io.strings + 1 }

-- `free`, if the pointer is not NULL
unfoldable pub free_string : Option Bytes → Io → Io
free_string none io = io
free_string (some s) io = record io { strings = io.strings - 1 }

-- The number of strings that a pointer owns
abbrev pub one : Option Bytes → ℕ
one none = 0
one (some s) = 1

-- What a run that opens a file, reads it and closes it leaves in the log if debugging is off: a message
-- if the file cannot be opened, or not be closed.
abbrev pub reported : Disk → Bytes → Bytes → Bytes → Log → Log
reported disk opening closing file log = elim (disk.files file) [
  | none ↦ error opening (file ∷ disk.strerror file ∷ []) log
  | some content ↦
      if disk.closes file then log else error closing (file ∷ disk.strerror file ∷ []) log
]

pub open_file-quiet : (file : Bytes) (io : Io) → IsQuiet io.log → (open_file file io).log ≡ io.log
unfolding open_file
open_file-quiet file io q = debug-quiet _ _ io.log q

pub open_file-keeps :
    (file : Bytes) (io : Io)
    → ((open_file file io).streams ≡ io.streams + 1) × ((open_file file io).strings ≡ io.strings)
unfolding open_file
open_file-keeps file io = (refl, refl)

-- Closing gives back the stream that opening takes, and no other, and keeps the strings.
pub close_file-streams :
    (disk : Disk) (message file : Bytes) (io : Io)
    → (close_file disk message file io).streams ≡ io.streams - 1
unfolding close_file
close_file-streams disk message file io = elim (Bool-cases (disk.closes file)) [
  | inl e ↦ rw e
  | inr e ↦ rw e
]

pub close_file-strings :
    (disk : Disk) (message file : Bytes) (io : Io)
    → (close_file disk message file io).strings ≡ io.strings
unfolding close_file
close_file-strings disk message file io = elim (Bool-cases (disk.closes file)) [
  | inl e ↦ rw e
  | inr e ↦ rw e
]

pub close_file-quiet :
    (disk : Disk) (message file : Bytes) (io : Io)
    → IsQuiet io.log
    → (close_file disk message file io).log
      ≡ (if disk.closes file then io.log else error message (file ∷ disk.strerror file ∷ []) io.log)
unfolding close_file
close_file-quiet disk message file io q = elim (Bool-cases (disk.closes file)) [
  | inl e ↦ rw e (debug-quiet _ _ io.log q)
  | inr e ↦ rw e
]
