-- ===== src/Readconf/Session/Rounds.antt =====
-- The loop of `read_config_file` in readconf.c over the lines, with its messages and its strings, and
-- without.
use stonesh.Log.Errors.{HasError, IsQuiet, error-IsQuiet}
use stonesh.Libc.{c_str, decimal}
use stonesh.Log.{Log, error}
use stonesh.Prelude.{
  ℕ, ◌+◌, ◌<◌, ◌≡◌, ◌⊎◌, true, false, List, [], ◌∷◌, some, ℤ, pos, minus_one, int_eq, int_eq_iff,
  ok, Agrees, both, bind-Agrees, Agrees-weaken, Bytes, codes, inl, inr, refl, ◌∙◌, arith,
  Bool-cases, if◌then◌else◌,
}
use stonesh.Readconf.File.{read_options}
use stonesh.Readconf.Options.{Options}
use stonesh.Readconf.Session.Books.{held_settings, IsBooked, IsTold}
use stonesh.Readconf.Session.Lines.{process_config_line_io-Agrees}
use stonesh.Readconf.Session.Opcodes.{LeavesResult}
use stonesh.Readconf.Session.Reading.{read_options_io}
use stonesh.Streams.{Disk, Io}

-- The log behind `fclose`
abbrev pub closed_log : Disk → Bytes → Log → Log
closed_log disk filename log =
    if disk.closes filename
    then log
    else error (codes "unable to close '%s': %s") (filename ∷ disk.strerror filename ∷ []) log

-- What goes with the result: nothing but the failure of `fclose` if the file is accepted, and otherwise
-- an error as the last message.
abbrev pub IsReported : Disk → Bytes → ℤ → Log → Log → Type 0
IsReported disk filename status log log' =
    ((status ≡ pos 1) × (log' ≡ closed_log disk filename log))
    ⊎ ((status ≡ pos 0) × ((log_before : Log) × HasError log_before log'))

-- Without a bad option more, the log is as it was.
abbrev pub IsCounted : ℕ → Log → ℕ → Log → Type 0
IsCounted bad log bad' log' = ((bad' ≡ bad) × (log' ≡ log)) ⊎ (bad < bad')

abbrev pub LeavesCount : ℕ → Io → ℕ → Options × ℕ → Io → Type 0
LeavesCount n before bad r io =
    IsBooked n before r.0 io × (IsQuiet before.log → IsCounted bad before.log r.1 io.log)

-- A line, and then others.
counted :
    (bad : ℕ) (status : ℤ) (bad' : ℕ) (log log' log'' : Log)
    → IsQuiet log
    → IsTold status log log'
    → (IsQuiet log' → IsCounted (if int_eq status (pos 0) then bad else bad + 1) log' bad' log'')
    → IsCounted bad log bad' log''
counted bad status bad' log log' log'' q (inl (accepted, same)) more =
    let same_status : int_eq status (pos 0) ≡ true = (int_eq_iff status (pos 0)).1 accepted in
    let rest = rw same_status at more (rw same q) in
    elim rest [ inl (e, e') ↦ inl (e, e' ∙ same) | inr less ↦ inr less ]
counted bad status bad' log log' log'' q (inr (rejected, (fmt, args, e))) more =
    let other : int_eq status (pos 0) ≡ false = not_zero (Bool-cases (int_eq status (pos 0))) in
    let rest = rw other at more (rw e (error-IsQuiet fmt args log q)) in
    elim rest [ inl (e', same) ↦ inr (omega arith) | inr less ↦ inr (omega arith) ]
  where
    not_zero :
        (int_eq status (pos 0) ≡ true) ⊎ (int_eq status (pos 0) ≡ false)
        → int_eq status (pos 0) ≡ false
    not_zero (inl zero) = absurd (rejected ((int_eq_iff status (pos 0)).0 zero))
    not_zero (inr nonzero) = nonzero

pub read_options_io-Agrees :
    (n : ℕ) (filename : Bytes) (linenum : ℕ) (lines : List Bytes) (o : Options) (bad : ℕ) (io : Io)
    → io.strings ≡ n + held_settings o
    → Agrees
        (LeavesCount n io bad)
        (read_options lines o bad)
        (read_options_io filename linenum lines o bad io)
unfolding read_options read_options_io
read_options_io-Agrees n filename linenum [] o bad io owned =
    both ((refl, owned), λ q. inl (refl, refl))
read_options_io-Agrees n filename linenum (line ∷ lines) o bad io owned =
    bind-Agrees _ _
      (process_config_line_io-Agrees n (filename ∷ decimal (pos (linenum + 1)) ∷ []) o (c_str line)
        (some (pos 1)) io owned)
      (λ r io' leaves. next r io' leaves (
        read_options_io-Agrees n filename (linenum + 1) lines r.0
          (if int_eq r.1 (pos 0) then bad else bad + 1) io' leaves.0.1))
  where
    next :
        (r : Options × ℤ) (io' : Io)
        → LeavesResult n io r io'
        → Agrees
            (LeavesCount n io' (if int_eq r.1 (pos 0) then bad else bad + 1))
            (read_options lines r.0 (if int_eq r.1 (pos 0) then bad else bad + 1))
            (read_options_io filename
              (linenum + 1)
              lines
              r.0
              (if int_eq r.1 (pos 0) then bad else bad + 1)
              io')
        → Agrees
            (LeavesCount n io bad)
            (if int_eq r.1 minus_one
              then ok (r.0, bad + 1)
              else read_options lines r.0 (if int_eq r.1 (pos 0) then bad else bad + 1))
            (if int_eq r.1 minus_one
              then ok ((r.0, bad + 1), io')
              else read_options_io filename
                  (linenum + 1)
                  lines
                  r.0
                  (if int_eq r.1 (pos 0) then bad else bad + 1)
                  io')
    next r io' ((streams, strings), told) more = elim (Bool-cases (int_eq r.1 minus_one)) [
      | inl e ↦ rw e (both ((streams, strings), λ q. inr (omega arith)))
      | inr e ↦ rw e (
          Agrees-weaken
            (λ r' io'' ((streams', strings'), count). (
              (streams' ∙ streams, strings'),
              λ q. counted bad r.1 r'.1 io.log io'.log io''.log q (told q) count,
            ))
            more)
    ]
