-- ===== src/Log/Errors.antt =====
-- The log of log.c with debugging off.
use stonesh.Log.{Log, error, debug, do_log, send}
use stonesh.Prelude.{List, false, pos, int_eq, Bytes, ◌≡◌}

-- Debugging is off.
abbrev pub IsQuiet : Log → Type 0
IsQuiet log = int_eq log.debugging (pos 1) ≡ false

pub debug-quiet :
    (fmt : Bytes) (args : List Bytes) (log : Log) → IsQuiet log → debug fmt args log ≡ log
unfolding debug
debug-quiet fmt args log q = rw q

pub error-IsQuiet :
    (fmt : Bytes) (args : List Bytes) (log : Log) → IsQuiet log → IsQuiet (error fmt args log)
unfolding error do_log send
error-IsQuiet fmt args log q = q

-- One message more, of the level "error".
abbrev pub HasError : Log → Log → Type 0
HasError log log' = (fmt : Bytes) × (args : List Bytes) × (log' ≡ error fmt args log)
