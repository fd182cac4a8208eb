-- ===== src/Log.antt =====
-- log.c: the messages of the program. Memory is assumed to be granted. The variable arguments are given
-- by their texts.
pub mod Messages
pub mod Errors
use stonesh.Libc.{snprintf}
use stonesh.Prelude.{
  ℕ, ◌+◌, List, [], ◌∷◌, ◌++◌, Option, none, some, ℤ, pos, int_eq, Bytes, codes, length,
  if◌then◌else◌,
}

-- The two variables of the file, what was written to stderr, and the messages that syslog was given.
pub record Log : Type 0 where
  pub log_to_stderr : ℤ
  pub debugging : ℤ
  pub stderr : Bytes
  pub syslog : List Bytes

-- LOG_BUF_LEN
abbrev pub log_buf_len : ℕ
log_buf_len = 1024

-- `fmtbuf`: the tag in front of the format.
unfoldable pub tagged_format : Bytes → Bytes → Bytes
tagged_format txt fmt = snprintf (length txt + length fmt + 3) (codes "%s: %s") (txt ∷ fmt ∷ [])

-- `msgbuf`
unfoldable pub message_text : Option Bytes → Bytes → List Bytes → Bytes
message_text none fmt args = snprintf log_buf_len fmt args
message_text (some txt) fmt args = snprintf log_buf_len (tagged_format txt fmt) args

-- The message goes to stderr, if that is asked for, and to syslog.
unfoldable pub send : Bytes → Log → Log
send msgbuf log = record log {
  stderr =
      if int_eq log.log_to_stderr (pos 1)
      then log.stderr ++ (msgbuf ++ codes "\r\n")
      else log.stderr;
  syslog = log.syslog ++ msgbuf ∷ [];
}

unfoldable pub do_log : Option Bytes → Bytes → List Bytes → Log → Log
do_log txt fmt args log = send (message_text txt fmt args) log

unfoldable pub notice : Bytes → List Bytes → Log → Log
notice fmt args log = do_log (some (codes "notice")) fmt args log

unfoldable pub error : Bytes → List Bytes → Log → Log
error fmt args log = do_log (some (codes "error")) fmt args log

-- The log, and the status of the `exit` that follows.
unfoldable pub fatal : Bytes → List Bytes → Log → Log × ℤ
fatal fmt args log = (do_log (some (codes "fatal")) fmt args log, pos 1)

unfoldable pub debug : Bytes → List Bytes → Log → Log
debug fmt args log =
    if int_eq log.debugging (pos 1) then do_log (some (codes "debug")) fmt args log else log

-- The signals: those that stonesh.c catches, and any other, by the digits of its number.
pub data Signal : Type 0 where
  sigint sigterm : Signal
  other_signal : Bytes → Signal

abbrev pub signal_name : Signal → Bytes
signal_name sigint = codes "SIGINT"
signal_name sigterm = codes "SIGTERM"
signal_name (other_signal digits) = codes "UNKNOWN"

abbrev pub signal_digits : Signal → Bytes
signal_digits sigint = codes "2"
signal_digits sigterm = codes "15"
signal_digits (other_signal digits) = digits

-- `catch_signal` of stonesh.c
unfoldable pub catch_signal : Signal → Log → Log × ℤ
catch_signal sigval log =
    fatal (codes "caught signal %s (%d), exiting") (signal_name sigval ∷ signal_digits sigval ∷ [])
      log

-- The signals that `main` registers it for.
abbrev caught_signals : List Signal
caught_signals = sigint ∷ sigterm ∷ []
