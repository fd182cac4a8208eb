-- ===== src/Log/Messages.antt =====
-- What the functions of log.c write.
use stonesh.Libc.{format, format_from, plain, snprintf}
use stonesh.Log.{Log, tagged_format, message_text, send, do_log, notice, error, fatal, debug}
use stonesh.Prelude.{
  false, List, [], ◌∷◌, ◌++◌, append-nil, some, pos, int_eq, ◌≡◌, refl, ap, ◌∙◌, arith, Bytes,
  codes, length-append, take, take_short, ◌==◌, Lacks, if◌then◌else◌,
}

-- The tag, the message, and what the log is afterwards.
abbrev pub tagged : Bytes → Bytes → Bytes
tagged txt text = txt ++ (codes ": " ++ text)

-- Both sinks get the message, cut to 1023 bytes.
abbrev pub log_with : Bytes → Log → Log
log_with text log = record log {
  stderr =
      if int_eq log.log_to_stderr (pos 1)
      then log.stderr ++ (take 1023 text ++ codes "\r\n")
      else log.stderr;
  syslog = log.syslog ++ take 1023 text ∷ [];
}

-- The buffer for the format is large enough.
tagged_format-whole : (txt fmt : Bytes) → tagged_format txt fmt ≡ tagged txt fmt
unfolding tagged_format snprintf format
tagged_format-whole txt fmt =
    ap (take _) (ap (λ s. txt ++ (codes ": " ++ s)) (append-nil fmt))
    ∙ take_short _ (tagged txt fmt) (omega (arith, length-append txt (codes ": " ++ fmt)))

-- Text without conversions is written as it is.
format-plain :
    (text fmt : Bytes) (args : List Bytes)
    → Lacks b'%' text
    → format_from plain (text ++ fmt) args ≡ text ++ format_from plain fmt args
unfolding format_from
format-plain [] fmt args h = refl
format-plain (c ∷ text) fmt args (h, hs) =
    let e : (c == b'%') ≡ false = ground arith in
    rw (e, format_from) (ap (◌∷◌ c) (format-plain text fmt args hs))

format-tagged :
    (txt fmt : Bytes) (args : List Bytes)
    → Lacks b'%' txt
    → format (tagged txt fmt) args ≡ tagged txt (format fmt args)
unfolding format
format-tagged txt fmt args h =
    format-plain txt (codes ": " ++ fmt) args h
    ∙ ap (λ s. txt ++ s) (format-plain (codes ": ") fmt args (omega arith, (omega arith, tt)))

do_log-tagged :
    (txt fmt : Bytes) (args : List Bytes) (log : Log)
    → Lacks b'%' txt
    → do_log (some txt) fmt args log ≡ log_with (tagged txt (format fmt args)) log
unfolding do_log send message_text
do_log-tagged txt fmt args log h =
    ap (λ text. send text log)
      (unfold snprintf in
        ap (take 1023)
          (ap (λ f. format f args) (tagged_format-whole txt fmt) ∙ format-tagged txt fmt args h))

-- `notice`, `error` and `fatal` write their tag, a colon and the formatted text, cut to 1023 bytes, to
-- syslog, and with a line end to stderr too if logging to stderr is on; `fatal` exits with the
-- status 1; and `debug` does the same while debugging is on, and otherwise nothing.
pub log_levels :
    (fmt : Bytes) (args : List Bytes) (log : Log)
    → (notice fmt args log ≡ log_with (tagged (codes "notice") (format fmt args)) log)
      × (error fmt args log ≡ log_with (tagged (codes "error") (format fmt args)) log)
      × (fatal fmt args log ≡ (log_with (tagged (codes "fatal") (format fmt args)) log, pos 1))
      × (debug fmt args log ≡ (
          if int_eq log.debugging (pos 1)
          then log_with (tagged (codes "debug") (format fmt args)) log
          else log))
unfolding notice error fatal debug
log_levels fmt args log = (
  do_log-tagged (codes "notice") fmt args log (omega arith),
  do_log-tagged (codes "error") fmt args log (omega arith),
  ap (λ l. (l, pos 1)) (do_log-tagged (codes "fatal") fmt args log (omega arith)),
  ap (λ l. if int_eq log.debugging (pos 1) then l else log)
      (do_log-tagged (codes "debug") fmt args log (omega arith)),
)
