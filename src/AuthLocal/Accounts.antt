-- ===== src/AuthLocal/Accounts.antt =====
-- What `get_auth_file` of auth_local.c leaves behind: open files and messages.
use stonesh.Log.Errors.{IsQuiet, debug-quiet}
use stonesh.AuthLocal.{scan_line, scan_users, auth_lines, get_auth_file, auth_local_failure}
use stonesh.AuthLocal.Session.{
  tell_hosts, scan_line_io, scan_users_io, closing, auth_lines_io, get_auth_file_io,
}
use stonesh.Hosts.{line_room, colon, next_field}
use stonesh.Libc.{c_str, read_lines, strncasecmp, strsep}
use stonesh.Log.{error}
use stonesh.Prelude.{
  Bool, false, List, [], ◌∷◌, Option, none, some, ℤ, int_eq, Bytes, codes, length, ◌≡◌, inl, inr,
  refl, ap, sym, ◌∙◌, arith, Bool-cases, Option-cases, if◌then◌else◌,
}
use stonesh.Streams.{
  Disk, Io, open_file, reported, open_file-quiet, open_file-keeps, close_file-streams,
  close_file-strings, close_file-quiet,
}
use stonesh.Util.{trim}

-- A run that returns what it does without its messages, and keeps the streams, the strings, and the log
-- if debugging is off.
abbrev Keeps {ℓ} : {A : Type ℓ} → A → Io → A × Io → Type ℓ
Keeps result io r =
    (r.0 ≡ result)
    × (r.1.streams ≡ io.streams)
    × (r.1.strings ≡ io.strings)
    × (IsQuiet io.log → r.1.log ≡ io.log)

unmoved {ℓ} : {A : Type ℓ} (a : A) (io : Io) → Keeps a io (a, io)
unmoved a io = (refl, refl, refl, λ q. refl)

tell_hosts-Keeps {ℓ} :
    {A : Type ℓ} (a : A) (hosts : Option Bytes) (io : Io) → Keeps a io (a, tell_hosts hosts io)
unfolding tell_hosts
tell_hosts-Keeps a none io = unmoved a io
tell_hosts-Keeps a (some hosts) io = (refl, refl, refl, λ q. debug-quiet _ _ io.log q)

module _ (user host : Bytes) (proxy : ℤ) where
  scan_line_io-Keeps :
      (s : Bytes) (can_proxy : Bool) (io : Io)
      → Keeps
          (scan_line user host proxy s can_proxy)
          io
          (scan_line_io user host proxy s can_proxy io)
  unfolding scan_line scan_line_io
  scan_line_io-Keeps [] can_proxy io = unmoved _ io
  scan_line_io-Keeps (c ∷ s) can_proxy io =
      elim (Bool-cases (strncasecmp user (trim (strsep (trim (c ∷ s)) colon).0) (length user))) [
        | inl e ↦ rw e (tell_hosts-Keeps _ (next_field (strsep (trim (c ∷ s)) colon).1).0 io)
        | inr e ↦ rw e (unmoved _ io)
      ]

  scan_users_io-Keeps :
      (lines : List Bytes) (can_proxy : Bool) (io : Io)
      → Keeps
          (scan_users user host proxy lines can_proxy)
          io
          (scan_users_io user host proxy lines can_proxy io)
  unfolding scan_users scan_users_io
  scan_users_io-Keeps [] can_proxy io = unmoved _ io
  scan_users_io-Keeps (line ∷ lines) can_proxy io =
      let r = scan_line_io user host proxy (c_str line) can_proxy io in
      let (same, streams, strings, quiet) = scan_line_io-Keeps (c_str line) can_proxy io in
      let (later, streams', strings', quiet') = scan_users_io-Keeps lines r.0.1 r.1 in
      rw (sym same) (elim (Bool-cases (int_eq r.0.0 auth_local_failure)) [
        | inl e ↦
            rw e (
              later,
              streams' ∙ streams,
              strings' ∙ strings,
              λ q. quiet' (rw (quiet q) q) ∙ quiet q,
            )
        | inr e ↦ rw e (refl, streams, strings, quiet)
      ])

-- On a file that can be opened.
opened-Keeps :
    (disk : Disk) (user host file content : Bytes) (proxy : ℤ) (io : Io)
    → ((auth_lines_io disk user host file proxy (some content) io).0
        ≡ auth_lines user host proxy (some content))
      × ((auth_lines_io disk user host file proxy (some content) io).1.streams ≡ io.streams)
      × ((auth_lines_io disk user host file proxy (some content) io).1.strings ≡ io.strings)
      × (IsQuiet io.log
          → (auth_lines_io disk user host file proxy (some content) io).1.log ≡ (
              if disk.closes file
              then io.log
              else error closing (file ∷ disk.strerror file ∷ []) io.log))
unfolding auth_lines_io auth_lines
opened-Keeps disk user host file content proxy io =
    let opened = open_file-keeps file io in
    let (same, streams, strings, quiet) = kept in
    (
      ap (λ auth. record { auth = auth; user = some (trim user); host = some (trim host) }) same,
      omega (arith, close_file-streams disk closing file run, streams, opened.0),
      close_file-strings disk closing file run ∙ (strings ∙ opened.1),
      λ q.
          let before = open_file-quiet file io q in
          let after = quiet (rw before q) ∙ before in
          close_file-quiet disk closing file run (rw after q)
          ∙ ap
              (λ log.
                if disk.closes file
                then log
                else error closing (file ∷ disk.strerror file ∷ []) log)
              after,
    )
  where
    lines : List Bytes
    lines = read_lines line_room content

    run : Io
    run = (scan_users_io (trim user) (trim host) proxy lines false (open_file file io)).1

    kept :
        Keeps
          (scan_users (trim user) (trim host) proxy lines false)
          (open_file file io)
          (scan_users_io (trim user) (trim host) proxy lines false (open_file file io))
    kept = scan_users_io-Keeps (trim user) (trim host) proxy lines false (open_file file io)

get_auth_file_io-opened :
    (disk : Disk) (user host file : Bytes) (proxy : ℤ) (io : Io)
    → ((get_auth_file_io disk (some user) (some host) (some file) proxy io).0
        ≡ get_auth_file disk.files (some user) (some host) (some file) proxy)
      × ((get_auth_file_io disk (some user) (some host) (some file) proxy io).1.streams
          ≡ io.streams)
      × ((get_auth_file_io disk (some user) (some host) (some file) proxy io).1.strings
          ≡ io.strings)
      × (IsQuiet io.log
          → (get_auth_file_io disk (some user) (some host) (some file) proxy io).1.log
            ≡ reported disk (codes "unable to open file '%s': %s") closing file io.log)
unfolding get_auth_file get_auth_file_io
get_auth_file_io-opened disk user host file proxy io = elim (Option-cases (disk.files file)) [
  | inl e ↦ rw (e, reported) (unfold auth_lines_io auth_lines in (refl, refl, refl, λ q. refl))
  | inr (content, e) ↦ rw (e, reported) (opened-Keeps disk user host file content proxy io)
]

-- With its file and its messages, `get_auth_file` returns what it does in the model without them, and
-- leaves as many streams open and strings allocated as there were: the file that it opens is closed
-- on each way out.
pub get_auth_file_io-closes :
    (disk : Disk) (user host file : Option Bytes) (proxy : ℤ) (io : Io)
    → ((get_auth_file_io disk user host file proxy io).0
        ≡ get_auth_file disk.files user host file proxy)
      × ((get_auth_file_io disk user host file proxy io).1.streams ≡ io.streams)
      × ((get_auth_file_io disk user host file proxy io).1.strings ≡ io.strings)
unfolding get_auth_file get_auth_file_io
get_auth_file_io-closes disk none host file proxy io = (refl, refl, refl)
get_auth_file_io-closes disk (some user) none file proxy io = (refl, refl, refl)
get_auth_file_io-closes disk (some user) (some host) none proxy io = (refl, refl, refl)
get_auth_file_io-closes disk (some user) (some host) (some file) proxy io =
    let (same, streams, strings, quiet) = get_auth_file_io-opened disk user host file proxy io in
    (same, streams, strings)

-- With debugging off, `get_auth_file` logs, for arguments that are not NULL, only that the users file
-- cannot be opened, or not be closed.
pub get_auth_file_io-quiet :
    (disk : Disk) (user host file : Bytes) (proxy : ℤ) (io : Io)
    → IsQuiet io.log
    → (get_auth_file_io disk (some user) (some host) (some file) proxy io).1.log
      ≡ reported disk (codes "unable to open file '%s': %s") closing file io.log
get_auth_file_io-quiet disk user host file proxy io q =
    let (same, streams, strings, quiet) = get_auth_file_io-opened disk user host file proxy io in
    quiet q
