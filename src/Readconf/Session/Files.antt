-- ===== src/Readconf/Session/Files.antt =====
-- `read_config_file` of readconf.c, with its messages, its file and its strings, and without.
use stonesh.Log.Errors.{IsQuiet}
use stonesh.Libc.{read_lines}
use stonesh.Log.{error}
use stonesh.Prelude.{
  ℕ, ◌+◌, ◌-◌, ◌≡◌, ltb, List, none, some, ℤ, pos, Agrees, both, bind-Agrees, Agrees-weaken, forget,
  forget-Agrees, Safe, Safe-Agrees, Bytes, inl, inr, refl, ap, sym, ◌∙◌, arith, Bool-cases,
  Option-cases,
}
use stonesh.Readconf.File.{config_room, finish_options, read_opened, read_config_file}
use stonesh.Readconf.Options.{Options, initialize_options, free_options, fill_default_options}
use stonesh.Readconf.Session.Books.{held_settings, IsBooked}
use stonesh.Readconf.Session.Counts.{
  free_strings-strings, fill_strings-strings, free_options-held, settings_of-total,
  initialize_options-held, fill_default_options-held,
}
use stonesh.Readconf.Session.Reading.{
  settings_of, defaulted, free_strings, fill_strings, close_config, finish_options_io,
  read_opened_io, read_config_file_io,
}
use stonesh.Streams.{Disk, Io, tell}
use stonesh.Readconf.Session.Rounds.{
  closed_log, IsReported, IsCounted, LeavesCount, read_options_io-Agrees,
}

close_config-counts :
    (disk : Disk) (filename : Bytes) (io : Io)
    → ((close_config disk filename io).streams ≡ io.streams - 1)
      × ((close_config disk filename io).strings ≡ io.strings)
      × ((close_config disk filename io).log ≡ closed_log disk filename io.log)
unfolding close_config
close_config-counts disk filename io = elim (Bool-cases (disk.closes filename)) [
  | inl e ↦ rw e (refl, refl, refl)
  | inr e ↦ rw e (refl, refl, refl)
]

abbrev LeavesFile : Disk → Bytes → ℕ → Io → Options × ℤ → Io → Type 0
LeavesFile disk filename n before r io =
    IsBooked n before r.0 io × (IsQuiet before.log → IsReported disk filename r.1 before.log io.log)

module _ (disk : Disk) (filename : Bytes) (n : ℕ) (before io : Io) (o : Options)
    (streams : io.streams ≡ before.streams + 1) (strings : io.strings ≡ n + held_settings o) where
  refused :
      (fmt : Bytes) (args : List Bytes)
      → LeavesFile disk filename n before
          (free_options o, pos 0)
          (free_strings (settings_of o) (tell (error fmt args) (close_config disk filename io)))
  refused fmt args =
      let (closed, kept, _) = close_config-counts disk filename io in
      let told = tell (error fmt args) (close_config disk filename io) in
      let (less, same, log) = free_strings-strings (settings_of o) told in
      let none_left = free_options-held o in
      let all = settings_of-total o in
      (
        (omega (arith, same, closed, streams), omega (arith, less, kept, strings, none_left, all)),
        λ q. inr (refl, (_, (_, _, log))),
      )

  accepted :
      (IsQuiet before.log → io.log ≡ before.log)
      → LeavesFile disk filename n before
          (fill_default_options o, pos 1)
          (fill_strings (defaulted o) (close_config disk filename io))
  accepted unchanged =
      let (closed, kept, logged) = close_config-counts disk filename io in
      let (more, same, log) = fill_strings-strings (defaulted o) (close_config disk filename io) in
      let full = fill_default_options-held o in
      (
        (omega (arith, same, closed, streams), omega (arith, more, kept, strings, full)),
        λ q. inl (refl, log ∙ (logged ∙ ap (closed_log disk filename) (unchanged q))),
      )

finished :
    (disk : Disk) (filename : Bytes) (n : ℕ) (before opened : Io) (r : Options × ℕ) (io : Io)
    → opened.streams ≡ before.streams + 1
    → opened.log ≡ before.log
    → LeavesCount n opened 0 r io
    → LeavesFile disk filename n before
        (finish_options_io disk filename r io).0
        (finish_options_io disk filename r io).1
unfolding finish_options_io
finished disk filename n before opened (o, bad) io extra same ((streams, strings), told) =
    elim (Bool-cases (ltb 0 bad)) [
      | inl e ↦ rw e (refused disk filename n before io o (streams ∙ extra) strings _ _)
      | inr e ↦
          let none_bad : bad ≡ 0 = ground arith in
          rw e (
            accepted disk filename n before io o (streams ∙ extra) strings
              (λ q. silent none_bad (told (rw same q))))
    ]
  where
    silent : bad ≡ 0 → IsCounted 0 opened.log bad io.log → io.log ≡ before.log
    silent none_bad (inl (e, unchanged)) = unchanged ∙ same
    silent none_bad (inr less) = absurd (omega arith)

finish_options_io-result :
    (disk : Disk) (filename : Bytes) (r : Options × ℕ) (io : Io)
    → (finish_options_io disk filename r io).0 ≡ finish_options r
unfolding finish_options_io finish_options
finish_options_io-result disk filename (o, bad) io = elim (Bool-cases (ltb 0 bad)) [
  | inl e ↦ rw e refl
  | inr e ↦ rw e refl
]

read_config_file_io-Agrees :
    (disk : Disk) (filename : Bytes) (n : ℕ) (o : Options) (io : Io)
    → held_settings o ≡ 0
    → io.strings ≡ n
    → Agrees
        (LeavesFile disk filename n io)
        (read_config_file disk.files filename o)
        (read_config_file_io disk filename o io)
unfolding read_config_file read_config_file_io
read_config_file_io-Agrees disk filename n o io clear owned =
    elim (Option-cases (disk.files filename)) [
      | inl e ↦ rw e not_opened
      | inr (content, e) ↦ rw e (on_lines content)
    ]
  where
    not_opened :
        Agrees
          (LeavesFile disk filename n io)
          (read_opened none o)
          (read_opened_io disk filename none o io)
    not_opened =
        unfold read_opened read_opened_io in
        let (less, same, log) = free_strings-strings (settings_of o) io in
        let balanced : (free_strings (settings_of o) io).strings
            ≡ n + held_settings (free_options o) =
          omega (arith, less, owned, clear, free_options-held o, settings_of-total o) in
        both ((same, balanced), λ q. inr (refl, (_, (_, _, refl))))

    opened : Io
    opened = record io { streams = io.streams + 1 }

    on_lines :
        (content : Bytes)
        → Agrees
            (LeavesFile disk filename n io)
            (read_opened (some content) o)
            (read_opened_io disk filename (some content) o io)
    on_lines content =
        unfold read_opened read_opened_io in
        bind-Agrees _ _
          (read_options_io-Agrees n filename 0 (read_lines config_room content)
            (initialize_options o) 0 opened (omega (arith, owned, initialize_options-held o)))
          (λ r io' leaves.
            rw (sym (finish_options_io-result disk filename r io'))
              (both (finished disk filename n io opened r io' refl refl leaves)))

-- With its messages, its file and its strings, `read_config_file` does what it does in the model
-- without them, on options that hold no string; and if it returns, it leaves as many streams open as
-- there were, and of the strings that it allocates those of the options are left.
pub read_config_file_io-books :
    (disk : Disk) (filename : Bytes) (n : ℕ) (o : Options) (io : Io)
    → held_settings o ≡ 0
    → io.strings ≡ n
    → (forget (read_config_file_io disk filename o io) ≡ read_config_file disk.files filename o)
      × Safe (λ r. IsBooked n io r.0.0 r.1) (read_config_file_io disk filename o io)
read_config_file_io-books disk filename n o io clear owned =
    let agrees = read_config_file_io-Agrees disk filename n o io clear owned in
    (
      forget-Agrees agrees,
      Safe-Agrees
          (Agrees-weaken {Q = λ r io'. IsBooked n io r.0 io'} (λ r io' leaves. leaves.0) agrees),
    )

-- With debugging off, and on options that hold no string, a file that is accepted adds nothing to the
-- log but a failure of `fclose`, and behind one that is not accepted the last message is an error,
-- if reading returns.
pub read_config_file_io-IsReported :
    (disk : Disk) (filename : Bytes) (n : ℕ) (o : Options) (io : Io)
    → held_settings o ≡ 0
    → io.strings ≡ n
    → IsQuiet io.log
    → Safe
        (λ r. IsReported disk filename r.0.1 io.log r.1.log)
        (read_config_file_io disk filename o io)
read_config_file_io-IsReported disk filename n o io clear owned q = Safe-Agrees (
    Agrees-weaken {Q = λ r io'. IsReported disk filename r.1 io.log io'.log}
      (λ r io' (booked, told). told q)
      (read_config_file_io-Agrees disk filename n o io clear owned))
