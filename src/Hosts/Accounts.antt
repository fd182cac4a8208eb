-- ===== src/Hosts/Accounts.antt =====
-- What `gethostentry` of hosts.c leaves behind: open files, strings and messages.
use stonesh.Log.Errors.{IsQuiet, debug-quiet}
use stonesh.Hosts.{HostEntry, line_room, host_line, search_hosts, found, lookup_host, gethostentry}
use stonesh.Hosts.Session.{
  Lookup, free_entry, copy_field, copy_entry, search_io, lookup_io, gethostentry_io,
}
use stonesh.Libc.{c_str, read_lines}
use stonesh.Prelude.{
  ℕ, ◌+◌, ◌-◌, Bool, List, [], ◌∷◌, Option, none, some, Bytes, codes, ◌≡◌, inl, inr, refl, ap, ◌∙◌,
  arith, Option-cases, if◌then◌else◌,
}
use stonesh.Log.{error}
use stonesh.Streams.{
  one, Disk, Io, open_file, new_string, free_string, reported, open_file-quiet, close_file-streams,
  close_file-strings, close_file-quiet,
}
use stonesh.Util.{trim}

-- The number of strings that an entry holds.
abbrev pub held : HostEntry → ℕ
held he = one he.host + (one he.port + one he.countries)

free_string-strings : (s : Option Bytes) (io : Io) → (free_string s io).strings ≡ io.strings - one s
unfolding free_string
free_string-strings none io = omega arith
free_string-strings (some s) io = refl

free_string-rest :
    (s : Option Bytes) (io : Io)
    → ((free_string s io).streams ≡ io.streams) × ((free_string s io).log ≡ io.log)
unfolding free_string
free_string-rest none io = (refl, refl)
free_string-rest (some s) io = (refl, refl)

copy_field-strings :
    (message : Bytes) (s : Option Bytes) (io : Io)
    → ((copy_field message s io).strings ≡ io.strings + one s)
      × ((copy_field message s io).streams ≡ io.streams)
unfolding copy_field new_string
copy_field-strings message none io = (omega arith, refl)
copy_field-strings message (some s) io = (refl, refl)

copy_field-quiet :
    (message : Bytes) (s : Option Bytes) (io : Io)
    → IsQuiet io.log
    → (copy_field message s io).log ≡ io.log
unfolding copy_field new_string
copy_field-quiet message none io q = refl
copy_field-quiet message (some s) io q = debug-quiet _ _ io.log q

module _ (he : HostEntry) (io : Io) where
  free_entry-strings : (free_entry he io).strings ≡ io.strings - held he
  unfolding free_entry
  free_entry-strings =
      let a = free_string-strings he.host io in
      let b = free_string-strings he.port (free_string he.host io) in
      let c = free_string-strings he.countries (free_string he.port (free_string he.host io)) in
      omega arith

  free_entry-streams : (free_entry he io).streams ≡ io.streams
  unfolding free_entry
  free_entry-streams =
      (free_string-rest he.countries _).0
      ∙ ((free_string-rest he.port _).0 ∙ (free_string-rest he.host io).0)

  free_entry-log : (free_entry he io).log ≡ io.log
  unfolding free_entry
  free_entry-log =
      (free_string-rest he.countries _).1
      ∙ ((free_string-rest he.port _).1 ∙ (free_string-rest he.host io).1)

  copy_entry-strings : (copy_entry he io).strings ≡ io.strings + held he
  unfolding copy_entry
  copy_entry-strings =
      (copy_field-strings _ he.countries _).0
      ∙ (ap (λ n. n + one he.countries)
            ((copy_field-strings _ he.port _).0
              ∙ ap (λ n. n + one he.port) (copy_field-strings _ he.host io).0)
          ∙ omega arith)

  copy_entry-streams : (copy_entry he io).streams ≡ io.streams
  unfolding copy_entry
  copy_entry-streams =
      (copy_field-strings _ he.countries _).1
      ∙ ((copy_field-strings _ he.port _).1 ∙ (copy_field-strings _ he.host io).1)

  copy_entry-quiet : IsQuiet io.log → (copy_entry he io).log ≡ io.log
  unfolding copy_entry
  copy_entry-quiet q =
      let first = copy_field-quiet (codes "host = '%s'") he.host io q in
      let second = copy_field-quiet (codes "port = '%s'") he.port _ (rw first q) ∙ first in
      copy_field-quiet _ he.countries _ (rw second q) ∙ second

-- A run that leaves `r`, where the function returns `result`: it leaves as many streams open as there
-- were, and but for `n` strings those of the entry.
abbrev pub Accounts : Io → ℕ → Bool × HostEntry → Lookup → Type 0
Accounts io n result r =
    ((r.returned, r.entry) ≡ result)
    × (r.io.streams ≡ io.streams)
    × (r.io.strings ≡ n + held r.entry)

abbrev closing : Bytes
closing = codes "unable to close hosts file '%s': %s"

module _ (disk : Disk) (hostname hosts_file : Bytes) where
  search_io-Accounts :
      (lines : List Bytes) (before io : Io) (n : ℕ)
      → io.streams ≡ before.streams + 1
      → io.strings ≡ n
      → Accounts before n
          (found (search_hosts hostname lines))
          (search_io disk hostname hosts_file lines io)
  unfolding search_io search_hosts
  search_io-Accounts [] before io n opened owned =
      let s = close_file-streams disk closing hosts_file io in
      let t = close_file-strings disk closing hosts_file io in (refl, omega arith, omega arith)
  search_io-Accounts (line ∷ lines) before io n opened owned =
      elim (Option-cases (host_line hostname (trim (c_str line)))) [
        | inl e ↦
            rw (e, search_io, search_hosts) (search_io-Accounts lines before io n opened owned)
        | inr (entry, e) ↦
            let s = close_file-streams disk closing hosts_file (copy_entry entry io) in
            let t = close_file-strings disk closing hosts_file (copy_entry entry io) in
            let s' = copy_entry-streams entry io in
            let t' = copy_entry-strings entry io in
            rw (e, search_io, search_hosts) (refl, omega arith, omega arith)
      ]

  search_io-quiet :
      (lines : List Bytes) (io : Io)
      → IsQuiet io.log
      → (search_io disk hostname hosts_file lines io).io.log ≡ (
          if disk.closes hosts_file
          then io.log
          else error closing (hosts_file ∷ disk.strerror hosts_file ∷ []) io.log)
  unfolding search_io
  search_io-quiet [] io q = close_file-quiet disk closing hosts_file io q
  search_io-quiet (line ∷ lines) io q =
      elim (Option-cases (host_line hostname (trim (c_str line)))) [
        | inl e ↦ rw (e, search_io) (search_io-quiet lines io q)
        | inr (entry, e) ↦
            let same = copy_entry-quiet entry io q in
            rw (e, search_io)
              (close_file-quiet disk closing hosts_file (copy_entry entry io) (rw same q)
                ∙ ap
                    (λ log.
                      if disk.closes hosts_file
                      then log
                      else error closing (hosts_file ∷ disk.strerror hosts_file ∷ []) log)
                    same)
      ]

-- With its files, strings and messages, `gethostentry` returns and leaves what it does in the model
-- without them; it closes the file that it opens, on each way out; and of the strings that are
-- allocated it frees those that it replaces, so that the only new ones are those of the entry.
pub gethostentry_io-Accounts :
    (disk : Disk) (hostname hosts_file : Option Bytes) (he : HostEntry) (io : Io) (n : ℕ)
    → io.strings ≡ n + held he
    → Accounts io n
        (gethostentry disk.files hostname hosts_file he)
        (gethostentry_io disk hostname hosts_file he io)
unfolding gethostentry gethostentry_io
gethostentry_io-Accounts disk none hosts_file he io n owned = (refl, refl, owned)
gethostentry_io-Accounts disk (some hostname) none he io n owned = (refl, refl, owned)
gethostentry_io-Accounts disk (some hostname) (some hosts_file) he io n owned =
    elim (Option-cases (disk.files hosts_file)) [
      | inl e ↦ rw e (
          unfold lookup_io lookup_host in
          (refl, free_entry-streams he io, omega (arith, free_entry-strings he io, owned)))
      | inr (content, e) ↦ rw e (
          unfold lookup_io lookup_host open_file in
          search_io-Accounts disk hostname hosts_file (read_lines line_room content) io _ n
            (omega (arith, free_entry-streams he io))
            (omega (arith, free_entry-strings he io, owned)))
    ]

-- With debugging off, `gethostentry` logs only that the hosts file cannot be opened, or not be closed.
pub gethostentry_io-quiet :
    (disk : Disk) (hostname hosts_file : Bytes) (he : HostEntry) (io : Io)
    → IsQuiet io.log
    → (gethostentry_io disk (some hostname) (some hosts_file) he io).io.log
      ≡ reported disk (codes "unable to open hosts file '%s': %s") closing hosts_file io.log
unfolding gethostentry_io
gethostentry_io-quiet disk hostname hosts_file he io q =
    let freed = free_entry-log he io in
    elim (Option-cases (disk.files hosts_file)) [
      | inl e ↦ rw (e, reported) (unfold lookup_io in rw freed)
      | inr (content, e) ↦
          rw (e, reported)
            (unfold lookup_io in
              let opened = open_file-quiet hosts_file (free_entry he io) (rw freed q) ∙ freed in
              search_io-quiet disk hostname hosts_file (read_lines line_room content)
                (open_file hosts_file (free_entry he io)) (rw opened q)
              ∙ rw opened refl)
    ]
