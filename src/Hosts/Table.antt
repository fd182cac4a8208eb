-- ===== src/Hosts/Table.antt =====
-- A hosts file as a table: `gethostentry` of hosts.c against the look-up in a list of hosts.
use stonesh.Hosts.{
  HostEntry, line_room, colon, empty_entry, host_line, search_hosts, lookup_host, gethostentry,
  found,
}
use stonesh.Hosts.Format.{
  Lists, bare, with_port, with_countries, Lists-IsClean, Lists-fields, entry_of, host_line-Lists,
}
use stonesh.Hosts.Lookup.{host_line-none}
use stonesh.Libc.Rows.{with_newline, text_of, IsRow, read_lines-text_of}
use stonesh.Prelude.{
  subst, ◌<◌, Bool, true, false, List, [], ◌∷◌, ◌++◌, map, Option, none, some, ◌≡◌, ◌≢◌, inl, inr,
  refl, sym, ap, ◌∙◌, Bytes, codes, str_eq, str_eq_iff, All, Bool-cases, length, if◌then◌else◌,
}
use stonesh.Readconf.File.{FileSystem}
use stonesh.Util.Clean.{IsClean, IsField, content_of, clean_content, clean-Lacks_newline}

-- A host: its name, its port and the countries that it may be reached from.
pub data Details : Type 0 where
  plain : Details
  at_port : Bytes → Details
  from_countries : Bytes → Bytes → Details

pub record Host : Type 0 where
  pub name : Bytes
  pub details : Details

-- The row `name`, `name:port` or `name:port:countries`.
abbrev row : Bytes → Details → Bytes
row name plain = name
row name (at_port p) = name ++ colon ∷ p
row name (from_countries p cs) = name ++ colon ∷ (p ++ colon ∷ cs)

abbrev pub row_of : Host → Bytes
row_of h = row h.name h.details

abbrev pub port_of : Details → Bytes
port_of plain = codes "22"
port_of (at_port p) = p
port_of (from_countries p cs) = p

abbrev pub countries_of : Details → Bytes
countries_of plain = []
countries_of (at_port p) = []
countries_of (from_countries p cs) = cs

abbrev AreFields : Details → Type 0
AreFields plain = Unit
AreFields (at_port p) = IsField p
AreFields (from_countries p cs) = IsField p × IsField cs

-- Fields are not empty and hold no blank, colon or comment mark; the row fits into the buffer.
abbrev pub IsHost : Host → Type 0
IsHost h = IsField h.name × AreFields h.details × (length (row_of h) < line_room)

-- The table's own look-up: the first host of that name.
unfoldable pub find : Bytes → List Host → Option Host
find hostname [] = none
find hostname (h ∷ hosts) =
    let rest = find hostname hosts in if str_eq h.name hostname then some h else rest

-- What the program returns for the host that was found, and its static entry.
abbrev pub entry_for : Option Host → Bool × HostEntry
entry_for none = (false, empty_entry)
entry_for (some h) = (true, entry_of h.name (port_of h.details) (countries_of h.details))

details-Lists :
    (name : Bytes) (d : Details)
    → AreFields d
    → Lists name (row name d) (port_of d) (countries_of d)
details-Lists name plain h = bare
details-Lists name (at_port p) h = with_port h
details-Lists name (from_countries p cs) (h, k) = with_countries h k

module _ (h : Host) (ok_host : IsHost h) where
  host-Lists : Lists h.name (row_of h) (port_of h.details) (countries_of h.details)
  host-Lists = details-Lists h.name h.details ok_host.1

  host-IsClean : All IsClean (row_of h)
  host-IsClean = Lists-IsClean ok_host.0 host-Lists

  host-IsRow : IsRow line_room (row_of h)
  host-IsRow = (clean-Lacks_newline (row_of h) host-IsClean, ok_host.2)

  host_line-same :
      host_line h.name (content_of (with_newline (row_of h)))
      ≡ some (entry_of h.name (port_of h.details) (countries_of h.details))
  host_line-same = host_line-Lists h.name (row_of h) _ _ ok_host.0 host-Lists

  host_line-other :
      (hostname : Bytes)
      → h.name ≢ hostname
      → host_line hostname (content_of (with_newline (row_of h))) ≡ none
  host_line-other hostname n =
      rw (clean_content (row_of h) host-IsClean) (
        host_line-none hostname (row_of h) (λ e. n (sym (Lists-fields ok_host.0 host-Lists).0 ∙ e)))

rows-AreRows : (hosts : List Host) → All IsHost hosts → All (IsRow line_room) (map row_of hosts)
rows-AreRows [] hs = tt
rows-AreRows (h ∷ hosts) (ok_host, hs) = (host-IsRow h ok_host, rows-AreRows hosts hs)

search_hosts-find :
    (hostname : Bytes) (hosts : List Host)
    → All IsHost hosts
    → found (search_hosts hostname (map with_newline (map row_of hosts)))
      ≡ entry_for (find hostname hosts)
unfolding find search_hosts
search_hosts-find hostname [] hs = refl
search_hosts-find hostname (h ∷ hosts) (ok_host, hs) = elim (Bool-cases (str_eq h.name hostname)) [
  | inl e ↦
      let same = (str_eq_iff h.name hostname).0 e in
      let line : host_line hostname (content_of (with_newline (row_of h)))
          ≡ some (entry_of h.name (port_of h.details) (countries_of h.details)) =
        ap (λ n. host_line n (content_of (with_newline (row_of h)))) (sym same)
        ∙ host_line-same h ok_host in
      rw e (rw (line, search_hosts) refl)
  | inr e ↦
      let other : h.name ≢ hostname = λ k. let t = (str_eq_iff h.name hostname).1 k in cc in
      rw e (
        rw (host_line-other h ok_host hostname other, search_hosts)
          (search_hosts-find hostname hosts hs))
]

pub find-IsHost :
    (hostname : Bytes) (hosts : List Host) (h : Host)
    → All IsHost hosts
    → find hostname hosts ≡ some h
    → IsHost h
unfolding find
find-IsHost hostname [] h hs e = absurd cc
find-IsHost hostname (g ∷ hosts) h (ok_host, hs) e = elim (Bool-cases (str_eq g.name hostname)) [
  | inl t ↦ let same : g ≡ h = (let e' = rw t at e in cc) in subst IsHost same ok_host
  | inr t ↦ find-IsHost hostname hosts h hs (rw t at e)
]

-- On a hosts file that lists some hosts, row by row, `gethostentry` is the look-up in the list: it
-- returns the entry of the first host of the name that is sought, with port 22 and no countries
-- where the row gives none, and NULL, with the static entry cleared, if there is no such host.
-- The fields of the rows are not empty and hold no blank, colon or comment mark, and a row has
-- fewer than 1023 bytes.
pub gethostentry-find :
    (files : FileSystem) (hostname hosts_file : Bytes) (he : HostEntry) (hosts : List Host)
    → All IsHost hosts
    → files hosts_file ≡ some (text_of (map row_of hosts))
    → gethostentry files (some hostname) (some hosts_file) he ≡ entry_for (find hostname hosts)
unfolding gethostentry
gethostentry-find files hostname hosts_file he hosts hs opened = rw opened (
    unfold lookup_host in
    (ap (λ lines. found (search_hosts hostname lines))
        (read_lines-text_of line_room (map row_of hosts) (rows-AreRows hosts hs))
      ∙ search_hosts-find hostname hosts hs))
