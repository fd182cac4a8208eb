-- ===== src/Hosts/Lookup.antt =====
-- Which entry `gethostentry` of hosts.c finds.
use stonesh.Prelude.{
  ℕ, Bool, true, false, ◌&&◌, List, [], ◌∷◌, Option, none, some, ◌≡◌, ◌≢◌, ◌⊎◌, ◌↔◌, inl, inr, refl,
  sym, ap, Bytes, Bool-cases, &&-eq-true, ==_iff, ◌==◌, length, All,
}
use stonesh.Hosts.{
  HostEntry, line_room, colon, fill_entry, host_line, search_hosts, empty_entry, found, lookup_host,
  gethostentry,
}
use stonesh.Libc.{read_lines, strncmp, strsep}
use stonesh.Libc.Fields.{strncmp-eq_iff}
use stonesh.Readconf.File.{FileSystem}
use stonesh.Util.Clean.{content_of}

-- The line is not empty, and its first field is the host name, byte for byte.
abbrev pub Names : Bytes → Bytes → Type 0
Names hostname line = (content_of line ≢ []) × ((strsep (content_of line) colon).0 ≡ hostname)

-- `entry` is made from the first line that names the host.
pub data FirstLine (hostname : Bytes) (entry : HostEntry) : List Bytes → Type 0 where
  here :
      {line : Bytes} {lines : List Bytes}
      → Names hostname line
      → entry ≡ fill_entry hostname (strsep (content_of line) colon).1
      → FirstLine hostname entry (line ∷ lines)
  there :
      {line : Bytes} {lines : List Bytes}
      → ¬ Names hostname line
      → FirstLine hostname entry lines
      → FirstLine hostname entry (line ∷ lines)

same_name : (host hostname : Bytes) → Bool
same_name host hostname = length host == length hostname && strncmp host hostname (length hostname)

same_name_iff : (a b : Bytes) → (same_name a b ≡ true) ↔ (a ≡ b)
unfolding same_name
same_name_iff a b = (forth, back)
  where
    forth : same_name a b ≡ true → a ≡ b
    forth h =
        let (l, s) = &&-eq-true (length a == length b) _ h in
        (strncmp-eq_iff a b ((==_iff _ _).0 l)).0 s

    back : a ≡ b → same_name a b ≡ true
    back e =
        let l = ap (λ (x : Bytes). length x) e in rw ((==_iff _ _).1 l) ((strncmp-eq_iff a b l).1 e)

host_line_test :
    (hostname : Bytes) (c : ℕ) (s : Bytes)
    → ((strsep (c ∷ s) colon).0 ≡ hostname
        → host_line hostname (c ∷ s) ≡ some (fill_entry hostname (strsep (c ∷ s) colon).1))
      × ((strsep (c ∷ s) colon).0 ≢ hostname → host_line hostname (c ∷ s) ≡ none)
unfolding host_line same_name
host_line_test hostname c s = (equal, differs)
  where
    equal :
        (strsep (c ∷ s) colon).0 ≡ hostname
        → host_line hostname (c ∷ s) ≡ some (fill_entry hostname (strsep (c ∷ s) colon).1)
    equal e =
        rw ((same_name_iff (strsep (c ∷ s) colon).0 hostname).1 e)
          (ap (λ h. some (fill_entry h (strsep (c ∷ s) colon).1)) e)

    differs : (strsep (c ∷ s) colon).0 ≢ hostname → host_line hostname (c ∷ s) ≡ none
    differs n = elim (Bool-cases (same_name (strsep (c ∷ s) colon).0 hostname)) [
      | inl e ↦ absurd (n ((same_name_iff (strsep (c ∷ s) colon).0 hostname).0 e))
      | inr e ↦ rw e
    ]

-- What `host_line` answers, by cases.
host_line_cases :
    (hostname t : Bytes)
    → ((t ≢ [])
        × ((strsep t colon).0 ≡ hostname)
        × (host_line hostname t ≡ some (fill_entry hostname (strsep t colon).1)))
      ⊎ (¬ ((t ≢ []) × ((strsep t colon).0 ≡ hostname)) × (host_line hostname t ≡ none))
host_line_cases hostname [] = inr (λ h. h.0 refl, unfold host_line in refl)
host_line_cases hostname (c ∷ s) = elim (Bool-cases (same_name (strsep (c ∷ s) colon).0 hostname)) [
  | inl e ↦
      let n = (same_name_iff (strsep (c ∷ s) colon).0 hostname).0 e in
      inl (cons_ne, n, (host_line_test hostname c s).0 n)
  | inr e ↦ let n = not_same e in inr (λ h. n h.1, (host_line_test hostname c s).1 n)
]
  where
    cons_ne : c ∷ s ≢ []
    cons_ne = cc

    not_same :
        same_name (strsep (c ∷ s) colon).0 hostname ≡ false → (strsep (c ∷ s) colon).0 ≢ hostname
    not_same e k = let y = (same_name_iff (strsep (c ∷ s) colon).0 hostname).1 k in cc

-- The entry of a line that names the host.
pub host_line-entry :
    (hostname t : Bytes)
    → t ≢ []
    → (strsep t colon).0 ≡ hostname
    → host_line hostname t ≡ some (fill_entry hostname (strsep t colon).1)
host_line-entry hostname [] ne n = absurd (ne refl)
host_line-entry hostname (c ∷ s) ne n = (host_line_test hostname c s).0 n

-- A line of another host is passed over.
pub host_line-none :
    (hostname t : Bytes) → (strsep t colon).0 ≢ hostname → host_line hostname t ≡ none
host_line-none hostname t n = elim (host_line_cases hostname t) [
  | inl (_, m, _) ↦ absurd (n m)
  | inr (_, e) ↦ e
]

search_hosts-FirstLine :
    (hostname : Bytes) (lines : List Bytes) (entry : HostEntry)
    → search_hosts hostname lines ≡ some entry
    → FirstLine hostname entry lines
unfolding search_hosts
search_hosts-FirstLine hostname [] entry h = cc
search_hosts-FirstLine hostname (line ∷ lines) entry h =
    elim (host_line_cases hostname (content_of line)) [
      | inl (ne, n, e) ↦ here (ne, n) (made (rw (e, search_hosts) at h))
      | inr (n, e) ↦
          there n (search_hosts-FirstLine hostname lines entry (rw (e, search_hosts) at h))
    ]
  where
    made : {e : HostEntry} → some e ≡ some entry → entry ≡ e
    made k = cc

FirstLine-search_hosts :
    {hostname : Bytes} {entry : HostEntry} {lines : List Bytes}
    → FirstLine hostname entry lines
    → search_hosts hostname lines ≡ some entry
unfolding search_hosts
FirstLine-search_hosts {hostname} (here {line} {lines} n e) =
    elim (host_line_cases hostname (content_of line)) [
      | inl (_, _, f) ↦ rw (f, search_hosts) (ap some (sym e))
      | inr (no_name, f) ↦ absurd (no_name n)
    ]
FirstLine-search_hosts {hostname} (there {line} {lines} n r) =
    elim (host_line_cases hostname (content_of line)) [
      | inl (ne, m, f) ↦ absurd (n (ne, m))
      | inr (_, f) ↦ rw (f, search_hosts) (FirstLine-search_hosts r)
    ]

search_hosts-none :
    (hostname : Bytes) (lines : List Bytes)
    → search_hosts hostname lines ≡ none
    → All (λ line. ¬ Names hostname line) lines
unfolding search_hosts
search_hosts-none hostname [] h = tt
search_hosts-none hostname (line ∷ lines) h = elim (host_line_cases hostname (content_of line)) [
  | inl (_, _, e) ↦ cc (rw (e, search_hosts) at h)
  | inr (n, e) ↦ (n, search_hosts-none hostname lines (rw (e, search_hosts) at h))
]

none-search_hosts :
    (hostname : Bytes) (lines : List Bytes)
    → All (λ line. ¬ Names hostname line) lines
    → search_hosts hostname lines ≡ none
unfolding search_hosts
none-search_hosts hostname [] h = refl
none-search_hosts hostname (line ∷ lines) (n, ns) =
    elim (host_line_cases hostname (content_of line)) [
      | inl (ne, m, _) ↦ absurd (n (ne, m))
      | inr (_, e) ↦ rw (e, search_hosts) (none-search_hosts hostname lines ns)
    ]

found_iff :
    (r : Option HostEntry) (entry : HostEntry) → (found r ≡ (true, entry)) ↔ (r ≡ some entry)
found_iff none entry = (λ h. cc (ap (λ r. r.0) h), λ h. cc)
found_iff (some e) entry = (λ h. ap some (ap (λ r. r.1) h), λ h. ap found h)

not_found_iff : (r : Option HostEntry) → (found r ≡ (false, empty_entry)) ↔ (r ≡ none)
not_found_iff none = (λ h. refl, λ h. refl)
not_found_iff (some e) = (λ h. cc (ap (λ r. r.0) h), λ h. cc)

module _ (files : FileSystem) (hostname hosts_file content : Bytes) (he : HostEntry)
    (opened : files hosts_file ≡ some content) where
  opened_lookup :
      gethostentry files (some hostname) (some hosts_file) he
      ≡ found (search_hosts hostname (read_lines line_room content))
  unfolding gethostentry
  opened_lookup = rw opened (unfold lookup_host in refl)

  -- For a hosts file that can be opened, `entry` is returned exactly if it is made from the first
  -- line whose first field is the host name, byte for byte; and NULL is returned, with the static
  -- entry cleared, exactly if no line has it.
  pub gethostentry_iff :
      ((entry : HostEntry)
        → (gethostentry files (some hostname) (some hosts_file) he ≡ (true, entry))
          ↔ FirstLine hostname entry (read_lines line_room content))
      × ((gethostentry files (some hostname) (some hosts_file) he ≡ (false, empty_entry))
          ↔ All (λ line. ¬ Names hostname line) (read_lines line_room content))
  gethostentry_iff = rw opened_lookup (by_entry, by_none)
    where
      lines : List Bytes
      lines = read_lines line_room content

      by_entry :
          (entry : HostEntry)
          → (found (search_hosts hostname lines) ≡ (true, entry)) ↔ FirstLine hostname entry lines
      by_entry entry = (
        λ h. search_hosts-FirstLine hostname lines entry ((found_iff _ entry).0 h),
        λ r. (found_iff _ entry).1 (FirstLine-search_hosts r),
      )

      by_none :
          (found (search_hosts hostname lines) ≡ (false, empty_entry))
          ↔ All (λ line. ¬ Names hostname line) lines
      by_none = (
        λ h. search_hosts-none hostname lines ((not_found_iff _).0 h),
        λ r. (not_found_iff _).1 (none-search_hosts hostname lines r),
      )
