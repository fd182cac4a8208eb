-- ===== src/AuthLocal/Scans.antt =====
-- What the loop of `get_auth_file` in auth_local.c over a list of hosts decides.
use stonesh.Prelude.{
  Bool, true, false, not, ◌&&◌, List, [], ◌∷◌, Option, none, some, ℤ, pos, int_eq, int_eq_iff, ◌≡◌,
  ◌≢◌, ◌⊎◌, inl, inr, refl, subst, Bytes, Bool-cases, length, if◌then◌else◌,
}
use stonesh.AuthLocal.{
  auth_local_failure, auth_local_success, ends_plus, drop_last, scan_hosts, scan_field,
}
use stonesh.Hosts.{colon, next_field}
use stonesh.Libc.{c_str, strncasecmp, strsep, strtok_all}
use stonesh.Libc.Fields.{StartsFolded, strncasecmp-prefix_iff}
use stonesh.Util.{trim}

-- An entry of the list of hosts: its host, without the `+`, and whether it has one.
abbrev pub entry_host : Bytes → Bytes
entry_host token = if ends_plus (trim token) then drop_last (trim token) else trim token

abbrev pub entry_plus : Bytes → Bool
entry_plus token = ends_plus (trim token)

-- The first entry whose host starts with `host`, but for case, allows the access that is asked for:
-- any entry allows bastion access, and one with a `+` proxy access too.
pub data HostGrants (host : Bytes) (proxy : ℤ) : List Bytes → Type 0 where
  here :
      {token : Bytes} {tokens : List Bytes}
      → StartsFolded host (entry_host token)
      → (proxy ≡ pos 1 → entry_plus token ≡ true)
      → HostGrants host proxy (token ∷ tokens)
  later :
      {token : Bytes} {tokens : List Bytes}
      → ¬ StartsFolded host (entry_host token)
      → HostGrants host proxy tokens
      → HostGrants host proxy (token ∷ tokens)

-- A list of hosts, if there is one, grants the access.
abbrev pub FieldGrants : Bytes → ℤ → Option Bytes → Type 0
FieldGrants host proxy field =
    (hosts : Bytes) × (field ≡ some hosts) × HostGrants host proxy (strtok_all hosts (b',' ∷ []))

-- A text that is not empty grants access if its first field, trimmed, starts with `user`, but for
-- case, and its second grants it.
abbrev pub TextGrants : Bytes → Bytes → ℤ → Bytes → Type 0
TextGrants user host proxy s =
    (s ≢ [])
    × StartsFolded user (trim (strsep (trim s) colon).0)
    × FieldGrants host proxy (next_field (strsep (trim s) colon).1).0

-- A line of the users file, as `fgets` stores it.
abbrev pub LineGrants : Bytes → Bytes → ℤ → Bytes → Type 0
LineGrants user host proxy line = TextGrants user host proxy (c_str line)

-- What the loop over the hosts leaves if `can_proxy` is 0 in front of it: a failure leaves it 0.
abbrev pub Scanned : Type 0 → ℤ × Bool → Type 0
Scanned G r = (G × (r.0 ≡ auth_local_success)) ⊎ (¬ G × (r ≡ (auth_local_failure, false)))

allowed_cases :
    (plus : Bool) (proxy : ℤ)
    → ((proxy ≡ pos 1 → plus ≡ true)
        × ((not (if plus then true else false) && int_eq proxy (pos 1)) ≡ false))
      ⊎ (¬ (proxy ≡ pos 1 → plus ≡ true)
          × (plus ≡ false)
          × ((not (if plus then true else false) && int_eq proxy (pos 1)) ≡ true))
allowed_cases true proxy = inl (λ h. refl, refl)
allowed_cases false proxy = elim (Bool-cases (int_eq proxy (pos 1))) [
  | inl e ↦ let p = (int_eq_iff proxy (pos 1)).0 e in inr (λ f. cc (f p), refl, e)
  | inr e ↦ inl (λ p. cc ((int_eq_iff proxy (pos 1)).1 p), e)
]

module _ (host : Bytes) (proxy : ℤ) where
  no_token : ¬ HostGrants host proxy []
  no_token h = elim h [ ]

  pub first_entry :
      {token : Bytes} {tokens : List Bytes}
      → HostGrants host proxy (token ∷ tokens)
      → (StartsFolded host (entry_host token) × (proxy ≡ pos 1 → entry_plus token ≡ true))
        ⊎ (¬ StartsFolded host (entry_host token) × HostGrants host proxy tokens)
  first_entry (here s a) = inl (s, a)
  first_entry (later n g) = inr (n, g)

  decided :
      {token : Bytes} {tokens : List Bytes}
      → StartsFolded host (entry_host token)
      → ¬ (proxy ≡ pos 1 → entry_plus token ≡ true)
      → ¬ HostGrants host proxy (token ∷ tokens)
  decided starts refused g = elim (first_entry g) [
    | inl (_, allowed) ↦ refused allowed
    | inr (n, _) ↦ n starts
  ]

  misses :
      (token : Bytes)
      → strncasecmp host (entry_host token) (length host) ≡ false
      → ¬ StartsFolded host (entry_host token)
  misses token miss starts = let e = (strncasecmp-prefix_iff host (entry_host token)).1 starts in cc

  pass_on :
      {token : Bytes} {tokens : List Bytes} {r : ℤ × Bool}
      → ¬ StartsFolded host (entry_host token)
      → Scanned (HostGrants host proxy tokens) r
      → Scanned (HostGrants host proxy (token ∷ tokens)) r
  pass_on n (inl (g, e)) = inl (later n g, e)
  pass_on {token} {tokens} n (inr (no_grant, e)) = inr (not_later, e)
    where
      not_later : ¬ HostGrants host proxy (token ∷ tokens)
      not_later g = elim (first_entry g) [ inl (starts, _) ↦ n starts | inr (_, g') ↦ no_grant g' ]

  scan_hosts-Scanned :
      (tokens : List Bytes)
      → Scanned (HostGrants host proxy tokens) (scan_hosts host proxy tokens false)
  unfolding scan_hosts
  scan_hosts-Scanned [] = inr (no_token, refl)
  scan_hosts-Scanned (token ∷ tokens) =
      elim (Bool-cases (strncasecmp host (entry_host token) (length host))) [
        | inl match ↦
            let starts = (strncasecmp-prefix_iff host (entry_host token)).0 match in
            elim (allowed_cases (entry_plus token) proxy) [
              | inl (allowed, e) ↦ rw match (rw e (inl (here starts allowed, refl)))
              | inr (refused, plus, e) ↦ rw match (rw e (inr (decided starts refused, rw plus)))
            ]
        | inr miss ↦ rw miss (pass_on (misses token miss) (scan_hosts-Scanned tokens))
      ]

pub scan_field-Scanned :
    (host : Bytes) (proxy : ℤ) (field : Option Bytes)
    → Scanned (FieldGrants host proxy field) (scan_field host proxy field false)
unfolding scan_field
scan_field-Scanned host proxy none = inr (λ (hosts, e, _). cc, refl)
scan_field-Scanned host proxy (some hosts) =
    elim (scan_hosts-Scanned host proxy (strtok_all hosts (b',' ∷ []))) [
      | inl (g, e) ↦ inl ((hosts, refl, g), e)
      | inr (n, e) ↦ inr (λ (h, same, g). n (retarget h same g), e)
    ]
  where
    retarget :
        (h : Bytes)
        → some hosts ≡ some h
        → HostGrants host proxy (strtok_all h (b',' ∷ []))
        → HostGrants host proxy (strtok_all hosts (b',' ∷ []))
    retarget h same g =
        let e : h ≡ hosts = cc in subst (λ x. HostGrants host proxy (strtok_all x (b',' ∷ []))) e g
