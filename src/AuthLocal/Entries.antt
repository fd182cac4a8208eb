-- ===== src/AuthLocal/Entries.antt =====
-- The entries of a line of the users file, as auth_local.c reads them: hosts with or without a `+`.
use stonesh.Prelude.{
  ℕ, Bool, true, false, List, [], ◌∷◌, ◌++◌, map, ℤ, pos, ◌≡◌, ◌≢◌, refl, ap, arith, Bytes, All,
  All-append, append-ne-nil, if◌then◌else◌,
}
use stonesh.AuthLocal.{ends_plus, drop_last}
use stonesh.AuthLocal.Scans.{entry_host, entry_plus}
use stonesh.Hosts.{colon}
use stonesh.Libc.{is_space}
use stonesh.Libc.Fields.{StartsFolded, join, IsToken}
use stonesh.Util.Clean.{IsFieldByte, clean_trim, field-IsClean}

-- A host with its permission for proxy access.
pub record Entry : Type 0 where
  pub name : Bytes
  pub plus : Bool

abbrev pub encode : Entry → Bytes
encode e = if e.plus then e.name ++ b'+' ∷ [] else e.name

-- A byte of a host name in the users file.
abbrev pub IsHostByte : ℕ → Type 0
IsHostByte c = IsFieldByte c × (c ≢ b',') × (c ≢ b'+')

abbrev pub IsEntry : Entry → Type 0
IsEntry e = (e.name ≢ []) × All IsHostByte e.name

-- The first entry whose name starts with `host`, but for case, allows the access.
pub data Allows (host : Bytes) (proxy : ℤ) : List Entry → Type 0 where
  allowed :
      {e : Entry} {es : List Entry}
      → StartsFolded host e.name
      → (proxy ≡ pos 1 → e.plus ≡ true)
      → Allows host proxy (e ∷ es)
  skipped :
      {e : Entry} {es : List Entry}
      → ¬ StartsFolded host e.name
      → Allows host proxy es
      → Allows host proxy (e ∷ es)

abbrev pub users_line : Bytes → List Entry → Bytes
users_line user es = user ++ colon ∷ join b',' (map encode es)

plus_byte : IsFieldByte b'+' × ◌≢◌ {A = ℕ} b'+' b','
unfolding is_space
plus_byte = (((refl, omega arith, omega arith), omega arith), omega arith)

host-field : (w : Bytes) → All IsHostByte w → All IsFieldByte w
host-field [] h = tt
host-field (c ∷ w) (h, hs) = (h.0, host-field w hs)

host-comma : (w : Bytes) → All IsHostByte w → All (λ c. c ≢ b',') w
host-comma [] h = tt
host-comma (c ∷ w) (h, hs) = (h.1, host-comma w hs)

ends_plus_none : (w : Bytes) → All IsHostByte w → ends_plus w ≡ false
ends_plus_none [] h = refl
ends_plus_none (c ∷ []) (h, hs) = ground (arith, h.2)
ends_plus_none (c ∷ d ∷ w) (h, hs) = ends_plus_none (d ∷ w) hs

ends_plus_at : (w : Bytes) → ends_plus (w ++ b'+' ∷ []) ≡ true
ends_plus_at [] = refl
ends_plus_at (c ∷ []) = refl
ends_plus_at (c ∷ d ∷ w) = ends_plus_at (d ∷ w)

drop_last_at : (w : Bytes) → drop_last (w ++ b'+' ∷ []) ≡ w
drop_last_at [] = refl
drop_last_at (c ∷ []) = refl
drop_last_at (c ∷ d ∷ w) = ap (◌∷◌ c) (drop_last_at (d ∷ w))

module _ (w : Bytes) (h : All IsHostByte w) where
  plain_entry : (entry_host w ≡ w) × (entry_plus w ≡ false)
  plain_entry =
      rw (clean_trim w (field-IsClean w (host-field w h))) (rw (ends_plus_none w h) (refl, refl))

  plus_clean : All IsFieldByte (w ++ b'+' ∷ [])
  plus_clean = All-append IsFieldByte w _ (host-field w h) (plus_byte.0, tt)

  plus_entry : (entry_host (w ++ b'+' ∷ []) ≡ w) × (entry_plus (w ++ b'+' ∷ []) ≡ true)
  plus_entry =
      rw (clean_trim _ (field-IsClean _ plus_clean))
        (rw (ends_plus_at w, drop_last_at w) (refl, refl))

pub encode-entry :
    (n : Bytes) (p : Bool)
    → All IsHostByte n
    → (entry_host (encode (record { name = n; plus = p })) ≡ n)
      × (entry_plus (encode (record { name = n; plus = p })) ≡ p)
encode-entry n true h = plus_entry n h
encode-entry n false h = plain_entry n h

encode-token :
    (n : Bytes) (p : Bool)
    → n ≢ []
    → All IsHostByte n
    → IsToken b',' (encode (record { name = n; plus = p }))
encode-token n true ne h = (
  append-ne-nil n (b'+' ∷ []) ne,
  All-append (λ c. c ≢ b',') n _ (host-comma n h) (plus_byte.1, tt),
)
encode-token n false ne h = (ne, host-comma n h)

encode_clean :
    (n : Bytes) (p : Bool)
    → All IsHostByte n
    → All IsFieldByte (encode (record { name = n; plus = p }))
encode_clean n true h = plus_clean n h
encode_clean n false h = host-field n h

pub tokens : (es : List Entry) → All IsEntry es → All (IsToken b',') (map encode es)
tokens [] h = tt
tokens (e ∷ es) (h, hs) = (encode-token e.name e.plus h.0 h.1, tokens es hs)

comma_field : IsFieldByte b','
unfolding is_space
comma_field = ((refl, omega arith, omega arith), omega arith)

pub join_fields : (es : List Entry) → All IsEntry es → All IsFieldByte (join b',' (map encode es))
join_fields [] h = tt
join_fields (e ∷ []) (h, hs) = encode_clean e.name e.plus h.1
join_fields (e ∷ f ∷ es) (h, hs) =
    All-append IsFieldByte (encode e) _ (encode_clean e.name e.plus h.1)
      (comma_field, join_fields (f ∷ es) hs)
