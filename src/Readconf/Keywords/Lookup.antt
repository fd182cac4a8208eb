-- ===== src/Readconf/Keywords/Lookup.antt =====
-- `parse_token` of readconf.c against its table.
use stonesh.Prelude.{
  true, List, [], ◌∷◌, ◌≡◌, ◌≢◌, ◌↔◌, inl, inr, refl, sym, ◌∙◌, arith, Bytes, All, Any, Bool-cases,
}
use stonesh.Libc.{strcasecmp, tolower}
use stonesh.Readconf.Keywords.{OpCode, o_bad_option, keywords, find_keyword, parse_token}

-- Strings that differ in case alone compare alike with every other.
strcasecmp_congr : (a b n : Bytes) → strcasecmp a b ≡ true → strcasecmp a n ≡ strcasecmp b n
unfolding strcasecmp
strcasecmp_congr [] [] n h = refl
strcasecmp_congr (x ∷ a) (y ∷ b) [] h = refl
strcasecmp_congr (x ∷ a) (y ∷ b) (z ∷ n) h = ground (arith, strcasecmp_congr a b n)
strcasecmp_congr [] (y ∷ b) n h = cc
strcasecmp_congr (x ∷ a) [] n h = cc

find_keyword_congr :
    (a b : Bytes) (table : List (Bytes × OpCode))
    → strcasecmp a b ≡ true
    → find_keyword a table ≡ find_keyword b table
unfolding find_keyword
find_keyword_congr a b [] h = refl
find_keyword_congr a b ((name, opcode) ∷ table) h =
    rw (strcasecmp_congr a b name h, find_keyword_congr a b table h)

-- Each name of the table finds its own opcode.
table_distinct : All (λ k. parse_token k.0 ≡ k.1) keywords
unfolding parse_token find_keyword strcasecmp tolower
table_distinct = (
  refl,
  (
    refl,
    (
      refl,
      (
        refl,
        (
          refl,
          (
            refl,
            (
              refl,
              (
                refl,
                (refl, (refl, (refl, (refl, (refl, (refl, (refl, (refl, (refl, (refl, tt)))))))))),
              ),
            ),
          ),
        ),
      ),
    ),
  ),
)

table_found :
    (cp : Bytes) (table : List (Bytes × OpCode))
    → All (λ k. parse_token k.0 ≡ k.1) table
    → All (λ k. strcasecmp cp k.0 ≡ true → parse_token cp ≡ k.1) table
table_found cp [] h = tt
table_found cp ((name, opcode) ∷ table) (h, hs) = (
  (λ e. unfold parse_token in find_keyword_congr cp name keywords e ∙ h),
  table_found cp table hs,
)

-- Some entry of the table has a name that `cp` spells in some case, and this opcode.
abbrev pub Listed : Bytes → OpCode → List (Bytes × OpCode) → Type 0
Listed cp opcode = Any (λ k. (strcasecmp cp k.0 ≡ true) × (k.1 ≡ opcode))

find_keyword_sound :
    (cp : Bytes) (opcode : OpCode) (table : List (Bytes × OpCode))
    → opcode ≢ o_bad_option
    → find_keyword cp table ≡ opcode
    → Listed cp opcode table
unfolding find_keyword
find_keyword_sound cp opcode [] ne h = ne (sym h)
find_keyword_sound cp opcode ((name, code) ∷ table) ne h = elim (Bool-cases (strcasecmp cp name)) [
  | inl e ↦ inl (e, rw e at h)
  | inr e ↦ inr (find_keyword_sound cp opcode table ne (rw e at h))
]

Listed-found :
    (cp : Bytes) (opcode : OpCode) (table : List (Bytes × OpCode))
    → All (λ k. strcasecmp cp k.0 ≡ true → parse_token cp ≡ k.1) table
    → Listed cp opcode table
    → parse_token cp ≡ opcode
Listed-found cp opcode [] h l = absurd l
Listed-found cp opcode (k ∷ table) (h, hs) (inl (e, m)) = h e ∙ m
Listed-found cp opcode (k ∷ table) (h, hs) (inr l) = Listed-found cp opcode table hs l

-- A word is read as an opcode exactly when the table has an entry with that opcode whose name is the
-- word, in whatever case. The opcode is not that of a bad option.
pub parse_token_iff :
    (cp : Bytes) (opcode : OpCode)
    → opcode ≢ o_bad_option
    → (parse_token cp ≡ opcode) ↔ Listed cp opcode keywords
parse_token_iff cp opcode ne = (
  λ h. find_keyword_sound cp opcode keywords ne (unfold parse_token in h),
  Listed-found cp opcode keywords (table_found cp keywords table_distinct),
)
