-- ===== src/Libc/Fields.antt =====
-- Laws of the functions that split and compare strings.
use stonesh.Prelude.{
  ℕ, zero, suc, ◌≤◌, Bool, true, false, not, List, [], ◌∷◌, ◌++◌, none, some, map, ◌≡◌, ◌≢◌, ◌↔◌,
  refl, sym, ap, ap₂, arith, Bytes, ◌==◌, &&-eq-true, ==_iff, Lacks, All, length, length-append,
  take_while, drop_while,
}
use stonesh.Libc.Ctype.{tolower}
use stonesh.Libc.Text.{c_str, strncmp, strncasecmp, one_of, strsep, strtok, strtok_loop, strtok_all}

pub c_str-Lacks : (s : Bytes) → Lacks 0 s → c_str s ≡ s
unfolding c_str
c_str-Lacks [] h = refl
c_str-Lacks (c ∷ s) (h, hs) = ground (arith, c_str-Lacks s hs)

pub c_str-Lacks_nul : (s : Bytes) → Lacks 0 (c_str s)
unfolding c_str
c_str-Lacks_nul [] = tt
c_str-Lacks_nul (c ∷ s) = ground (arith, c_str-Lacks_nul s)

pub strsep-found :
    (w : Bytes) (d : ℕ) (rest : Bytes) → Lacks d w → strsep (w ++ d ∷ rest) d ≡ (w, some rest)
unfolding strsep
strsep-found [] d rest h = ground arith
strsep-found (c ∷ w) d rest (h, hs) = ground (arith, strsep-found w d rest hs)

pub strsep-none : (w : Bytes) (d : ℕ) → Lacks d w → strsep w d ≡ (w, none)
unfolding strsep
strsep-none [] d h = refl
strsep-none (c ∷ w) d (h, hs) = ground (arith, strsep-none w d hs)

-- Between strings of one length `strncmp` over that length is equality.
pub strncmp-eq_iff : (a b : Bytes) → length a ≡ length b → (strncmp a b (length b) ≡ true) ↔ (a ≡ b)
unfolding strncmp
strncmp-eq_iff [] [] h = ground arith
strncmp-eq_iff (x ∷ a) (y ∷ b) h = ground (arith, strncmp-eq_iff a b (omega arith))
strncmp-eq_iff [] (y ∷ b) h = absurd (omega arith)
strncmp-eq_iff (x ∷ a) [] h = absurd (omega arith)

-- `b` starts with `a`, but for the case of letters.
abbrev pub StartsFolded : Bytes → Bytes → Type 0
StartsFolded a b = (rest : Bytes) × (map tolower b ≡ map tolower a ++ rest)

-- `b` starts with `a`.
abbrev pub StartsWith : Bytes → Bytes → Type 0
StartsWith a b = (rest : Bytes) × (b ≡ a ++ rest)

cons_path : (x y : ℕ) (a b : Bytes) → x ∷ a ≡ y ∷ b → (x ≡ y) × (a ≡ b)
cons_path x y a b h = (cc, cc)

folded-StartsFolded : (a b : Bytes) → strncasecmp a b (length a) ≡ true → StartsFolded a b
unfolding strncasecmp
folded-StartsFolded [] b h = (map tolower b, refl)
folded-StartsFolded (x ∷ a) [] h = cc
folded-StartsFolded (x ∷ a) (y ∷ b) h =
    let (same, more) = &&-eq-true (tolower x == tolower y) _ h in
    let (rest, e) = folded-StartsFolded a b more in
    (rest, ap₂ ◌∷◌ (sym ((==_iff (tolower x) (tolower y)).0 same)) e)

StartsFolded-folded : (a b : Bytes) → StartsFolded a b → strncasecmp a b (length a) ≡ true
unfolding strncasecmp
StartsFolded-folded [] b h = refl
StartsFolded-folded (x ∷ a) [] (rest, e) = cc
StartsFolded-folded (x ∷ a) (y ∷ b) (rest, e) =
    let (same, more) = cons_path (tolower y) (tolower x) _ _ e in
    rw ((==_iff (tolower x) (tolower y)).1 (sym same)) (StartsFolded-folded a b (rest, more))

-- `strncasecmp` over the length of `a` tests for a prefix, but for the case of letters.
pub strncasecmp-prefix_iff : (a b : Bytes) → (strncasecmp a b (length a) ≡ true) ↔ StartsFolded a b
strncasecmp-prefix_iff a b = (folded-StartsFolded a b, StartsFolded-folded a b)

starts-StartsWith : (a b : Bytes) → strncmp a b (length a) ≡ true → StartsWith a b
unfolding strncmp
starts-StartsWith [] b h = (b, refl)
starts-StartsWith (x ∷ a) [] h = cc
starts-StartsWith (x ∷ a) (y ∷ b) h =
    let (same, more) = &&-eq-true (x == y) _ h in
    let (rest, e) = starts-StartsWith a b more in (rest, ap₂ ◌∷◌ (sym ((==_iff x y).0 same)) e)

StartsWith-starts : (a b : Bytes) → StartsWith a b → strncmp a b (length a) ≡ true
unfolding strncmp
StartsWith-starts [] b h = refl
StartsWith-starts (x ∷ a) [] (rest, e) = cc
StartsWith-starts (x ∷ a) (y ∷ b) (rest, e) =
    let (same, more) = cons_path y x _ _ e in
    rw ((==_iff x y).1 (sym same)) (StartsWith-starts a b (rest, more))

-- `strncmp` over the length of `a` tests for a prefix.
pub strncmp-prefix_iff : (a b : Bytes) → (strncmp a b (length a) ≡ true) ↔ StartsWith a b
strncmp-prefix_iff a b = (starts-StartsWith a b, StartsWith-starts a b)

-- The strings with the byte `d` between them.
abbrev pub join : ℕ → List Bytes → Bytes
join d [] = []
join d (w ∷ []) = w
join d (w ∷ v ∷ ws) = w ++ d ∷ join d (v ∷ ws)

-- A string that `strtok` finds between delimiters `d`.
abbrev pub IsToken : ℕ → Bytes → Type 0
IsToken d w = (w ≢ []) × Lacks d w

module _ (d : ℕ) where
  abbrev others : ℕ → Bool
  others x = not (one_of (d ∷ []) x)

  one_of_self : one_of (d ∷ []) d ≡ true
  unfolding one_of
  one_of_self = ground arith

  one_of_other : (c : ℕ) → c ≢ d → one_of (d ∷ []) c ≡ false
  unfolding one_of
  one_of_other c h = ground arith

  take_token : (w rest : Bytes) → Lacks d w → take_while others (w ++ d ∷ rest) ≡ w
  take_token [] rest h = rw one_of_self
  take_token (c ∷ w) rest (h, hs) = rw (one_of_other c h) (ap (◌∷◌ c) (take_token w rest hs))

  drop_token : (w rest : Bytes) → Lacks d w → drop_while others (w ++ d ∷ rest) ≡ d ∷ rest
  drop_token [] rest h = rw one_of_self
  drop_token (c ∷ w) rest (h, hs) = rw (one_of_other c h) (drop_token w rest hs)

  take_last : (w : Bytes) → Lacks d w → take_while others w ≡ w
  take_last [] h = refl
  take_last (c ∷ w) (h, hs) = rw (one_of_other c h) (ap (◌∷◌ c) (take_last w hs))

  drop_last_token : (w : Bytes) → Lacks d w → drop_while others w ≡ []
  drop_last_token [] h = refl
  drop_last_token (c ∷ w) (h, hs) = rw (one_of_other c h) (drop_last_token w hs)

  strtok_token : (w rest : Bytes) → IsToken d w → strtok (w ++ d ∷ rest) (d ∷ []) ≡ some (w, rest)
  unfolding strtok
  strtok_token [] rest (ne, h) = absurd (ne refl)
  strtok_token (c ∷ w) rest (ne, h) =
      rw (one_of_other c h.0)
        (rw (one_of_other c h.0) (rw (take_token w rest h.1, drop_token w rest h.1)))

  strtok_last : (w : Bytes) → IsToken d w → strtok w (d ∷ []) ≡ some (w, [])
  unfolding strtok
  strtok_last [] (ne, h) = absurd (ne refl)
  strtok_last (c ∷ w) (ne, h) =
      rw (one_of_other c h.0)
        (rw (one_of_other c h.0) (rw (take_last w h.1, drop_last_token w h.1)))

  strtok_loop-nil : (fuel : ℕ) → strtok_loop fuel [] (d ∷ []) ≡ []
  unfolding strtok_loop
  strtok_loop-nil zero = refl
  strtok_loop-nil (suc fuel) = refl

  strtok_loop-join :
      (fuel : ℕ) (ws : List Bytes)
      → All (IsToken d) ws
      → length ws ≤ fuel
      → strtok_loop fuel (join d ws) (d ∷ []) ≡ ws
  unfolding strtok_loop
  strtok_loop-join fuel [] h l = strtok_loop-nil fuel
  strtok_loop-join zero (w ∷ ws) h l = absurd (omega arith)
  strtok_loop-join (suc fuel) (w ∷ []) (h, hs) l =
      rw (strtok_last w h, strtok_loop) (ap (◌∷◌ w) (strtok_loop-nil fuel))
  strtok_loop-join (suc fuel) (w ∷ v ∷ ws) (h, hs) l =
      rw (strtok_token w (join d (v ∷ ws)) h, strtok_loop)
        (ap (◌∷◌ w) (strtok_loop-join fuel (v ∷ ws) hs (omega arith)))

  length-token : (w : Bytes) → IsToken d w → 1 ≤ length w
  length-token [] (ne, h) = absurd (ne refl)
  length-token (c ∷ w) h = omega arith

  length-join : (ws : List Bytes) → All (IsToken d) ws → length ws ≤ length (join d ws)
  length-join [] h = omega arith
  length-join (w ∷ []) (h, hs) = length-token w h
  length-join (w ∷ v ∷ ws) (h, hs) =
      omega
        (arith, length-append w (d ∷ join d (v ∷ ws)), length-token w h, length-join (v ∷ ws) hs)

  -- `strtok` finds the strings that were joined, if each is a token.
  pub strtok_all-join :
      (ws : List Bytes) → All (IsToken d) ws → strtok_all (join d ws) (d ∷ []) ≡ ws
  strtok_all-join ws h = unfold strtok_all in strtok_loop-join _ ws h (length-join ws h)
