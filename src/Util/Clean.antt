-- ===== src/Util/Clean.antt =====
-- Strings without blanks, comment marks and NUL, which `trim` of util.c leaves as they are.
use stonesh.Prelude.{
  ℕ, false, [], ◌∷◌, ◌++◌, ◌≡◌, ◌≢◌, refl, ap, ◌∙◌, arith, Bytes, All, All-append, Lacks,
}
use stonesh.Libc.{c_str, is_space}
use stonesh.Libc.Fields.{c_str-Lacks}
use stonesh.Util.{trim}
use stonesh.Util.Trim.{IsCStr, IsTrimmed, NoMark, StartsClean, EndsClean, trim_of_IsTrimmed}
use stonesh.Util.Unique.{trim_newline}

abbrev pub IsClean : ℕ → Type 0
IsClean c = (is_space c ≡ false) × (c ≢ b'#') × (c ≢ 0)

-- A line as the program looks at it: without its comment and outer blanks.
abbrev pub content_of : Bytes → Bytes
content_of line = trim (c_str line)

pub clean-IsCStr : (w : Bytes) → All IsClean w → IsCStr w
clean-IsCStr [] h = tt
clean-IsCStr (c ∷ w) (h, hs) = (h.2, clean-IsCStr w hs)

pub clean-NoMark : (w : Bytes) → All IsClean w → NoMark w
clean-NoMark [] h = tt
clean-NoMark (c ∷ w) (h, hs) = (h.1, clean-NoMark w hs)

pub clean-StartsClean : (w : Bytes) → All IsClean w → StartsClean w
clean-StartsClean [] h = tt
clean-StartsClean (c ∷ w) (h, hs) = h.0

pub clean-EndsClean : (w : Bytes) → All IsClean w → EndsClean w
clean-EndsClean [] h = tt
clean-EndsClean (c ∷ []) (h, hs) = h.0
clean-EndsClean (c ∷ d ∷ w) (h, hs) = clean-EndsClean (d ∷ w) hs

pub clean-IsTrimmed : (w : Bytes) → All IsClean w → IsTrimmed w
clean-IsTrimmed w h = record {
  no_mark = clean-NoMark w h;
  starts = clean-StartsClean w h;
  ends = clean-EndsClean w h;
}

pub clean_trim : (w : Bytes) → All IsClean w → trim w ≡ w
clean_trim w h = trim_of_IsTrimmed w (clean-IsCStr w h) (clean-IsTrimmed w h)

-- The newline goes, and the rest stays.
pub clean_content : (w : Bytes) → All IsClean w → content_of (w ++ b'\n' ∷ []) ≡ w
clean_content w h =
    ap trim (c_str-Lacks (w ++ b'\n' ∷ []) (All-append _ w _ (clean-IsCStr w h) (omega arith, tt)))
    ∙ trim_newline w (clean-IsTrimmed w h) (clean-IsCStr w h)

-- A byte of a field of the hosts file or the users file: clean, and no `:`.
abbrev pub IsFieldByte : ℕ → Type 0
IsFieldByte c = IsClean c × (c ≢ b':')

abbrev pub IsField : Bytes → Type 0
IsField w = (w ≢ []) × All IsFieldByte w

pub field-IsClean : (w : Bytes) → All IsFieldByte w → All IsClean w
field-IsClean [] h = tt
field-IsClean (c ∷ w) (h, hs) = (h.0, field-IsClean w hs)

pub field-Lacks : (w : Bytes) → All IsFieldByte w → All (λ c. c ≢ b':') w
field-Lacks [] h = tt
field-Lacks (c ∷ w) (h, hs) = (h.1, field-Lacks w hs)

pub colon-IsClean : IsClean b':'
unfolding is_space
colon-IsClean = (refl, omega arith, omega arith)

pub clean-Lacks_newline : (w : Bytes) → All IsClean w → Lacks b'\n' w
unfolding is_space
clean-Lacks_newline [] h = tt
clean-Lacks_newline (c ∷ w) (h, hs) = (ground (arith, h.0), clean-Lacks_newline w hs)
