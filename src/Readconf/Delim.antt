-- ===== src/Readconf/Delim.antt =====
-- `strdelim` of readconf.c: the next word of a configuration line. The pointer `*s` is an `Option`.
pub mod Words
pub mod Values
use stonesh.Prelude.{
  Bool, not, ◌&&◌, [], ◌∷◌, ◌++◌, Option, none, some, Bytes, ◌==◌, if◌then◌else◌, take_while,
  drop_while,
}
use stonesh.Libc.{one_of, strpbrk}
use stonesh.Util.{trim}

abbrev pub whitespace : Bytes
whitespace = b' ' ∷ b'\t' ∷ b'\r' ∷ b'\n' ∷ []

-- WHITESPACE QUOTE "="
abbrev pub delimiters : Bytes
delimiters = whitespace ++ b'"' ∷ b'=' ∷ []

-- `*s += strspn(*s + 1, WHITESPACE) + 1`, on what stands behind `*s`
unfoldable pub skip_blank : Bytes → Bytes
skip_blank = drop_while (one_of whitespace)

-- Behind the opening quote: the word goes on to the next quote.
unfoldable pub quoted_word : Bytes → Bytes → Option Bytes × Option Bytes
quoted_word before s = elim (strpbrk s (b'"' ∷ [])) [
  | none ↦ (none, none)
  | some [] ↦ (none, none)
  | some (c ∷ rest) ↦ (some (before ++ take_while (λ x. not (x == b'"')) s), some (skip_blank rest))
]

-- Only one `=` may be skipped; the flag is `wspace`.
unfoldable pub skip_equals : Bool → Bytes → Bytes
skip_equals wspace [] = []
skip_equals wspace (c ∷ s) = if c == b'=' && not wspace then skip_blank s else c ∷ s

-- On the trimmed string.
unfoldable pub split_word : Bytes → Option Bytes × Option Bytes
split_word old = elim (strpbrk old delimiters) [
  | none ↦ (some old, none)
  | some [] ↦ (some old, none)
  | some (c ∷ s) ↦
      let before = take_while (λ x. not (one_of delimiters x)) old in
      if c == b'"'
      then quoted_word before s
      else (some before, some (skip_equals (c == b'=') (skip_blank s)))
]

-- The word that is returned, and the new `*s`.
unfoldable pub strdelim : Option Bytes → Option Bytes × Option Bytes
strdelim none = (none, none)
strdelim (some s) = split_word (trim s)
