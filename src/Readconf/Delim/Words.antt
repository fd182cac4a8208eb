-- ===== src/Readconf/Delim/Words.antt =====
-- Which words `strdelim` of readconf.c finds.
use stonesh.Prelude.{
  ℕ, true, false, not, [], ◌∷◌, ◌++◌, none, some, ◌≡◌, ◌≢◌, refl, ap, arith, Bytes, ◌==◌, All,
  take_while,
}
use stonesh.Libc.{one_of, strpbrk, is_space}
use stonesh.Readconf.Delim.{delimiters, skip_blank, skip_equals, split_word, strdelim}
use stonesh.Util.{trim}
use stonesh.Util.Trim.{IsCStr, NoMark, StartsClean, EndsClean, IsTrimmed}

-- A byte that no word has to quote.
abbrev pub IsPlain : ℕ → Type 0
IsPlain c = (one_of delimiters c ≡ false) × (is_space c ≡ false) × (c ≢ b'#') × (c ≢ 0)

abbrev pub IsWord : Bytes → Type 0
IsWord w = (w ≢ []) × All IsPlain w

-- One byte that ends an unquoted word.
abbrev pub Separates : ℕ → Type 0
Separates c = (one_of delimiters c ≡ true) × (c ≢ b'"')

strpbrk-word :
    (w : Bytes) (c : ℕ) (rest : Bytes)
    → All IsPlain w
    → one_of delimiters c ≡ true
    → strpbrk (w ++ c ∷ rest) delimiters ≡ some (c ∷ rest)
unfolding strpbrk
strpbrk-word [] c rest h e = rw e
strpbrk-word (b ∷ w) c rest (h, hs) e = rw h.0 (strpbrk-word w c rest hs e)

take_while-word :
    (w : Bytes) (c : ℕ) (rest : Bytes)
    → All IsPlain w
    → one_of delimiters c ≡ true
    → take_while (λ x. not (one_of delimiters x)) (w ++ c ∷ rest) ≡ w
take_while-word [] c rest h e = rw e
take_while-word (b ∷ w) c rest (h, hs) e = rw h.0 (ap (◌∷◌ b) (take_while-word w c rest hs e))

pub strpbrk-none : (w : Bytes) → All IsPlain w → strpbrk w delimiters ≡ none
unfolding strpbrk
strpbrk-none [] h = refl
strpbrk-none (b ∷ w) (h, hs) = rw h.0 (strpbrk-none w hs)

-- In a line that needs no trimming, a plain word ends at the first separator.
pub strdelim-word :
    (w : Bytes) (c : ℕ) (rest : Bytes)
    → All IsPlain w
    → Separates c
    → trim (w ++ c ∷ rest) ≡ w ++ c ∷ rest
    → strdelim (some (w ++ c ∷ rest)) ≡ (some w, some (skip_equals (c == b'=') (skip_blank rest)))
unfolding strdelim split_word
strdelim-word w c rest h (e, q) t = rw t (
    rw (strpbrk-word w c rest h e, split_word) (rw (ne_test q) (rw (take_while-word w c rest h e))))
  where
    ne_test : c ≢ b'"' → (c == b'"') ≡ false
    ne_test n = ground arith

pub plain-IsCStr : (w : Bytes) → All IsPlain w → IsCStr w
plain-IsCStr [] h = tt
plain-IsCStr (c ∷ w) (h, hs) = (h.3, plain-IsCStr w hs)

pub plain-NoMark : (w : Bytes) → All IsPlain w → NoMark w
plain-NoMark [] h = tt
plain-NoMark (c ∷ w) (h, hs) = (h.2, plain-NoMark w hs)

pub plain-StartsClean : (w : Bytes) → All IsPlain w → StartsClean w
plain-StartsClean [] h = tt
plain-StartsClean (c ∷ w) (h, hs) = h.1

pub plain-EndsClean : (w : Bytes) → All IsPlain w → EndsClean w
plain-EndsClean [] h = tt
plain-EndsClean (c ∷ []) (h, hs) = h.1
plain-EndsClean (c ∷ d ∷ w) (h, hs) = plain-EndsClean (d ∷ w) hs

pub plain-IsTrimmed : (w : Bytes) → All IsPlain w → IsTrimmed w
plain-IsTrimmed w h = record {
  no_mark = plain-NoMark w h;
  starts = plain-StartsClean w h;
  ends = plain-EndsClean w h;
}
