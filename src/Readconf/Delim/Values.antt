-- ===== src/Readconf/Delim/Values.antt =====
-- Values as they stand in a configuration file, and how `strdelim` of readconf.c reads them.
use stonesh.Prelude.{
  ℕ, Bool, true, not, [], ◌∷◌, ◌++◌, Option, none, some, ◌≡◌, ◌≢◌, ◌⊎◌, inl, inr, refl, ◌∙◌, arith,
  Bytes, ◌==◌, All, All-append, append-ne-nil, append-nil, take_while,
}
use stonesh.Libc.{one_of, strpbrk, is_space}
use stonesh.Readconf.Delim.{delimiters, skip_blank, skip_equals, split_word, quoted_word, strdelim}
use stonesh.Readconf.Delim.Words.{
  IsPlain, IsWord, Separates, strpbrk-none, strdelim-word, plain-IsCStr, plain-NoMark,
  plain-StartsClean, plain-IsTrimmed,
}
use stonesh.Util.{trim}
use stonesh.Util.Trim.{IsCStr, NoMark, StartsClean, EndsClean-append, IsTrimmed, trim_of_IsTrimmed}

-- A value as it stands in a file: a plain word, or a text in quotes, which may hold blanks and `=`.
pub data Spells : Bytes → Bytes → Type 0 where
  plain : {w : Bytes} → IsWord w → Spells w w
  quoted :
      {text : Bytes}
      → text ≢ []
      → All (λ c. (c ≢ b'"') × (c ≢ b'#') × (c ≢ 0)) text
      → Spells (b'"' ∷ (text ++ b'"' ∷ [])) text

-- What may stand behind a keyword and its separator.
pub record IsTail (src : Bytes) : Type 0 where
  pub cstr : IsCStr src
  pub trimmed : IsTrimmed src
  pub ne_nil : src ≢ []
  pub starts : (wspace : Bool) → skip_equals wspace (skip_blank src) ≡ src

-- The tail is one value.
pub record IsValue (src v : Bytes) : Type 0 where
  pub tail : IsTail src
  pub rest : Option Bytes
  pub reads : strdelim (some src) ≡ (some v, rest)
  pub ends : (strdelim rest).0 ≡ none ⊎ (strdelim rest).0 ≡ some []

plain_starts :
    (w rest : Bytes) (wspace : Bool)
    → w ≢ []
    → All IsPlain w
    → skip_equals wspace (skip_blank (w ++ rest)) ≡ w ++ rest
unfolding skip_equals skip_blank one_of
plain_starts [] rest wspace ne h = absurd (ne refl)
plain_starts (c ∷ w) rest wspace ne (h, hs) = ground (arith, h.0)

plain-IsValue : (w : Bytes) → IsWord w → IsValue w w
plain-IsValue w (ne, h) = record {
  tail = record {
    cstr = plain-IsCStr w h;
    trimmed = plain-IsTrimmed w h;
    ne_nil = ne;
    starts = λ wspace. rw append-nil at (plain_starts w [] wspace ne h);
  };
  rest = none;
  reads =
      unfold strdelim in
      rw (trim_of_IsTrimmed w (plain-IsCStr w h) (plain-IsTrimmed w h))
        (unfold split_word in rw (strpbrk-none w h, split_word));
  ends = inl (unfold strdelim in refl);
}

abbrev IsQuotable : ℕ → Type 0
IsQuotable c = (c ≢ b'"') × (c ≢ b'#') × (c ≢ 0)

quoted-strpbrk :
    (text rest : Bytes)
    → All IsQuotable text
    → strpbrk (text ++ b'"' ∷ rest) (b'"' ∷ []) ≡ some (b'"' ∷ rest)
unfolding strpbrk one_of
quoted-strpbrk [] rest h = refl
quoted-strpbrk (c ∷ text) rest (h, hs) = ground (arith, quoted-strpbrk text rest hs, h.0)

quoted-take_while :
    (text rest : Bytes)
    → All IsQuotable text
    → take_while (λ x. not (x == b'"')) (text ++ b'"' ∷ rest) ≡ text
quoted-take_while [] rest h = refl
quoted-take_while (c ∷ text) rest (h, hs) = ground (arith, quoted-take_while text rest hs, h.0)

quotable-IsCStr : (text : Bytes) → All IsQuotable text → IsCStr text
quotable-IsCStr [] h = tt
quotable-IsCStr (c ∷ w) (h, hs) = (h.2, quotable-IsCStr w hs)

quotable-NoMark : (text : Bytes) → All IsQuotable text → NoMark text
quotable-NoMark [] h = tt
quotable-NoMark (c ∷ w) (h, hs) = (h.1, quotable-NoMark w hs)

quoted-IsTrimmed : (text : Bytes) → All IsQuotable text → IsTrimmed (b'"' ∷ (text ++ b'"' ∷ []))
unfolding is_space
quoted-IsTrimmed text h = record {
  no_mark = (omega arith, All-append _ text _ (quotable-NoMark text h) (omega arith));
  starts = refl;
  ends = EndsClean-append (b'"' ∷ text) (b'"' ∷ []) (cc) refl;
}

quoted-IsCStr : (text : Bytes) → All IsQuotable text → IsCStr (b'"' ∷ (text ++ b'"' ∷ []))
quoted-IsCStr text h = (omega arith, All-append _ text _ (quotable-IsCStr text h) (omega arith))

quoted_word-text :
    (text : Bytes) → All IsQuotable text → quoted_word [] (text ++ b'"' ∷ []) ≡ (some text, some [])
unfolding quoted_word
quoted_word-text text h =
    rw (quoted-strpbrk text [] h, quoted_word)
      (rw (quoted-take_while text [] h) (unfold skip_blank in refl))

split_word-quoted :
    (text : Bytes)
    → All IsQuotable text
    → split_word (b'"' ∷ (text ++ b'"' ∷ [])) ≡ (some text, some [])
unfolding split_word strpbrk one_of
split_word-quoted text h = quoted_word-text text h

quoted-IsValue : (text : Bytes) → All IsQuotable text → IsValue (b'"' ∷ (text ++ b'"' ∷ [])) text
quoted-IsValue text h = record {
  tail = record {
    cstr = quoted-IsCStr text h;
    trimmed = quoted-IsTrimmed text h;
    ne_nil = cc;
    starts = λ wspace. unfold skip_equals skip_blank one_of in refl;
  };
  rest = some [];
  reads =
      unfold strdelim in
      rw (trim_of_IsTrimmed _ (quoted-IsCStr text h) (quoted-IsTrimmed text h))
        (split_word-quoted text h);
  ends = inr (unfold strdelim split_word strpbrk trim in refl);
}

pub Spells-IsValue : {src v : Bytes} → Spells src v → IsValue src v
Spells-IsValue (plain {w} h) = plain-IsValue w h
Spells-IsValue (quoted {text} ne h) = quoted-IsValue text h

pub Spells-ne_nil : {src v : Bytes} → Spells src v → v ≢ []
Spells-ne_nil (plain h) = h.0
Spells-ne_nil (quoted ne h) = ne

append-StartsClean : (s t : Bytes) → s ≢ [] → StartsClean s → StartsClean (s ++ t)
append-StartsClean [] t ne h = absurd (ne refl)
append-StartsClean (c ∷ s) t ne h = h

sep_byte : (d : ℕ) → one_of delimiters d ≡ true → (d ≢ b'#') × (d ≢ 0)
unfolding one_of
sep_byte d h = ground arith

module _ (key : Bytes) (c : ℕ) {src : Bytes} (k : IsWord key) (sep : Separates c)
    (w : IsTail src) where
  -- Behind a word and a separator a tail makes a longer tail.
  pub key_value-IsTail : IsTail (key ++ c ∷ src)
  key_value-IsTail = record {
    cstr = All-append _ key _ (plain-IsCStr key k.1) ((sep_byte c sep.0).1, w.cstr);
    trimmed = record {
      no_mark = All-append _ key _ (plain-NoMark key k.1) ((sep_byte c sep.0).0, w.trimmed.no_mark);
      starts = append-StartsClean key (c ∷ src) k.0 (plain-StartsClean key k.1);
      ends =
          EndsClean-append key (c ∷ src) (cc)
            (EndsClean-append (c ∷ []) src w.ne_nil w.trimmed.ends);
    };
    ne_nil = append-ne-nil key (c ∷ src) k.0;
    starts = λ wspace. plain_starts key (c ∷ src) wspace k.0 k.1;
  }

  pub key_value-trim : trim (key ++ c ∷ src) ≡ key ++ c ∷ src
  key_value-trim = trim_of_IsTrimmed _ key_value-IsTail.cstr key_value-IsTail.trimmed

  -- The first word of a line `key value` is the key, and the rest is the value.
  pub key_value-strdelim : strdelim (some (key ++ c ∷ src)) ≡ (some key, some src)
  key_value-strdelim = strdelim-word key c src k.1 sep key_value-trim ∙ rw (w.starts (c == b'='))
