-- ===== src/Readconf/Directives/Rows.antt =====
-- What the row of a directive does, as readconf.c reads it.
use stonesh.Libc.{c_str, is_space, one_of, strcasecmp, tolower}
use stonesh.Libc.Fields.{c_str-Lacks}
use stonesh.Libc.Rows.{with_newline}
use stonesh.Prelude.{
  ℕ, Bool, true, false, not, ◌&&◌, &&-eq-true, [], ◌∷◌, some, pos, ok, ◌≡◌, ◌≢◌, refl, sym, ap, ◌∙◌,
  arith, Bytes, ◌==◌, All, All-append,
}
use stonesh.Readconf.Delim.{delimiters}
use stonesh.Readconf.Delim.Values.{Spells, plain, quoted, Spells-IsValue, IsTail, key_value-IsTail}
use stonesh.Readconf.Delim.Words.{IsPlain, IsWord, Separates}
use stonesh.Readconf.Directives.{
  Directive, switch, assign, flag_key, setting_key, bit, answer_of, quote, directive_row,
  IsDirective,
}
use stonesh.Readconf.Keywords.{parse_token, find_keyword}
use stonesh.Readconf.Line.{process_config_line, process_trimmed}
use stonesh.Readconf.Line.Dispatch.{setting_of, flag_of, Answers, answer_yes, answer_no}
use stonesh.Readconf.Line.Stores.{
  first_string, first_flag, process_config_line-stores, process_config_line-stores_flag,
}
use stonesh.Readconf.Options.{Options, Flag, Setting}
use stonesh.Util.{trim}
use stonesh.Util.Trim.{trim_of_IsTrimmed}
use stonesh.Util.Unique.{trim_newline}

-- The effect of a directive on the options.
abbrev pub apply_one : Directive → Options → Options
apply_one (switch f b) o = first_flag f (bit b) o
apply_one (assign t v) o = first_string t v o

plain_byte : ℕ → Bool
unfolding one_of is_space
plain_byte c = not (one_of delimiters c) && (not (is_space c) && (not (c == b'#') && not (c == 0)))

plain_byte_sound : (c : ℕ) → plain_byte c ≡ true → IsPlain c
unfolding plain_byte
plain_byte_sound c h = ground arith

all_plain : Bytes → Bool
unfolding plain_byte
all_plain [] = true
all_plain (c ∷ w) = plain_byte c && all_plain w

all_plain_sound : (w : Bytes) → all_plain w ≡ true → All IsPlain w
unfolding all_plain
all_plain_sound [] h = tt
all_plain_sound (c ∷ w) h =
    let (first, rest) = &&-eq-true (plain_byte c) (all_plain w) h in
    (plain_byte_sound c first, all_plain_sound w rest)

word_test : Bytes → Bool
unfolding all_plain
word_test [] = false
word_test (c ∷ w) = all_plain (c ∷ w)

word_test_sound : (w : Bytes) → word_test w ≡ true → IsWord w
unfolding word_test
word_test_sound [] h = cc
word_test_sound (c ∷ w) h = (cc, all_plain_sound (c ∷ w) h)

flag_key_test : (f : Flag) → word_test (flag_key f) ≡ true
unfolding word_test
flag_key_test Flag.debug = refl
flag_key_test _ = refl

flag_key-IsWord : (f : Flag) → IsWord (flag_key f)
flag_key-IsWord f = word_test_sound (flag_key f) (flag_key_test f)

setting_key_test : (t : Setting) → word_test (setting_key t) ≡ true
unfolding word_test
setting_key_test Setting.ssh_path = refl
setting_key_test _ = refl

setting_key-IsWord : (t : Setting) → IsWord (setting_key t)
setting_key-IsWord t = word_test_sound (setting_key t) (setting_key_test t)

flag_key-flag_of : (f : Flag) → flag_of (parse_token (flag_key f)) ≡ some f
unfolding parse_token find_keyword strcasecmp tolower
flag_key-flag_of Flag.debug = refl
flag_key-flag_of _ = refl

setting_key-setting_of :
    (t : Setting) → t ≢ Setting.nc_timeout → setting_of (parse_token (setting_key t)) ≡ some t
unfolding parse_token find_keyword strcasecmp tolower
setting_key-setting_of Setting.nc_timeout n = absurd (n refl)
setting_key-setting_of _ n = refl

blank-Separates : Separates b' '
unfolding one_of
blank-Separates = (refl, omega arith)

answer-Answers : (b : Bool) → Answers (answer_of b) (bit b)
answer-Answers true = answer_yes
answer-Answers false = answer_no

answer_test : (b : Bool) → word_test (answer_of b) ≡ true
unfolding word_test
answer_test true = refl
answer_test false = refl

answer-Spells : (b : Bool) → Spells (answer_of b) (answer_of b)
answer-Spells b = plain (word_test_sound (answer_of b) (answer_test b))

-- The row without its newline.
bare_row :
    (o : Options) (d : Directive)
    → IsDirective d
    → (process_config_line o (directive_row d) (some (pos 1)) ≡ ok (apply_one d o, pos 0))
      × IsTail (directive_row d)
bare_row o (switch f b) h = (
  process_config_line-stores_flag o (flag_key f) b' ' (answer_of b) (answer_of b) (bit b) f
      (flag_key-IsWord f) (flag_key-flag_of f) blank-Separates (answer-Spells b) (answer-Answers b),
  key_value-IsTail (flag_key f) b' ' (flag_key-IsWord f) blank-Separates
      (Spells-IsValue (answer-Spells b)).tail,
)
bare_row o (assign t v) ((n, ne, q), row) =
    let w = quoted ne q in
    (
      process_config_line-stores o (setting_key t) b' ' (quote v) v t (setting_key-IsWord t)
          (setting_key-setting_of t n) blank-Separates w,
      key_value-IsTail (setting_key t) b' ' (setting_key-IsWord t) blank-Separates
          (Spells-IsValue w).tail,
    )

-- The newline goes with the blanks at the end.
newline_line :
    (o : Options) (t : Bytes)
    → IsTail t
    → process_config_line o (c_str (with_newline t)) (some (pos 1))
      ≡ process_config_line o t (some (pos 1))
unfolding process_config_line
newline_line o t w =
    let text : c_str (with_newline t) ≡ with_newline t =
      c_str-Lacks (with_newline t)
        (All-append (λ c. c ≢ 0) t (b'\n' ∷ []) w.cstr (omega arith, tt)) in
    ap (process_trimmed o (some (pos 1)))
      (ap trim text ∙ trim_newline t w.trimmed w.cstr ∙ sym (trim_of_IsTrimmed t w.cstr w.trimmed))

-- A directive's row, as `fgets` stores it, has the effect of the directive, and the result 0.
pub directive_line :
    (o : Options) (d : Directive)
    → IsDirective d
    → process_config_line o (c_str (with_newline (directive_row d))) (some (pos 1))
      ≡ ok (apply_one d o, pos 0)
directive_line o d h =
    let (line, tail) = bare_row o d h in newline_line o (directive_row d) tail ∙ line
