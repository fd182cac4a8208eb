-- ===== src/Readconf/Line/Sets.antt =====
-- What a well-formed line of the configuration file does: the round trip of an option and its value.
use stonesh.Prelude.{ℕ, ◌∷◌, ◌++◌, none, some, pos, minus_one, ok, ◌≡◌, ◌∙◌, Bytes}
use stonesh.Readconf.Delim.Values.{Spells}
use stonesh.Readconf.Delim.Words.{IsWord, Separates}
use stonesh.Readconf.Keywords.{parse_token}
use stonesh.Readconf.Line.{process_config_line}
use stonesh.Readconf.Line.Dispatch.{setting_of, flag_of, Answers}
use stonesh.Readconf.Line.Stores.{process_config_line-stores, process_config_line-stores_flag}
use stonesh.Readconf.Options.{Options, Flag, Setting, get_flag, set_flag, get_setting, set_setting}

-- A string other than the timeout, if it is not set, takes the value that stands behind its keyword in
-- whatever case and one blank or `=`: a plain word, or a text in quotes that is not empty and holds no
-- quote, comment mark or NUL. No other option changes and the result is 0.
pub process_config_line-sets :
    (o : Options) (key : Bytes) (c : ℕ) (src v : Bytes) (t : Setting)
    → IsWord key
    → setting_of (parse_token key) ≡ some t
    → Separates c
    → Spells src v
    → get_setting t o ≡ none
    → process_config_line o (key ++ c ∷ src) (some (pos 1)) ≡ ok (set_setting t (some v) o, pos 0)
process_config_line-sets o key c src v t k st sep w unset =
    process_config_line-stores o key c src v t k st sep w ∙ rw unset

-- A flag that is not set takes the value of `yes`, `true`, `no` or `false` behind its keyword in
-- whatever case and one blank or `=`; no other option changes and the result is 0.
pub process_config_line-sets_flag :
    (o : Options) (key : Bytes) (c : ℕ) (src v : Bytes) (n : ℕ) (f : Flag)
    → IsWord key
    → flag_of (parse_token key) ≡ some f
    → Separates c
    → Spells src v
    → Answers v n
    → get_flag f o ≡ minus_one
    → process_config_line o (key ++ c ∷ src) (some (pos 1)) ≡ ok (set_flag f (pos n) o, pos 0)
process_config_line-sets_flag o key c src v n f k st sep w a unset =
    process_config_line-stores_flag o key c src v n f k st sep w a ∙ rw unset
