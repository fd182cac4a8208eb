-- ===== src/Readconf/Line/Stores.antt =====
-- What a well-formed line of the configuration file does to options that may be set already: the first
-- value stays.
use stonesh.Prelude.{
  ℕ, [], ◌∷◌, ◌++◌, some, pos, minus_one, int_eq, ok, ◌>>=◌, ◌≡◌, ◌≢◌, inl, inr, refl, ◌∙◌, Bytes,
  Bool-cases, if◌then◌else◌,
}
use stonesh.Readconf.Delim.Values.{Spells, Spells-IsValue, Spells-ne_nil, IsValue}
use stonesh.Readconf.Delim.Words.{IsWord, Separates}
use stonesh.Readconf.Keywords.{parse_token}
use stonesh.Readconf.Line.{
  parse_flag, flag_argument, store_setting, parse_string, check_end, process_config_line, is_null,
}
use stonesh.Readconf.Line.Dispatch.{
  setting_of, flag_of, dispatch-setting, dispatch-flag, process_opcode-dispatch, process_key_value,
  check_end-Ends, setting-ne_bad, flag-ne_bad, parse_string-value, Answers, Answers-value,
}
use stonesh.Readconf.Options.{Options, Flag, Setting, get_flag, set_flag, get_setting, set_setting}

-- A string or a flag takes a value if it has none.
abbrev pub first_string : Setting → Bytes → Options → Options
first_string t v o = if is_null (get_setting t o) then set_setting t (some v) o else o

abbrev pub first_flag : Flag → ℕ → Options → Options
first_flag f n o = if int_eq (get_flag f o) minus_one then set_flag f (pos n) o else o

store_setting-first :
    (t : Setting) (v : Bytes) (o : Options)
    → store_setting t (some v) (some (pos 1)) o ≡ ok (first_string t v o)
unfolding store_setting
store_setting-first t v o = elim (Bool-cases (is_null (get_setting t o))) [
  | inl e ↦ rw e
  | inr e ↦ rw e
]

string_case :
    (t : Setting) (o : Options) (src v : Bytes)
    → IsValue src v
    → v ≢ []
    → (do p ← parse_string t o (some (pos 1)) (some src); check_end p)
      ≡ ok (first_string t v o, pos 0)
string_case t o src v w ne =
    rw (parse_string-value t o src v w ne)
      (rw (store_setting-first t v o) (check_end-Ends _ w.rest (pos 0) w.ends))

pub process_config_line-stores :
    (o : Options) (key : Bytes) (c : ℕ) (src v : Bytes) (t : Setting)
    → IsWord key
    → setting_of (parse_token key) ≡ some t
    → Separates c
    → Spells src v
    → process_config_line o (key ++ c ∷ src) (some (pos 1)) ≡ ok (first_string t v o, pos 0)
process_config_line-stores o key c src v t k st sep w =
    process_key_value o (some (pos 1)) key c k sep (Spells-IsValue w).tail
    ∙ process_opcode-dispatch _ o _ _ (setting-ne_bad (parse_token key) t st)
    ∙ rw (dispatch-setting (parse_token key) t st)
        (string_case t o src v (Spells-IsValue w) (Spells-ne_nil w))

parse_flag-first :
    (f : Flag) (o : Options) (src v : Bytes) (n : ℕ) (w : IsValue src v)
    → v ≢ []
    → Answers v n
    → parse_flag f o (some (pos 1)) (some src)
      ≡ ok (record { options = first_flag f n o; rest = w.rest; status = pos 0 })
unfolding parse_flag flag_argument
parse_flag-first f o src [] n w ne a = absurd (ne refl)
parse_flag-first f o src (c ∷ v) n w ne a = rw w.reads (rw (Answers-value a))

pub process_config_line-stores_flag :
    (o : Options) (key : Bytes) (c : ℕ) (src v : Bytes) (n : ℕ) (f : Flag)
    → IsWord key
    → flag_of (parse_token key) ≡ some f
    → Separates c
    → Spells src v
    → Answers v n
    → process_config_line o (key ++ c ∷ src) (some (pos 1)) ≡ ok (first_flag f n o, pos 0)
process_config_line-stores_flag o key c src v n f k st sep w a =
    process_key_value o (some (pos 1)) key c k sep (Spells-IsValue w).tail
    ∙ process_opcode-dispatch _ o _ _ (flag-ne_bad (parse_token key) f st)
    ∙ rw (dispatch-flag (parse_token key) f st) (
        rw (parse_flag-first f o src v n (Spells-IsValue w) (Spells-ne_nil w) a)
          (check_end-Ends _ _ (pos 0) (Spells-IsValue w).ends))
