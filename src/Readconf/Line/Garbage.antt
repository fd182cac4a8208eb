-- ===== src/Readconf/Line/Garbage.antt =====
-- A word too many on a line of the configuration file.
use stonesh.Prelude.{
  ℕ, [], ◌∷◌, ◌++◌, some, pos, ok, fault, ◌>>=◌, ◌≡◌, ◌≢◌, inl, inr, refl, ◌∙◌, Bytes, Bool-cases,
}
use stonesh.Readconf.Delim.Values.{
  Spells, Spells-IsValue, Spells-ne_nil, IsValue, key_value-IsTail, key_value-strdelim,
}
use stonesh.Readconf.Delim.Words.{IsWord, Separates}
use stonesh.Readconf.Keywords.{parse_token}
use stonesh.Readconf.Line.{
  store_setting, string_argument, parse_string, check_end, process_config_line, is_null,
}
use stonesh.Readconf.Options.{Options, Setting, get_setting, set_setting}
use stonesh.Readconf.Line.Dispatch.{
  setting_of, dispatch-setting, process_opcode-dispatch, process_key_value, setting-ne_bad,
}

store_setting_total :
    (t : Setting) (v : Bytes) (o : Options)
    → (o' : Options) × (store_setting t (some v) (some (pos 1)) o ≡ ok o')
unfolding store_setting
store_setting_total t v o = elim (Bool-cases (is_null (get_setting t o))) [
  | inl unset ↦ (set_setting t (some v) o, rw unset)
  | inr set ↦ (o, rw set)
]

check_end-garbage :
    (o : Options) (junk j : Bytes)
    → IsValue junk j
    → j ≢ []
    → check_end (record { options = o; rest = some junk; status = pos 0 }) ≡ fault
unfolding check_end
check_end-garbage o junk [] w ne = absurd (ne refl)
check_end-garbage o junk (x ∷ j) w ne = rw w.reads

parse_string-garbage :
    (t : Setting) (o : Options) (v : Bytes) (d : ℕ) (junk j : Bytes)
    → IsWord v
    → Separates d
    → IsValue junk j
    → j ≢ []
    → (do p ← parse_string t o (some (pos 1)) (some (v ++ d ∷ junk)); check_end p) ≡ fault
unfolding parse_string string_argument
parse_string-garbage t o [] d junk j k sep w ne = absurd (k.0 refl)
parse_string-garbage t o (x ∷ v) d junk j k sep w ne =
    let (o', stored) = store_setting_total t (x ∷ v) o in
    rw (key_value-strdelim (x ∷ v) d k sep w.tail) (rw stored (check_end-garbage o' junk j w ne))

-- A line that gives a string other than the timeout a plain word, and has one more word behind it, a
-- plain one or a text in quotes that is not empty and holds no quote, comment mark or NUL, ends in a fault, by the call of
-- `free` on a pointer into the line, where the message about garbage was meant to be printed.
pub process_config_line-garbage :
    (o : Options) (key : Bytes) (c : ℕ) (v : Bytes) (d : ℕ) (junk j : Bytes) (t : Setting)
    → IsWord key
    → setting_of (parse_token key) ≡ some t
    → Separates c
    → IsWord v
    → Separates d
    → Spells junk j
    → process_config_line o (key ++ c ∷ (v ++ d ∷ junk)) (some (pos 1)) ≡ fault
process_config_line-garbage o key c v d junk j t k st sep kv sep' w =
    process_key_value o (some (pos 1)) key c k sep
      (key_value-IsTail v d kv sep' (Spells-IsValue w).tail)
    ∙ process_opcode-dispatch _ o _ _ (setting-ne_bad (parse_token key) t st)
    ∙ rw (dispatch-setting (parse_token key) t st)
        (parse_string-garbage t o v d junk j kv sep' (Spells-IsValue w) (Spells-ne_nil w))
