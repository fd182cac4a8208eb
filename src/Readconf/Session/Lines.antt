-- ===== src/Readconf/Session/Lines.antt =====
-- A line of the configuration of readconf.c, with its messages and its strings, and without.
use stonesh.Log.Errors.{IsQuiet}
use stonesh.Log.{error}
use stonesh.Prelude.{
  ℕ, ◌+◌, ◌-◌, ◌≡◌, ◌≢◌, ◌⊎◌, Bool, true, false, ◌&&◌, List, [], ◌∷◌, ◌++◌, Option, none, some, ℤ,
  pos, ◌>>=◌, Agrees, both, faults, &&-eq-true, Agrees-weaken, forget, forget-Agrees, Safe,
  Safe-Agrees, Bytes, codes, inl, inr, refl, ap, arith, Bool-cases,
}
use stonesh.Libc.{strcasecmp}
use stonesh.Readconf.Delim.{strdelim}
use stonesh.Readconf.Keywords
use stonesh.Readconf.Keywords.{OpCode, keywords, find_keyword, parse_token}
use stonesh.Readconf.Line.{
  process_opcode, process_line, process_trimmed, process_config_line, strdup,
}
use stonesh.Readconf.Options.{Options}
use stonesh.Readconf.Session.{
  Where, find_keyword_io, process_opcode_io, process_line_io, process_trimmed_io,
  process_config_line_io,
}
use stonesh.Readconf.Session.Books.{held_settings, IsTold, IsBooked}
use stonesh.Streams.{Io, tell, new_string, free_string}
use stonesh.Util.{trim}
use stonesh.Readconf.Session.Opcodes.{LeavesResult, behind_debug, process_opcode_io-Agrees}

abbrev is_good : OpCode → Bool
is_good Keywords.o_bad_option = false
is_good opcode = true

abbrev all_good : List (Bytes × OpCode) → Bool
all_good [] = true
all_good ((name, opcode) ∷ table) = is_good opcode && all_good table

abbrev unknown : Where → Bytes → Io → Io
unknown at cp io =
    tell (error (codes "%s: line %d: Bad configuration option: %s") (at ++ cp ∷ [])) io

-- A keyword is found in silence, or not with a message.
find_keyword_io-cases :
    (at : Where) (cp : Bytes) (table : List (Bytes × OpCode)) (io : Io)
    → all_good table ≡ true
    → ((opcode : OpCode) × (opcode ≢ Keywords.o_bad_option)
        × (find_keyword cp table ≡ opcode)
        × (find_keyword_io at cp table io ≡ (opcode, io)))
      ⊎ ((find_keyword cp table ≡ Keywords.o_bad_option)
          × (find_keyword_io at cp table io ≡ (Keywords.o_bad_option, unknown at cp io)))
unfolding find_keyword find_keyword_io
find_keyword_io-cases at cp [] io h = inr (refl, refl)
find_keyword_io-cases at cp ((name, opcode) ∷ table) io h =
    let (good, rest) = &&-eq-true (is_good opcode) (all_good table) h in
    elim (Bool-cases (strcasecmp cp name)) [
      | inl e ↦ rw e (inl (opcode, (λ bad. not_bad opcode bad good), refl, refl))
      | inr e ↦ rw e (find_keyword_io-cases at cp table io rest)
    ]
  where
    not_bad : (opcode : OpCode) → opcode ≡ Keywords.o_bad_option → is_good opcode ≡ true → ⊥
    not_bad opcode bad good = cc

counted : pos 1 ≢ pos 0
counted h = cc

copied_and_freed : (s : Bytes) (io : Io) → free_string (some s) (new_string io) ≡ io
unfolding free_string new_string
copied_and_freed s io = ap (λ k. record io { strings = k }) (omega arith)

process_line_io-Agrees :
    (n : ℕ) (at : Where) (o : Options) (active : Option ℤ) (s : Bytes) (io : Io)
    → io.strings ≡ n + held_settings o
    → Agrees (LeavesResult n io) (process_line o active (some s)) (process_line_io at o active s io)
unfolding process_line process_line_io parse_token
process_line_io-Agrees n at o active s io owned = on_word (strdelim (some s)).0
  where
    rest : Option Bytes
    rest = (strdelim (some s)).1

    on_bad_option :
        (keyword : Bytes)
        → Agrees (LeavesResult n io) (process_opcode Keywords.o_bad_option o active rest) (
            process_opcode_io at Keywords.o_bad_option o active rest
              (free_string (some keyword) (unknown at keyword (new_string io))))
    on_bad_option keyword =
        unfold process_opcode process_opcode_io free_string new_string in
        let balanced : io.strings + 1 - 1 ≡ n + held_settings o = omega (arith, owned) in
        both ((refl, balanced), λ q. inr (counted, (_, _, refl)))

    on_keyword :
        (keyword : Bytes)
        → Agrees
            (LeavesResult n io)
            (process_opcode (find_keyword keyword keywords) o active rest)
            (let (opcode, io') = find_keyword_io at keyword keywords (new_string io) in
              process_opcode_io at opcode o active rest (free_string (some keyword) io'))
    on_keyword keyword = elim (find_keyword_io-cases at keyword keywords (new_string io) refl) [
      | inl (opcode, good, e, e') ↦
          rw (e, e', copied_and_freed keyword io)
            (process_opcode_io-Agrees n at o active rest io owned opcode good)
      | inr (e, e') ↦ rw (e, e') (on_bad_option keyword)
    ]

    on_word :
        (word : Option Bytes)
        → Agrees
            (LeavesResult n io)
            (do keyword ← strdup word; process_opcode (find_keyword keyword keywords) o active rest)
            (do
              keyword ← strdup word
              (let (opcode, io') = find_keyword_io at keyword keywords (new_string io) in
                  process_opcode_io at opcode o active rest (free_string (some keyword) io')))
    on_word none = faults
    on_word (some keyword) = on_keyword keyword

-- The books and the log behind one line of the file, whatever it holds.
pub process_config_line_io-Agrees :
    (n : ℕ) (at : Where) (o : Options) (line : Bytes) (active : Option ℤ) (io : Io)
    → io.strings ≡ n + held_settings o
    → Agrees
        (LeavesResult n io)
        (process_config_line o line active)
        (process_config_line_io at o line active io)
unfolding process_config_line process_config_line_io
process_config_line_io-Agrees n at o line active io owned = on_trimmed (trim line)
  where
    on_trimmed :
        (s : Bytes)
        → Agrees
            (LeavesResult n io)
            (process_trimmed o active s)
            (process_trimmed_io at o active s io)
    on_trimmed [] =
        unfold process_trimmed process_trimmed_io in both ((refl, owned), λ q. inl (refl, refl))
    on_trimmed (c ∷ s) =
        unfold process_trimmed process_trimmed_io in
        Agrees-weaken (λ r io' leaves. behind_debug n _ _ io r.0 r.1 io' leaves)
          (process_line_io-Agrees n at o active (c ∷ s) _ owned)

-- With its messages and the strings that it copies, a line of the file does what it does in the model
-- without them; and if it returns, it leaves as many streams open as there were, and but for `n`
-- strings those of the options: the copy of the keyword is freed, and each new string is held.
pub process_config_line_io-books :
    (n : ℕ) (at : Where) (o : Options) (line : Bytes) (active : Option ℤ) (io : Io)
    → io.strings ≡ n + held_settings o
    → (forget (process_config_line_io at o line active io) ≡ process_config_line o line active)
      × Safe (λ r. IsBooked n io r.0.0 r.1) (process_config_line_io at o line active io)
process_config_line_io-books n at o line active io owned =
    let agrees = process_config_line_io-Agrees n at o line active io owned in
    (
      forget-Agrees agrees,
      Safe-Agrees
          (Agrees-weaken {Q = λ r io'. IsBooked n io r.0 io'} (λ r io' leaves. leaves.0) agrees),
    )

-- With debugging off, a line that is accepted adds nothing to the log, and a line that is rejected adds
-- one error, for every line that does not end in a fault.
pub process_config_line_io-IsTold :
    (n : ℕ) (at : Where) (o : Options) (line : Bytes) (active : Option ℤ) (io : Io)
    → io.strings ≡ n + held_settings o
    → IsQuiet io.log
    → Safe (λ r. IsTold r.0.1 io.log r.1.log) (process_config_line_io at o line active io)
process_config_line_io-IsTold n at o line active io owned q = Safe-Agrees (
    Agrees-weaken {Q = λ r io'. IsTold r.1 io.log io'.log} (λ r io' (booked, told). told q)
      (process_config_line_io-Agrees n at o line active io owned))
