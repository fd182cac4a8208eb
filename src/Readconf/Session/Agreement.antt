-- ===== src/Readconf/Session/Agreement.antt =====
-- What a line of the configuration does with its messages and its strings, beside what it does without.
use stonesh.Log.Errors.{IsQuiet}
use stonesh.Log.{error}
use stonesh.Prelude.{
  ℕ, ◌+◌, ◌≡◌, ◌≢◌, ◌⊎◌, true, not, ◌&&◌, List, [], ◌∷◌, Option, none, some, ℤ, pos, minus_one,
  int_eq, ok, ◌>>=◌, Agrees, both, faults, bind-Agrees, Bytes, inl, inr, refl, ◌∙◌, arith,
  Bool-cases, &&-eq-true, if◌then◌else◌,
}
use stonesh.Libc.{atoi_pos}
use stonesh.Readconf.Delim.{strdelim}
use stonesh.Readconf.Line.{
  Parsed, is_missing, is_null, flag_value, flag_argument, parse_flag, store_setting,
  string_argument, parse_string, parse_timeout, timeout_status, strdup,
}
use stonesh.Readconf.Options.{Options, Flag, Setting, get_setting, set_setting}
use stonesh.Readconf.Session.{
  Where, flag_message, parse_flag_io, store_setting_io, missing_message, parse_string_io,
  check_timeout, parse_timeout_io,
}
use stonesh.Readconf.Session.Books.{
  held_settings, set_setting-held, flag_argument-held, IsTold, IsBooked,
}
use stonesh.Streams.{Io, tell, new_string}

-- What stands in the books and in the log behind a line.
abbrev pub LeavesLine : ℕ → Io → Options → ℤ → Io → Type 0
LeavesLine n before o status io =
    IsBooked n before o io × (IsQuiet before.log → IsTold status before.log io.log)

abbrev pub LeavesParsed : ℕ → Io → Parsed → Io → Type 0
LeavesParsed n before p io = LeavesLine n before p.options p.status io

-- A state that differs in its log alone, and says what goes with a status.
abbrev pub Says : ℤ → Io → Io → Type 0
Says status before io =
    (io.streams ≡ before.streams) × (io.strings ≡ before.strings) × IsTold status before.log io.log

pub silent : (io : Io) → Says (pos 0) io io
silent io = (refl, refl, inl (refl, refl))

pub complaint :
    (status : ℤ) (fmt : Bytes) (args : List Bytes) (io : Io)
    → status ≢ pos 0
    → Says status io (tell (error fmt args) io)
complaint status fmt args io h = (refl, refl, inr (h, (fmt, args, refl)))

pub rejected : minus_one ≢ pos 0
rejected h = cc

flag_value-cases : (arg : Bytes) → ((flag_value arg).1 ≡ pos 0) ⊎ ((flag_value arg).1 ≡ minus_one)
unfolding flag_value
flag_value-cases arg = ground arith

flag_message-Says :
    (at : Where) (f : Flag) (o : Options) (active : Option ℤ) (arg s : Option Bytes) (io : Io)
    → Says (flag_argument f o active arg s).status io (flag_message at arg io)
unfolding flag_argument flag_message
flag_message-Says at f o active none s io = complaint minus_one _ at io rejected
flag_message-Says at f o active (some []) s io = complaint minus_one _ at io rejected
flag_message-Says at f o active (some (c ∷ arg)) s io = elim (flag_value-cases (c ∷ arg)) [
  | inl e ↦ rw e (silent io)
  | inr e ↦ rw e (complaint minus_one _ at io rejected)
]

missing_message-Says :
    (at : Where) (arg : Option Bytes) (io : Io)
    → Says (if is_missing arg then minus_one else pos 0) io (missing_message at arg io)
unfolding missing_message
missing_message-Says at arg io = elim (Bool-cases (is_missing arg)) [
  | inl e ↦ rw e (complaint minus_one _ at io rejected)
  | inr e ↦ rw e (silent io)
]

check_timeout-Says :
    (at : Where) (arg : Option Bytes) (io : Io)
    → ((check_timeout at arg io).0 ≡ timeout_status arg)
      × Says (timeout_status arg) io (check_timeout at arg io).1
unfolding check_timeout
check_timeout-Says at none io = (refl, missing_message-Says at none io)
check_timeout-Says at (some []) io = (refl, missing_message-Says at (some []) io)
check_timeout-Says at (some (c ∷ arg)) io = elim (Bool-cases (atoi_pos (c ∷ arg))) [
  | inl e ↦ rw e (refl, silent io)
  | inr e ↦ rw e (refl, complaint minus_one _ _ io rejected)
]

pub parse_flag_io-Agrees :
    (n : ℕ) (at : Where) (f : Flag) (o : Options) (active : Option ℤ) (s : Option Bytes) (io : Io)
    → io.strings ≡ n + held_settings o
    → Agrees (LeavesParsed n io) (parse_flag f o active s) (parse_flag_io at f o active s io)
unfolding parse_flag parse_flag_io
parse_flag_io-Agrees n at f o active s io owned =
    let (arg, s') = strdelim s in
    let (streams, strings, told) = flag_message-Says at f o active arg s' io in
    let same = flag_argument-held f o active arg s' in
    both ((streams, omega (arith, strings, same, owned)), λ q. told)

-- Storing a copy adds it to the books.
store_setting_io-Agrees :
    (n : ℕ) (t : Setting) (arg : Option Bytes) (active : Option ℤ) (o : Options) (io : Io)
    → io.strings ≡ n + held_settings o
    → Agrees
        (λ o' io'. IsBooked n io o' io' × (io'.log ≡ io.log))
        (store_setting t arg active o)
        (store_setting_io t arg active o io)
unfolding store_setting store_setting_io
store_setting_io-Agrees n t arg none o io owned = faults
store_setting_io-Agrees n t arg (some a) o io owned =
    elim (Bool-cases (not (int_eq a (pos 0)) && is_null (get_setting t o))) [
      | inl unset ↦ rw unset (copied arg (null-setting _ (&&-eq-true _ _ unset).1))
      | inr set ↦ rw set (both ((refl, owned), refl))
    ]
  where
    null-setting : (v : Option Bytes) → is_null v ≡ true → v ≡ none
    null-setting none h = refl
    null-setting (some s) h = cc

    copied :
        (arg : Option Bytes)
        → get_setting t o ≡ none
        → Agrees
            (λ o' io'. IsBooked n io o' io' × (io'.log ≡ io.log))
            (do copy ← strdup arg; ok (set_setting t (some copy) o))
            (do copy ← strdup arg; ok (set_setting t (some copy) o, new_string io))
    copied none h = faults
    copied (some s) h =
        unfold new_string in
        let one_more : io.strings + 1 ≡ n + held_settings (set_setting t (some s) o) =
          omega (arith, set_setting-held t s o h, owned) in
        both ((refl, one_more), refl)

-- Behind a message, the copy is stored, and the status is the one that the message goes with.
stored :
    (n : ℕ) (t : Setting) (arg : Option Bytes) (active : Option ℤ) (o : Options) (s : Option Bytes)
    (status : ℤ) (before io : Io)
    → before.strings ≡ n + held_settings o
    → Says status before io
    → Agrees
        (LeavesParsed n before)
        (do
          o' ← store_setting t arg active o
          ok (record { options = o'; rest = s; status = status }))
        (do
          (o', io') ← store_setting_io t arg active o io
          ok (record { options = o'; rest = s; status = status }, io'))
stored n t arg active o s status before io owned (streams, strings, told) =
    bind-Agrees _ _ (store_setting_io-Agrees n t arg active o io (strings ∙ owned))
      (λ o' io' ((streams', strings'), log').
        both ((streams' ∙ streams, strings'), λ q. rw log' told))

pub parse_string_io-Agrees :
    (n : ℕ) (at : Where) (t : Setting) (o : Options) (active : Option ℤ) (s : Option Bytes)
    (io : Io)
    → io.strings ≡ n + held_settings o
    → Agrees (LeavesParsed n io) (parse_string t o active s) (parse_string_io at t o active s io)
unfolding parse_string parse_string_io string_argument
parse_string_io-Agrees n at t o active s io owned =
    let (arg, s') = strdelim s in
    stored n t arg active o s' _ io (missing_message at arg io) owned
      (missing_message-Says at arg io)

pub parse_timeout_io-Agrees :
    (n : ℕ) (at : Where) (o : Options) (active : Option ℤ) (s : Option Bytes) (io : Io)
    → io.strings ≡ n + held_settings o
    → Agrees (LeavesParsed n io) (parse_timeout o active s) (parse_timeout_io at o active s io)
unfolding parse_timeout parse_timeout_io
parse_timeout_io-Agrees n at o active s io owned =
    let (arg, s') = strdelim s in
    let (same, says) = check_timeout-Says at arg io in
    rw same (
      stored n Setting.nc_timeout arg active o s' (timeout_status arg) io
        (check_timeout at arg io).1 owned says)
