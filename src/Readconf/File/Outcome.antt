-- ===== src/Readconf/File/Outcome.antt =====
-- When `read_config_file` of readconf.c accepts a file, and what the options are afterwards.
use stonesh.Prelude.{
  ℕ, ◌+◌, zero, suc, true, List, [], ◌∷◌, Option, none, some, ℤ, pos, minus_one, int_eq, int_eq_iff,
  ok, bind-eq-ok, ok_injective, ok-pair_injective, Safe, bind-Safe, ◌≡◌, ◌⊎◌, ◌↔◌, inl, inr, refl,
  sym, ◌∙◌, subst, ap, arith, Bytes, Bool-cases, if◌then◌else◌, ltb,
}
use stonesh.Libc.{c_str, read_lines}
use stonesh.Readconf.File.{
  FileSystem, config_room, read_options, finish_options, read_opened, read_config_file,
}
use stonesh.Readconf.Line.{process_config_line}
use stonesh.Readconf.Line.Keeps.{process_config_line-Extends}
use stonesh.Readconf.Options.{Options, Flag, get_flag, initialize_options, fill_default_options}
use stonesh.Readconf.Options.Defaults.{
  IsFlag, IsPartial, IsUnsetOrFlag, IsComplete, IsFreed, initialize-IsPartial, fill-IsComplete,
  free-IsFreed,
}
use stonesh.Readconf.Options.Extends.{Extends}

-- Every line is accepted with the result 0, and takes the options from `o` to `o'`.
pub data Reads : Options → List Bytes → Options → Type 0 where
  end : {o : Options} → Reads o [] o
  line :
      {o o₁ o' : Options} {l : Bytes} {ls : List Bytes}
      → process_config_line o (c_str l) (some (pos 1)) ≡ ok (o₁, pos 0)
      → Reads o₁ ls o'
      → Reads o (l ∷ ls) o'

Extends-IsPartial : {o o' : Options} → Extends o o' → IsPartial o → IsPartial o'
Extends-IsPartial {o} {o'} e p = record {
  flags = λ f. flag_case f (e.flags f) (p.flags f);
  no_auth_type = e.auth_type_same ∙ p.no_auth_type;
  no_host = e.host_same ∙ p.no_host;
  no_port = e.port_same ∙ p.no_port;
}
  where
    flag_case :
        (f : Flag)
        → (get_flag f o' ≡ get_flag f o) ⊎ ((get_flag f o ≡ minus_one) × IsFlag (get_flag f o'))
        → IsUnsetOrFlag (get_flag f o)
        → IsUnsetOrFlag (get_flag f o')
    flag_case f (inl same) u = subst IsUnsetOrFlag (sym same) u
    flag_case f (inr (_, v)) u = inr v

module _ (ls : List Bytes) (o o₁ o' : Options) (bad : ℕ) (l : Bytes) where
  abbrev After : ℤ → Type 0
  After err =
      (process_config_line o (c_str l) (some (pos 1)) ≡ ok (o₁, err))
      → (if int_eq err minus_one
          then ok (o₁, bad + 1)
          else read_options ls o₁ (if int_eq err (pos 0) then bad else bad + 1))
        ≡ ok (o', 0)
      → ((b : ℕ) → read_options ls o₁ b ≡ ok (o', 0) → (b ≡ 0) × Reads o₁ ls o')
      → (bad ≡ 0) × Reads o (l ∷ ls) o'

  counted : (bad + 1 ≡ 0) × Reads o₁ ls o' → (bad ≡ 0) × Reads o (l ∷ ls) o'
  counted (e, r) = absurd (omega arith)

  read_line-Reads : (err : ℤ) → After err
  read_line-Reads err step rest ih = elim (Bool-cases (int_eq err minus_one)) [
    | inl abort ↦ absurd (omega (arith, (ok-pair_injective o₁ o' (bad + 1) 0 (rw abort at rest)).1))
    | inr go ↦ elim (Bool-cases (int_eq err (pos 0))) [
      | inl fine ↦
          let (e, r) = ih bad (rw (go, fine) at rest) in
          (e, line (rw ((int_eq_iff err (pos 0)).0 fine) at step) r)
      | inr wrong ↦ counted (ih (bad + 1) (rw (go, wrong) at rest))
    ]
  ]

-- A line with an error is counted, and the count does not fall.
read_options-Reads :
    (ls : List Bytes) (o : Options) (bad : ℕ) (o' : Options)
    → read_options ls o bad ≡ ok (o', 0)
    → (bad ≡ 0) × Reads o ls o'
unfolding read_options
read_options-Reads [] o bad o' h =
    let (e, z) = ok-pair_injective o o' bad 0 h in (z, subst (Reads o []) e end)
read_options-Reads (l ∷ ls) o bad o' h =
    let ((o₁, err), step, rest) = bind-eq-ok (process_config_line o (c_str l) (some (pos 1))) _ h in
    read_line-Reads ls o o₁ o' bad l err step rest (λ b. read_options-Reads ls o₁ b o')

Reads-read_options :
    {ls : List Bytes} {o o' : Options} (bad : ℕ)
    → Reads o ls o'
    → read_options ls o bad ≡ ok (o', bad)
unfolding read_options
Reads-read_options bad end = refl
Reads-read_options bad (line step r) = rw step (Reads-read_options bad r)

read_options-IsPartial :
    (ls : List Bytes) (o : Options) (bad : ℕ)
    → IsPartial o
    → Safe (λ r. IsPartial r.0) (read_options ls o bad)
unfolding read_options
read_options-IsPartial [] o bad p = p
read_options-IsPartial (l ∷ ls) o bad p =
    bind-Safe (λ r. Extends o r.0) (λ r. IsPartial r.0) _ _
      (process_config_line-Extends o (c_str l) (some (pos 1)))
      λ (o₁, err) e. branch o₁ err (read_options-IsPartial ls o₁) (Extends-IsPartial e p)
  where
    branch :
        (o₁ : Options) (err : ℤ)
        → ((b : ℕ) → IsPartial o₁ → Safe (λ r. IsPartial r.0) (read_options ls o₁ b))
        → IsPartial o₁
        → Safe
            (λ r. IsPartial r.0)
            (if int_eq err minus_one
              then ok (o₁, bad + 1)
              else read_options ls o₁ (if int_eq err (pos 0) then bad else bad + 1))
    branch o₁ err ih q = elim (Bool-cases (int_eq err minus_one)) [
      | inl abort ↦ rw abort q
      | inr go ↦ rw go (ih _ q)
    ]

finish_options-ok :
    (p : Options) (bad : ℕ) (o' : Options)
    → finish_options (p, bad) ≡ (o', pos 1)
    → (bad ≡ 0) × (o' ≡ fill_default_options p)
unfolding finish_options
finish_options-ok p zero o' h = (refl, sym (ap (λ r. r.0) h))
finish_options-ok p (suc bad) o' h = ground arith

-- What an accepted file makes of the options.
abbrev pub AcceptedAs : Bytes → Options → Options → Type 0
AcceptedAs content o o' =
    (p : Options) × Reads (initialize_options o) (read_lines config_room content) p
    × (o' ≡ fill_default_options p)

read_opened-accepts :
    (content : Bytes) (o o' : Options)
    → (read_opened (some content) o ≡ ok (o', pos 1)) ↔ AcceptedAs content o o'
unfolding read_opened
read_opened-accepts content o o' = (forth, back)
  where
    forth : read_opened (some content) o ≡ ok (o', pos 1) → AcceptedAs content o o'
    forth e =
        let ((p, bad), loop, rest) =
          bind-eq-ok (read_options (read_lines config_room content) (initialize_options o) 0) _ e in
        let (z, f) = finish_options-ok p bad o' (ok_injective _ _ rest) in
        (p, (read_options-Reads _ _ 0 p (loop ∙ ap (λ (n : ℕ). ok (p, n)) z)).1, f)

    back : AcceptedAs content o o' → read_opened (some content) o ≡ ok (o', pos 1)
    back (p, r, e) = rw (Reads-read_options 0 r, e) (unfold finish_options in refl)

abbrev IsFinal : Options × ℤ → Type 0
IsFinal r = ((r.1 ≡ pos 1) × IsComplete r.0) ⊎ ((r.1 ≡ pos 0) × IsFreed r.0)

finish_options-IsFinal : (p : Options) (bad : ℕ) → IsPartial p → IsFinal (finish_options (p, bad))
unfolding finish_options
finish_options-IsFinal p zero h = inl (refl, fill-IsComplete p h)
finish_options-IsFinal p (suc bad) h =
    let e : ltb 0 (suc bad) ≡ true = ground arith in rw e (inr (refl, (free-IsFreed p).0))

read_opened-IsFinal : (content : Option Bytes) (o : Options) → Safe IsFinal (read_opened content o)
unfolding read_opened
read_opened-IsFinal none o = inr (refl, (free-IsFreed o).0)
read_opened-IsFinal (some content) o =
    bind-Safe (λ r. IsPartial r.0) IsFinal _ _
      (read_options-IsPartial _ (initialize_options o) 0 (initialize-IsPartial o))
      λ (p, bad) h. finish_options-IsFinal p bad h

module _ (files : FileSystem) (filename : Bytes) (o : Options) where
  -- A file that can be opened is accepted, and the options become `o'`, exactly when every line that
  -- `fgets` reads from it, from the unset options on, has the result 0 and no fault, and `o'` is what
  -- they leave with the defaults filled in.
  pub read_config_file-accepts :
      (content : Bytes) (o' : Options)
      → files filename ≡ some content
      → (read_config_file files filename o ≡ ok (o', pos 1)) ↔ AcceptedAs content o o'
  unfolding read_config_file
  read_config_file-accepts content o' h = rw h (read_opened-accepts content o o')

  -- If reading returns, either the result is 1 and the options are complete, with a method that the
  -- flags decide, or it is 0 and no string is left.
  pub read_config_file-outcome :
      Safe
        (λ r. ((r.1 ≡ pos 1) × IsComplete r.0) ⊎ ((r.1 ≡ pos 0) × IsFreed r.0))
        (read_config_file files filename o)
  unfolding read_config_file
  read_config_file-outcome = read_opened-IsFinal (files filename) o
