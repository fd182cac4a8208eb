-- ===== src/Readconf/Directives/Fold.antt =====
-- What a list of directives makes of the options: the first value of each flag and string.
use stonesh.Prelude.{
  ℕ, Bool, true, false, List, [], ◌∷◌, Option, none, some, ℤ, pos, minus_one, int_eq, ◌≡◌, ◌≢◌, inl,
  inr, refl, sym, ap, ◌∙◌, arith, Bytes, Bool-cases, Option-cases, if◌then◌else◌,
}
use stonesh.Readconf.Directives.{
  Directive, switch, assign, bit, Flag-discrete, Setting-discrete, flag_value_of, string_value_of,
}
use stonesh.Readconf.Directives.Rows.{apply_one}
use stonesh.Readconf.Line.{is_null}
use stonesh.Readconf.Line.Stores.{first_string, first_flag}
use stonesh.Readconf.Options.{Options, Flag, Setting, get_flag, set_flag, get_setting, set_setting}
use stonesh.Readconf.Options.Extends.{get-set_flag, get-set_setting}

abbrev pub apply : List Directive → Options → Options
apply [] o = o
apply (d ∷ ds) o = apply ds (apply_one d o)

-- The value that is there already, and otherwise the one that the directives give.
abbrev pub flag_or : ℤ → Option Bool → ℤ
flag_or v none = v
flag_or v (some b) = if int_eq v minus_one then pos (bit b) else v

abbrev pub string_or : Option Bytes → Option Bytes → Option Bytes
string_or none s = s
string_or (some v) s = some v

set_other :
    (t : Setting) (v : Option Bytes) (o : Options) (f : Flag)
    → get_flag f (set_setting t v o) ≡ get_flag f o
set_other Setting.ssh_path v o Flag.debug = refl
set_other _ v o Flag.debug = refl
set_other _ v o _ = refl

set_flag_other :
    (f : Flag) (v : ℤ) (o : Options) (t : Setting)
    → get_setting t (set_flag f v o) ≡ get_setting t o
set_flag_other Flag.debug v o Setting.ssh_path = refl
set_flag_other _ v o Setting.ssh_path = refl
set_flag_other _ v o _ = refl

-- Setting one option first, seen at another.
first_string-flag :
    (t : Setting) (v : Bytes) (o : Options) (f : Flag)
    → get_flag f (first_string t v o) ≡ get_flag f o
first_string-flag t v o f = elim (Bool-cases (is_null (get_setting t o))) [
  | inl e ↦ rw e (set_other t (some v) o f)
  | inr e ↦ rw e
]

first_flag-string :
    (f : Flag) (n : ℕ) (o : Options) (t : Setting)
    → get_setting t (first_flag f n o) ≡ get_setting t o
first_flag-string f n o t = elim (Bool-cases (int_eq (get_flag f o) minus_one)) [
  | inl e ↦ rw e (set_flag_other f (pos n) o t)
  | inr e ↦ rw e
]

set_flag_self : (f : Flag) (v : ℤ) (o : Options) → get_flag f (set_flag f v o) ≡ v
set_flag_self Flag.debug v o = refl
set_flag_self _ v o = refl

set_setting_self :
    (t : Setting) (v : Option Bytes) (o : Options) → get_setting t (set_setting t v o) ≡ v
set_setting_self Setting.ssh_path v o = refl
set_setting_self _ v o = refl

first_flag_self :
    (f : Flag) (n : ℕ) (o : Options)
    → get_flag f (first_flag f n o)
      ≡ (if int_eq (get_flag f o) minus_one then pos n else get_flag f o)
first_flag_self f n o = elim (Bool-cases (int_eq (get_flag f o) minus_one)) [
  | inl e ↦ rw e (set_flag_self f (pos n) o)
  | inr e ↦ rw e
]

first_flag-other :
    (f g : Flag) (n : ℕ) (o : Options) → f ≢ g → get_flag f (first_flag g n o) ≡ get_flag f o
first_flag-other f g n o ne = elim (Bool-cases (int_eq (get_flag g o) minus_one)) [
  | inl e ↦ rw e (elim (get-set_flag g f (pos n) o) [
    | inl (same, _) ↦ absurd (ne (sym same))
    | inr kept ↦ kept
  ])
  | inr e ↦ rw e
]

first_string_self :
    (t : Setting) (v : Bytes) (o : Options)
    → get_setting t (first_string t v o) ≡ string_or (get_setting t o) (some v)
first_string_self t v o = elim (Option-cases (get_setting t o)) [
  | inl e ↦ rw e (set_setting_self t (some v) o)
  | inr (s, e) ↦ rw e e
]

first_string-other :
    (t u : Setting) (v : Bytes) (o : Options)
    → t ≢ u
    → get_setting t (first_string u v o) ≡ get_setting t o
first_string-other t u v o ne = elim (Bool-cases (is_null (get_setting u o))) [
  | inl e ↦ rw e (elim (get-set_setting u t (some v) o) [
    | inl (same, _) ↦ absurd (ne (sym same))
    | inr kept ↦ kept
  ])
  | inr e ↦ rw e
]

bit_or :
    (v : ℤ) (b : Bool) (rest : Option Bool)
    → flag_or (if int_eq v minus_one then pos (bit b) else v) rest ≡ flag_or v (some b)
bit_or v b none = refl
bit_or v true (some c) = ground arith
bit_or v false (some c) = ground arith

string_or_first :
    (v : Option Bytes) (s : Bytes) (rest : Option Bytes)
    → string_or (string_or v (some s)) rest ≡ string_or v (some s)
string_or_first none s rest = refl
string_or_first (some v) s rest = refl

pub get_flag-apply :
    (f : Flag) (ds : List Directive) (o : Options)
    → get_flag f (apply ds o) ≡ flag_or (get_flag f o) (flag_value_of f ds)
unfolding flag_value_of
get_flag-apply f [] o = refl
get_flag-apply f (assign t v ∷ ds) o =
    get_flag-apply f ds (first_string t v o)
    ∙ ap (λ x. flag_or x (flag_value_of f ds)) (first_string-flag t v o f)
get_flag-apply f (switch g b ∷ ds) o =
    elim (Flag-discrete f g)
      as (λ d.
        get_flag f (apply ds (first_flag g (bit b) o))
        ≡ flag_or (get_flag f o) (elim d [ yes e ↦ some b | no n ↦ flag_value_of f ds ])) [
          | yes e ↦
              get_flag-apply f ds (first_flag g (bit b) o)
              ∙ ap (λ x. flag_or x (flag_value_of f ds))
                  (ap (λ h. get_flag f (first_flag h (bit b) o)) (sym e)
                    ∙ first_flag_self f (bit b) o)
              ∙ bit_or (get_flag f o) b (flag_value_of f ds)
          | no n ↦
              get_flag-apply f ds (first_flag g (bit b) o)
              ∙ ap (λ x. flag_or x (flag_value_of f ds)) (first_flag-other f g (bit b) o n)
        ]

pub get_setting-apply :
    (t : Setting) (ds : List Directive) (o : Options)
    → get_setting t (apply ds o) ≡ string_or (get_setting t o) (string_value_of t ds)
unfolding string_value_of
get_setting-apply t [] o = none_or (get_setting t o)
  where
    none_or : (v : Option Bytes) → v ≡ string_or v none
    none_or none = refl
    none_or (some v) = refl
get_setting-apply t (switch g b ∷ ds) o =
    get_setting-apply t ds (first_flag g (bit b) o)
    ∙ ap (λ x. string_or x (string_value_of t ds)) (first_flag-string g (bit b) o t)
get_setting-apply t (assign u v ∷ ds) o =
    elim (Setting-discrete t u)
      as (λ d.
        get_setting t (apply ds (first_string u v o))
        ≡ string_or (get_setting t o) (elim d [ yes e ↦ some v | no n ↦ string_value_of t ds ])) [
          | yes e ↦
              get_setting-apply t ds (first_string u v o)
              ∙ ap (λ x. string_or x (string_value_of t ds))
                  (ap (λ h. get_setting t (first_string h v o)) (sym e) ∙ first_string_self t v o)
              ∙ string_or_first (get_setting t o) v (string_value_of t ds)
          | no n ↦
              get_setting-apply t ds (first_string u v o)
              ∙ ap (λ x. string_or x (string_value_of t ds)) (first_string-other t u v o n)
        ]

-- No directive sets the method.
first_flag-auth_type : (f : Flag) (n : ℕ) (o : Options) → (first_flag f n o).auth_type ≡ o.auth_type
first_flag-auth_type f n o = elim (Bool-cases (int_eq (get_flag f o) minus_one)) [
  | inl e ↦ rw e (by_flag f)
  | inr e ↦ rw e
]
  where
    by_flag : (g : Flag) → (set_flag g (pos n) o).auth_type ≡ o.auth_type
    by_flag Flag.debug = refl
    by_flag _ = refl

first_string-auth_type :
    (t : Setting) (v : Bytes) (o : Options) → (first_string t v o).auth_type ≡ o.auth_type
first_string-auth_type t v o = elim (Bool-cases (is_null (get_setting t o))) [
  | inl e ↦ rw e (by_setting t)
  | inr e ↦ rw e
]
  where
    by_setting : (u : Setting) → (set_setting u (some v) o).auth_type ≡ o.auth_type
    by_setting Setting.ssh_path = refl
    by_setting _ = refl

pub auth_type-apply : (ds : List Directive) (o : Options) → (apply ds o).auth_type ≡ o.auth_type
auth_type-apply [] o = refl
auth_type-apply (switch f b ∷ ds) o =
    auth_type-apply ds (first_flag f (bit b) o) ∙ first_flag-auth_type f (bit b) o
auth_type-apply (assign t v ∷ ds) o =
    auth_type-apply ds (first_string t v o) ∙ first_string-auth_type t v o
