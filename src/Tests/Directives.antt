-- ===== src/Tests/Directives.antt =====
-- An instance of the theorem on a configuration file of directives.
use stonesh.Prelude.{codes, ◌≡◌, refl, ok, pos, arith, true, List, [], ◌∷◌, map, All}
use stonesh.Readconf.File.{read_config_file}
use stonesh.Libc.Rows.{text_of}
use stonesh.Readconf.Directives.{
  Directive, switch, assign, directive_row, IsDirective, flag_value_of, string_value_of,
}
use stonesh.Readconf.Directives.Fold.{string_or}
use stonesh.Readconf.Directives.Refines.{
  method_meant, flag_meant, default_value, read_config_file-refines,
}
use stonesh.Readconf.Options.{Options, Flag, Setting, get_flag, get_setting}
use stonesh.Tests.Samples.{files_with, unset}

abbrev directives : List Directive
directives = switch Flag.debug true ∷ assign Setting.geoip_dat (codes "g") ∷ []

directives_AreDirectives : All IsDirective directives
directives_AreDirectives = (
  (
    tt,
    (
      (
        omega arith,
        (
          omega arith,
          (
            omega arith,
            (
              omega arith,
              (omega arith, (omega arith, (omega arith, (omega arith, (omega arith, tt))))),
            ),
          ),
        ),
      ),
      omega arith,
    ),
  ),
  (
    (
      (λ h. cc, λ h. cc, ((omega arith, omega arith, omega arith), tt)),
      (
        (
          omega arith,
          (
            omega arith,
            (
              omega arith,
              (
                omega arith,
                (omega arith, (omega arith, (omega arith, (omega arith, (omega arith, tt))))),
              ),
            ),
          ),
        ),
        omega arith,
      ),
    ),
    tt,
  ),
)

read_config_file-refines_example :
    (o' : Options) × (read_config_file
        (files_with (text_of (map directive_row directives)))
        (codes "c")
        unset
      ≡ ok (o', pos 1))
    × ((f : Flag) → get_flag f o' ≡ flag_meant (flag_value_of f directives))
    × ((t : Setting)
        → get_setting t o' ≡ string_or (string_value_of t directives) (default_value t))
    × (o'.auth_type
        ≡ method_meant
            (flag_value_of Flag.disable_authorization directives)
            (flag_value_of Flag.use_ldap directives))
read_config_file-refines_example =
    read_config_file-refines (files_with (text_of (map directive_row directives))) (codes "c") unset
      directives directives_AreDirectives refl
