-- ===== src/Stonesh/Texts.antt =====
-- stonesh.c: what `version` and `usage` print. The names and the version come from the build.
use stonesh.Libc.{format}
use stonesh.Prelude.{[], ◌∷◌, ◌++◌, Bytes, codes}

-- What goes to stdout and to stderr.
pub record Output : Type 0 where
  pub stdout : Bytes
  pub stderr : Bytes

unfoldable pub version_text : Bytes → Bytes → Output
version_text package_name package_version = record {
  stdout = [];
  stderr = format (codes "%s v%s\n") (package_name ∷ package_version ∷ []);
}

unfoldable pub usage_text : Bytes → Bytes → Bytes → Output
usage_text package_name package_version progname = record {
  stdout =
      format (codes "Usage: %s [ OPTIONS ]\n\n") (progname ∷ [])
      ++ (codes "Where:\n"
          ++ (codes "   -h               - Print this message\n"
              ++ (codes "   -c <command>     - Commands to be run\n"
                  ++ (codes "   -C <configfile>  - Alternate configuration file\n"
                      ++ (codes "   -l               - Log to stderr (for debugging)\n"
                          ++ codes "   -v               - Print version information\n")))));
  stderr = (version_text package_name package_version).stderr;
}
