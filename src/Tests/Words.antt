-- ===== src/Tests/Words.antt =====
-- Instances of the theorems on strings and keywords.
use stonesh.Libc.{decimal}
use stonesh.Prelude.{pos, negsuc, refl, ◌≡◌, ◌↔◌, arith, codes}
use stonesh.Util.{trim}
use stonesh.Util.Trim.{Trims}
use stonesh.Util.Unique.{trim_iff}

trim_iff_example : (trim (codes " a#b") ≡ codes "a") ↔ Trims (codes " a#b") (codes "a")
trim_iff_example =
    trim_iff (codes " a#b") (codes "a")
      (omega arith, (omega arith, (omega arith, (omega arith, tt))))

decimal_runs : (decimal (pos 120) ≡ codes "120") × (decimal (negsuc 8) ≡ codes "-9")
unfolding decimal
decimal_runs = (refl, refl)
