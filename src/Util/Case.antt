-- ===== src/Util/Case.antt =====
-- Case folding by `strtoupper` and `strtolower` of util.c, beside `strcasecmp`.
use stonesh.Prelude.{ℕ, ◌≤◌, [], ◌∷◌, ◌≡◌, ◌↔◌, true, refl, arith, Bytes, ap₂, All}
use stonesh.Libc.{strcasecmp, tolower, toupper}
use stonesh.Util.{strtoupper, strtolower}

-- No byte of an upper-case string is a small letter.
abbrev pub NoSmall : Bytes → Type 0
NoSmall = All (λ c. ¬ ((b'a' ≤ c) × (c ≤ b'z')))

abbrev pub NoCapital : Bytes → Type 0
NoCapital = All (λ c. ¬ ((b'A' ≤ c) × (c ≤ b'Z')))

pub strtoupper-NoSmall : (s : Bytes) → NoSmall (strtoupper s)
unfolding strtoupper
strtoupper-NoSmall [] = tt
strtoupper-NoSmall (c ∷ s) = (ground arith, strtoupper-NoSmall s)

-- Each of the two undoes what the other did, and so folding to upper case forgets the case alone.
pub strtoupper-strtolower : (s : Bytes) → strtoupper (strtolower s) ≡ strtoupper s
unfolding strtoupper strtolower
strtoupper-strtolower [] = refl
strtoupper-strtolower (c ∷ s) = ap₂ ◌∷◌ (ground arith) (strtoupper-strtolower s)

tolower-eq_iff : (c d : ℕ) → (tolower c ≡ tolower d) ↔ (toupper c ≡ toupper d)
unfolding tolower toupper
tolower-eq_iff c d = ground arith

-- Two strings are the same in upper case exactly when `strcasecmp` finds no difference.
pub strtoupper-eq_iff : (s t : Bytes) → (strtoupper s ≡ strtoupper t) ↔ (strcasecmp s t ≡ true)
unfolding strtoupper strcasecmp
strtoupper-eq_iff [] [] = ground arith
strtoupper-eq_iff (c ∷ s) (d ∷ t) = ground (arith, strtoupper-eq_iff s t, tolower-eq_iff c d)
strtoupper-eq_iff [] (d ∷ t) = ground arith
strtoupper-eq_iff (c ∷ s) [] = ground arith
