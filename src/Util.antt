-- ===== src/Util.antt =====
-- util.c: `trim`, `strtoupper` and `strtolower`, which work in place on a string.
pub mod Trim
pub mod Unique
pub mod Clean
pub mod Case
use stonesh.Prelude.{
  ℕ, zero, suc, Bool, false, ◌||◌, [], ◌∷◌, Bytes, ◌==◌, if◌then◌else◌, length, get_or, take,
  drop_while,
}
use stonesh.Libc.{c_str, is_space, tolower, toupper}

-- The first loop: from the first `#` on every byte becomes NUL. The flag is `comment`.
unfoldable pub cut_comment : Bool → Bytes → Bytes
cut_comment comment [] = []
cut_comment comment (c ∷ s) =
    let comment' = comment || c == b'#' in (if comment' then 0 else c) ∷ cut_comment comment' s

-- The second loop: `l` is the length so far, and the bytes from there on are NUL.
unfoldable pub strip_end : ℕ → Bytes → Bytes
strip_end zero p = []
strip_end (suc l) p =
    let shorter = strip_end l p in if is_space (get_or p l 0) then shorter else take (suc l) p

-- The third loop moves `p` to the first byte to keep.
unfoldable pub strip_start : Bytes → Bytes
strip_start = drop_while (λ c. is_space c || c == b'#')

unfoldable pub trim : Bytes → Bytes
unfolding cut_comment c_str strip_end strip_start is_space
trim [] = []
trim (c ∷ s) = let p = c_str (cut_comment false (c ∷ s)) in strip_start (strip_end (length p) p)

unfoldable pub strtoupper : Bytes → Bytes
unfolding toupper
strtoupper [] = []
strtoupper (c ∷ s) = toupper c ∷ strtoupper s

unfoldable pub strtolower : Bytes → Bytes
unfolding tolower
strtolower [] = []
strtolower (c ∷ s) = tolower c ∷ strtolower s
