-- ===== src/Libc/Text.antt =====
-- string.h. A pointer that may be NULL is an `Option`, and a pointer into a string stands for the
-- bytes from there on. A comparison is the test that its result is 0.
use Prim.Native.Nat.{min}
use stonesh.Prelude.{
  ℕ, zero, suc, ◌+◌, ◌-◌, ◌*◌, ◌%◌, ◌^◌, Bool, true, false, not, ◌&&◌, ◌||◌, List, [], ◌∷◌, Option,
  none, some, leb, ltb, ◌==◌, if◌then◌else◌, Bytes, take_while, drop_while, length,
}
use stonesh.Libc.Ctype.{is_space, tolower}

-- The string that a buffer holds: the bytes before the first NUL.
unfoldable pub c_str : Bytes → Bytes
c_str = take_while (λ c. not (c == 0))

-- `strncmp(a, b, n) == 0`; behind a string stands its NUL
unfoldable pub strncmp : Bytes → Bytes → ℕ → Bool
strncmp a b zero = true
strncmp [] [] (suc n) = true
strncmp (x ∷ a) (y ∷ b) (suc n) = x == y && strncmp a b n
strncmp [] (y ∷ b) (suc n) = false
strncmp (x ∷ a) [] (suc n) = false

-- `strncasecmp(a, b, n) == 0`
unfoldable pub strncasecmp : Bytes → Bytes → ℕ → Bool
strncasecmp a b zero = true
strncasecmp [] [] (suc n) = true
strncasecmp (x ∷ a) (y ∷ b) (suc n) = tolower x == tolower y && strncasecmp a b n
strncasecmp [] (y ∷ b) (suc n) = false
strncasecmp (x ∷ a) [] (suc n) = false

-- `strcasecmp(a, b) == 0`
unfoldable pub strcasecmp : Bytes → Bytes → Bool
strcasecmp [] [] = true
strcasecmp (x ∷ a) (y ∷ b) = tolower x == tolower y && strcasecmp a b
strcasecmp [] (y ∷ b) = false
strcasecmp (x ∷ a) [] = false

-- The byte `c` is one of the set.
unfoldable pub one_of : Bytes → ℕ → Bool
one_of [] c = false
one_of (d ∷ ds) c = c == d || one_of ds c

-- `strpbrk(s, set)`: the string from its first byte that is in the set, or NULL.
unfoldable pub strpbrk : Bytes → Bytes → Option Bytes
unfolding one_of
strpbrk [] set = none
strpbrk (c ∷ s) set = if one_of set c then some (c ∷ s) else strpbrk s set

-- `strsep(&s, d)` with one delimiter: the token, and what `s` points to afterwards.
unfoldable pub strsep : Bytes → ℕ → Bytes × Option Bytes
strsep [] d = ([], none)
strsep (c ∷ s) d =
    if c == d then ([], some s) else let (token, rest) = strsep s d in (c ∷ token, rest)

unfoldable pub behind : Bytes → Bytes
behind [] = []
behind (c ∷ s) = s

-- The token that starts at the first byte that is no delimiter.
unfoldable pub split_token : Bytes → Bytes → Option (Bytes × Bytes)
unfolding one_of behind
split_token [] set = none
split_token (c ∷ s) set = some (
  take_while (λ x. not (one_of set x)) (c ∷ s),
  behind (drop_while (λ x. not (one_of set x)) (c ∷ s)),
)

-- `strtok(s, set)`: the next token and what is left for `strtok(NULL, set)`, or NULL.
unfoldable pub strtok : Bytes → Bytes → Option (Bytes × Bytes)
unfolding split_token
strtok s set = split_token (drop_while (one_of set) s) set

unfoldable pub strtok_loop : ℕ → Bytes → Bytes → List Bytes
unfolding strtok
strtok_loop zero s set = []
strtok_loop (suc fuel) s set = elim (strtok s set) [
  | none ↦ []
  | some (token, rest) ↦ token ∷ strtok_loop fuel rest set
]

-- The tokens of `strtok(s, set)` and the calls of `strtok(NULL, set)` behind it, in order.
unfoldable pub strtok_all : Bytes → Bytes → List Bytes
unfolding strtok_loop
strtok_all s set = strtok_loop (length s) s set

abbrev pub is_digit : ℕ → Bool
is_digit c = leb b'0' c && leb c b'9'

-- the number that the digits in front spell behind `acc`, with no bound
digits_value : ℕ → Bytes → ℕ
digits_value acc [] = acc
digits_value acc (c ∷ s) =
    let rest = digits_value (acc * 10 + (c - b'0')) s in if is_digit c then rest else acc

-- `strtol` behind the blanks: it saturates, and a negative number is its pattern of 64 bits.
signed_value : Bytes → ℕ
unfolding digits_value
signed_value [] = 0
signed_value (c ∷ s) =
    if c == b'-'
    then (2 ^ 64 - min (digits_value 0 s) (2 ^ 63)) % 2 ^ 64
    else if c == b'+'
    then min (digits_value 0 s) (2 ^ 63 - 1)
    else min (digits_value 0 (c ∷ s)) (2 ^ 63 - 1)

-- `0 < atoi(s)`, where `atoi` is `strtol` cut to an `int` of 32 bits.
unfoldable pub atoi_pos : Bytes → Bool
unfolding is_space signed_value
atoi_pos s = let w = signed_value (drop_while is_space s) % 2 ^ 32 in ltb 0 w && ltb w (2 ^ 31)
