-- ===== src/Libc/Printf.antt =====
-- `snprintf` for the conversions that the program uses: `%s` and `%.200s`, and `%d`, `%i` and `%c` on
-- an argument that is given by its text.
use stonesh.Libc.Text.{is_digit}
use stonesh.Prelude.{
  zero, suc, ◌/◌, ◌%◌, ℤ, pos, negsuc, if◌then◌else◌, ℕ, ◌+◌, ◌-◌, ◌*◌, true, false, List, [], ◌∷◌,
  ◌++◌, Bytes, take, ◌==◌,
}

abbrev next : List Bytes → Bytes
next [] = []
next (a ∷ more) = a

abbrev others : List Bytes → List Bytes
others [] = []
others (a ∷ more) = more

-- Where the output stands: in plain text, behind a `%`, or in a precision.
pub data Place : Type 0 where
  plain percent : Place
  precision : ℕ → Place

-- The output from a place on; a conversion takes the next argument.
unfoldable pub format_from : Place → Bytes → List Bytes → Bytes
format_from plain [] args = []
format_from plain (c ∷ s) args = elim (c == b'%') [
  | true ↦ format_from percent s args
  | false ↦ c ∷ format_from plain s args
]
format_from percent [] args = []
format_from percent (c ∷ s) args = elim (c == b'.') [
  | true ↦ format_from (precision 0) s args
  | false ↦ next args ++ format_from plain s (others args)
]
format_from (precision n) [] args = []
format_from (precision n) (c ∷ s) args = elim (is_digit c) [
  | true ↦ format_from (precision (n * 10 + (c - b'0'))) s args
  | false ↦ take n (next args) ++ format_from plain s (others args)
]

-- The whole output.
unfoldable pub format : Bytes → List Bytes → Bytes
unfolding format_from
format fmt args = format_from plain fmt args

-- `snprintf(buf, size, fmt, …)`: the string that the buffer holds, cut to `size - 1` bytes.
unfoldable pub snprintf : ℕ → Bytes → List Bytes → Bytes
unfolding format
snprintf size fmt args = take (size - 1) (format fmt args)

-- The digits of a number in front of a text; the number is also the fuel.
digits_onto : ℕ → ℕ → Bytes → Bytes
digits_onto zero n text = text
digits_onto (suc fuel) n text =
    let longer = digits_onto fuel (n / 10) ((b'0' + n % 10) ∷ text) in
    if n / 10 == 0 then (b'0' + n % 10) ∷ text else longer

-- The text of a number for `%i`.
unfoldable pub decimal : ℤ → Bytes
unfolding digits_onto
decimal (pos n) = digits_onto (suc n) n []
decimal (negsuc n) = b'-' ∷ digits_onto (suc (suc n)) (suc n) []
