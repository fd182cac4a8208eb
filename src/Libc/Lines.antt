-- ===== src/Libc/Lines.antt =====
-- The lines that the loops over `fgets` read are all of the text: the fuel is enough.
use stonesh.Libc.Stdio.{get_line, fgets, read_loop, read_lines}
use stonesh.Prelude.{
  ℕ, zero, suc, ◌≤◌, List, [], ◌∷◌, ◌++◌, ◌≡◌, refl, ap, ◌∙◌, arith, Bytes, inl, inr, Bool-cases,
  ◌==◌, length, All,
}

abbrev pub concat : List Bytes → Bytes
concat [] = []
concat (line ∷ lines) = line ++ concat lines

get_line-parts : (room : ℕ) (s : Bytes) → (get_line room s).0 ++ (get_line room s).1 ≡ s
unfolding get_line
get_line-parts zero s = refl
get_line-parts (suc room) [] = refl
get_line-parts (suc room) (c ∷ s) = elim (Bool-cases (c == b'\n')) [
  | inl e ↦ rw e refl
  | inr e ↦ rw e (ap (◌∷◌ c) (get_line-parts room s))
]

get_line-shrinks : (room : ℕ) (s : Bytes) → length (get_line room s).1 ≤ length s
unfolding get_line
get_line-shrinks zero s = omega arith
get_line-shrinks (suc room) [] = omega arith
get_line-shrinks (suc room) (c ∷ s) = elim (Bool-cases (c == b'\n')) [
  | inl e ↦ rw e (omega arith)
  | inr e ↦ rw e (omega (arith, get_line-shrinks room s))
]

get_line-takes : (room c : ℕ) (s : Bytes) → length (get_line (suc room) (c ∷ s)).1 ≤ length s
unfolding get_line
get_line-takes room c s = elim (Bool-cases (c == b'\n')) [
  | inl e ↦ rw e (omega arith)
  | inr e ↦ rw e (get_line-shrinks room s)
]

-- A line fits into its buffer.
get_line-room : (room : ℕ) (s : Bytes) → length (get_line room s).0 ≤ room
unfolding get_line
get_line-room zero s = omega arith
get_line-room (suc room) [] = omega arith
get_line-room (suc room) (c ∷ s) = elim (Bool-cases (c == b'\n')) [
  | inl e ↦ rw e (omega arith)
  | inr e ↦ rw e (omega (arith, get_line-room room s))
]

read_loop-concat :
    (fuel room : ℕ) (s : Bytes)
    → length s ≤ fuel
    → (concat (read_loop fuel (suc room) s) ≡ s)
      × All (λ line. length line ≤ suc room) (read_loop fuel (suc room) s)
unfolding read_loop fgets
read_loop-concat zero room [] h = (refl, tt)
read_loop-concat zero room (c ∷ s) h = absurd (omega arith)
read_loop-concat (suc fuel) room [] h = (refl, tt)
read_loop-concat (suc fuel) room (c ∷ s) h =
    let (all, fits) =
      read_loop-concat fuel room (get_line (suc room) (c ∷ s)).1
        (omega (arith, get_line-takes room c s)) in
    (
      ap (λ rest. (get_line (suc room) (c ∷ s)).0 ++ rest) all ∙ get_line-parts (suc room) (c ∷ s),
      (get_line-room (suc room) (c ∷ s), fits),
    )

-- The lines that are read are the text, in order and with nothing left out, and each fits into the
-- buffer that it is stored in.
pub read_lines-concat :
    (room : ℕ) (s : Bytes)
    → (concat (read_lines (suc room) s) ≡ s)
      × All (λ line. length line ≤ suc room) (read_lines (suc room) s)
unfolding read_lines
read_lines-concat room s = read_loop-concat (length s) room s (omega arith)
