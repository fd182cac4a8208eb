-- ===== src/Geoip/Bits.antt =====
-- `&` on numbers that are put together from bytes.
use native.Mathlib.Nat.{mul_assoc}
use Prim.Native.Nat.{min, bit_and, bit_and-bitwise, digits}
use stonesh.Prelude.{ℕ, zero, suc, ◌+◌, ◌*◌, ◌/◌, ◌%◌, ◌≤◌, ◌<◌, ◌≡◌, refl, ap, ap₂, ◌∙◌, arith}

-- More fuel than digits changes nothing.
enough_fuel :
    (n m a b : ℕ) → a ≤ n → a ≤ m → digits (λ b. zero) min n a b ≡ digits (λ b. zero) min m a b
enough_fuel zero zero a b h k = refl
enough_fuel zero (suc m) zero b h k = refl
enough_fuel (suc n) zero zero b h k = refl
enough_fuel (suc n) (suc m) zero b h k = refl
enough_fuel zero m (suc a) b h k = absurd (omega arith)
enough_fuel (suc n) zero (suc a) b h k = absurd (omega arith)
enough_fuel (suc n) (suc m) (suc a) b h k =
    ap (λ q. q * 2 + min (suc a % 2) (b % 2))
      (enough_fuel n m (suc a / 2) (b / 2) (omega arith) (omega arith))

-- The lowest digit, and the others.
pub bit_and_halves : (a b : ℕ) → bit_and a b ≡ bit_and (a / 2) (b / 2) * 2 + min (a % 2) (b % 2)
bit_and_halves zero b = omega (arith, bit_and-bitwise 0 b, bit_and-bitwise 0 (b / 2))
bit_and_halves (suc a) b = omega (
  arith,
  bit_and-bitwise (suc a) b,
  bit_and-bitwise (suc a / 2) (b / 2),
  enough_fuel a (suc a / 2) (suc a / 2) (b / 2) (omega arith) (omega arith),
)

-- `&` works on the part below `k` and the part from `k` on by themselves.
abbrev pub Splits : ℕ → Type 0
Splits k =
    (lo hi lo' hi' : ℕ)
    → lo < k
    → lo' < k
    → bit_and (lo + hi * k) (lo' + hi' * k) ≡ bit_and lo lo' + bit_and hi hi' * k

bit_and-zero : (b : ℕ) → bit_and 0 b ≡ 0
bit_and-zero b = bit_and-bitwise 0 b

by_one : (n : ℕ) → 0 + n * 1 ≡ n
by_one n = omega arith

pub split_one : Splits 1
split_one zero hi zero hi' h h' =
    ap₂ bit_and (by_one hi) (by_one hi') ∙ omega (arith, bit_and-zero 0)
split_one zero hi (suc lo') hi' h h' = absurd (omega arith)
split_one (suc lo) hi lo' hi' h h' = absurd (omega arith)

halve : (lo hi k : ℕ) → (lo + hi * (k * 2)) / 2 ≡ lo / 2 + hi * k
halve lo hi k = omega (arith, mul_assoc hi k 2)

parity : (lo hi k : ℕ) → (lo + hi * (k * 2)) % 2 ≡ lo % 2
parity lo hi k = omega (arith, mul_assoc hi k 2)

pub split_double : (k : ℕ) → Splits k → Splits (k * 2)
split_double k s lo hi lo' hi' h h' = omega (
  arith,
  bit_and_halves (lo + hi * (k * 2)) (lo' + hi' * (k * 2)),
  whole,
  rest,
  s (lo / 2) hi (lo' / 2) hi' (omega arith) (omega arith),
  bit_and_halves lo lo',
  mul_assoc (bit_and hi hi') k 2,
)
  where
    whole :
        bit_and ((lo + hi * (k * 2)) / 2) ((lo' + hi' * (k * 2)) / 2)
        ≡ bit_and (lo / 2 + hi * k) (lo' / 2 + hi' * k)
    whole = ap₂ bit_and (halve lo hi k) (halve lo' hi' k)

    rest : min ((lo + hi * (k * 2)) % 2) ((lo' + hi' * (k * 2)) % 2) ≡ min (lo % 2) (lo' % 2)
    rest = ap₂ min (parity lo hi k) (parity lo' hi' k)
