-- ===== src/Geoip/Addresses.antt =====
-- `is_local` and `is_private` of geoip.c on the four bytes of an address.
use Prim.Native.Nat.{min, bit_and, bit_and-bitwise, digits}
use stonesh.Geoip.{class_a_mask, loopback_net, Net, is_local, is_private}
use stonesh.Geoip.Bits.{Splits, split_one, split_double}
use stonesh.Prelude.{
  ℕ, zero, suc, ◌+◌, ◌*◌, ◌≤◌, ◌<◌, Bool, true, false, ◌&&◌, &&-eq-true, not, inl, inr, subst, sym,
  ◌||◌, leb, ◌==◌, ==_iff, pos, Bytes, ◌≡◌, ◌/◌, ◌%◌, ◌∙◌, ◌⊎◌, ◌↔◌, refl, ap, ap₂, arith,
  Bool-cases, if◌then◌else◌,
}

-- The number that stands for the bytes in memory.
abbrev pub s_addr : ℕ → ℕ → ℕ → ℕ → ℕ
s_addr a b c d = a + (b + (c + d * 256) * 256) * 256

split_byte : Splits 256
split_byte = split_double 128 (
    split_double 64 (
      split_double 32 (
        split_double 16
          (split_double 8 (split_double 4 (split_double 2 (split_double 1 split_one)))))))

-- A test that holds below `n`.
abbrev all_below : ℕ → (ℕ → Bool) → Bool
all_below zero f = true
all_below (suc n) f = f n && all_below n f

below_suc : (x n : ℕ) → x < suc n → (x == n) ≡ false → x < n
below_suc x n l ne = ground arith

holds_below : (n : ℕ) (f : ℕ → Bool) → all_below n f ≡ true → (x : ℕ) → x < n → f x ≡ true
holds_below zero f h x l = absurd (omega arith)
holds_below (suc n) f h x l =
    let (now, before) = &&-eq-true (f n) (all_below n f) h in
    elim (Bool-cases (x == n)) [
      | inl e ↦ subst (λ y. f y ≡ true) (sym ((==_iff x n).0 e)) now
      | inr ne ↦ holds_below n f before x (below_suc x n l ne)
    ]

full_byte : (x : ℕ) → x < 256 → bit_and x 0xFF ≡ x
full_byte x l = (==_iff (bit_and x 0xFF) x).0 (holds_below 256 (λ y. bit_and y 0xFF == y) refl x l)

-- The bytes whose high half is 1.
high_half : (x : ℕ) → x < 256 → (bit_and x 0xF0 ≡ 0x10) ↔ ((16 ≤ x) × (x ≤ 31))
high_half x l =
    let t =
      holds_below 256
        (λ y. if bit_and y 0xF0 == 0x10 then leb 16 y && leb y 31 else not (leb 16 y && leb y 31))
        refl x l in
    ground (arith, t)

no_digits : (n a : ℕ) → digits (λ b. zero) min n a 0 ≡ 0
no_digits zero a = refl
no_digits (suc n) zero = refl
no_digits (suc n) (suc a) = omega (arith, no_digits n (suc a / 2))

bit_and-nothing : (a : ℕ) → bit_and a 0 ≡ 0
bit_and-nothing a = bit_and-bitwise a 0 ∙ no_digits a a

no_high : (m : ℕ) → m ≡ m + 0 * 256
no_high m = omega arith

-- Masks for the first byte and for the first two.
masked_one : (a r m : ℕ) → a < 256 → m < 256 → bit_and (a + r * 256) m ≡ bit_and a m
masked_one a r m l k =
    ap (λ n. bit_and (a + r * 256) n) (no_high m)
    ∙ (split_byte a r m 0 l k ∙ omega (arith, bit_and-nothing r))

masked_two :
    (a b r m n : ℕ)
    → a < 256
    → b < 256
    → m < 256
    → n < 256
    → bit_and (a + (b + r * 256) * 256) (m + n * 256) ≡ bit_and a m + bit_and b n * 256
masked_two a b r m n l l' k k' =
    split_byte a (b + r * 256) m n l k ∙ ap (λ x. bit_and a m + x * 256) (masked_one b r n l' k')

-- 10/8, 192.168/16 and 172.16/12, on the first two bytes of an address.
abbrev pub IsReserved : ℕ → ℕ → Type 0
IsReserved a b = (a ≡ 10) ⊎ (((a ≡ 192) × (b ≡ 168)) ⊎ ((a ≡ 172) × ((16 ≤ b) × (b ≤ 31))))

mask_a : (a b r : ℕ) → a < 256 → bit_and (a + (b + r * 256) * 256) 0xFF ≡ a
mask_a a b r l = masked_one a (b + r * 256) 0xFF l (omega arith) ∙ full_byte a l

mask_ab : (a b r : ℕ) → a < 256 → b < 256 → bit_and (a + (b + r * 256) * 256) 0xFFFF ≡ a + b * 256
mask_ab a b r l l' =
    masked_two a b r 0xFF 0xFF l l' (omega arith) (omega arith)
    ∙ ap₂ (λ x y. x + y * 256) (full_byte a l) (full_byte b l')

mask_high :
    (a b r : ℕ)
    → a < 256
    → b < 256
    → bit_and (a + (b + r * 256) * 256) 0xF0FF ≡ a + bit_and b 0xF0 * 256
mask_high a b r l l' =
    masked_two a b r 0xFF 0xF0 l l' (omega arith) (omega arith)
    ∙ ap (λ x. x + bit_and b 0xF0 * 256) (full_byte a l)

local_test : (a x : ℕ) → x ≡ a → ((if x == 0x7F then pos 1 else pos 0) ≡ pos 1) ↔ (a ≡ 127)
local_test a x e = ground arith

-- `is_local` looks at the first byte.
pub first_byte_test :
    (n : ℕ)
    → ((if bit_and n class_a_mask == loopback_net then pos 1 else pos 0) ≡ pos 1) ↔ (n % 256 ≡ 127)
first_byte_test n =
    let parts : n ≡ n % 256 + n / 256 * 256 = omega arith in
    local_test (n % 256) (bit_and n 0xFF) (
      ap (λ m. bit_and m 0xFF) parts
      ∙ (masked_one (n % 256) (n / 256) 0xFF (omega arith) (omega arith)
          ∙ full_byte (n % 256) (omega arith)))

private_test :
    (a b m x y z : ℕ)
    → a < 256
    → b < 256
    → x ≡ a
    → y ≡ a + b * 256
    → z ≡ a + m * 256
    → ((m ≡ 16) ↔ ((16 ≤ b) × (b ≤ 31)))
    → ((if x == 0x0A || (y == 0xA8C0 || z == 0x10AC) then pos 1 else pos 0) ≡ pos 1)
      ↔ IsReserved a b
private_test a b m x y z l l' ex ey ez hm = ground arith

-- For an address that `inet_pton` stores as the bytes a, b, c and d, `is_local` is 1 just if a is 127,
-- and `is_private` is 1 just if the address is in 10/8, in 192.168/16 or in 172.16/12.
pub address_ranges :
    (net : Net) (address : Bytes) (a b c d : ℕ)
    → a < 256
    → b < 256
    → net.inet_pton address ≡ (pos 1, s_addr a b c d)
    → ((is_local net address ≡ pos 1) ↔ (a ≡ 127))
      × ((is_private net address ≡ pos 1) ↔ IsReserved a b)
unfolding is_local is_private
address_ranges net address a b c d l l' e = rw e (
  local_test a (bit_and (s_addr a b c d) 0xFF) (mask_a a b (c + d * 256) l),
  private_test a b (bit_and b 0xF0) _ _ _ l l' (mask_a a b (c + d * 256) l)
      (mask_ab a b (c + d * 256) l l') (mask_high a b (c + d * 256) l l') (high_half b l'),
)
