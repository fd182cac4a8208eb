-- ===== src/Prelude/Fault.antt =====
-- The result of code that may commit a fault: a read through NULL, or a `free` of what was not
-- allocated. Nothing is said of what a program does after a fault.
use mathlib.Core.Path.{◌≡◌, refl}

pub data Run {ℓ} (A : Type ℓ) : Type ℓ where
  ok : A → Run A
  fault : Run A

infixl 5 ◌>>=◌
abbrev pub ◌>>=◌ {ℓ κ} : {A : Type ℓ} {B : Type κ} → Run A → (A → Run B) → Run B
ok a >>= f = f a
fault >>= f = fault

pub bind-eq-ok {ℓ κ} :
    {A : Type ℓ} {B : Type κ} (m : Run A) (f : A → Run B) {b : B}
    → (m >>= f) ≡ ok b
    → (a : A) × (m ≡ ok a) × (f a ≡ ok b)
bind-eq-ok (ok a) f h = (a, refl, h)
bind-eq-ok fault f h = cc

-- `P` holds of the result, if the code returns.
abbrev pub Safe {ℓ κ} : {A : Type ℓ} → (A → Type κ) → Run A → Type κ
Safe P (ok a) = P a
Safe P fault = Unit

pub bind-Safe {ℓ κ λ₁ λ₂} :
    {A : Type ℓ} {B : Type κ} (P : A → Type λ₁) (Q : B → Type λ₂) (m : Run A) (f : A → Run B)
    → Safe P m
    → ((a : A) → P a → Safe Q (f a))
    → Safe Q (m >>= f)
bind-Safe P Q (ok a) f h k = k a h
bind-Safe P Q fault f h k = tt

pub ok-pair_injective {ℓ κ} :
    {A : Type ℓ} {B : Type κ} (a a' : A) (b b' : B)
    → ◌≡◌ {A = Run (A × B)} (ok (a, b)) (ok (a', b'))
    → (a ≡ a') × (b ≡ b')
ok-pair_injective a a' b b' h = (cc, cc)

pub ok_injective {ℓ} : {A : Type ℓ} (a a' : A) → ok a ≡ ok a' → a ≡ a'
ok_injective a a' h = cc

-- A run with a state and one without are faults together, or have the same result, and `Q` holds of
-- it and the state.
pub data Agrees {ℓ κ λ₁} {A : Type ℓ} {S : Type κ} (Q : A → S → Type λ₁)
    : Run A → Run (A × S) → Type (ℓ ⊔ κ ⊔ λ₁) where
  both : {a : A} {s : S} → Q a s → Agrees Q (ok a) (ok (a, s))
  faults : Agrees Q fault fault

pub bind-Agrees {ℓ κ λ₁ λ₂ μ ν} :
    {A : Type ℓ} {B : Type κ} {S : Type μ} {T : Type ν} {P : A → S → Type λ₁} {Q : B → T → Type λ₂}
    {m : Run A} {r : Run (A × S)} (f : A → Run B) (g : A × S → Run (B × T))
    → Agrees P m r
    → ((a : A) (s : S) → P a s → Agrees Q (f a) (g (a, s)))
    → Agrees Q (m >>= f) (r >>= g)
bind-Agrees f g (both {a} {s} p) h = h a s p
bind-Agrees f g faults h = faults

-- The result without the state.
abbrev pub forget {ℓ κ} : {A : Type ℓ} {S : Type κ} → Run (A × S) → Run A
forget (ok (a, s)) = ok a
forget fault = fault

pub forget-Agrees {ℓ κ λ₁} :
    {A : Type ℓ} {S : Type κ} {Q : A → S → Type λ₁} {m : Run A} {r : Run (A × S)}
    → Agrees Q m r
    → forget r ≡ m
forget-Agrees (both q) = refl
forget-Agrees faults = refl

pub Safe-Agrees {ℓ κ λ₁} :
    {A : Type ℓ} {S : Type κ} {Q : A → S → Type λ₁} {m : Run A} {r : Run (A × S)}
    → Agrees Q m r
    → Safe (λ p. Q p.0 p.1) r
Safe-Agrees (both q) = q
Safe-Agrees faults = tt

pub Agrees-weaken {ℓ κ λ₁ λ₂} :
    {A : Type ℓ} {S : Type κ} {P : A → S → Type λ₁} {Q : A → S → Type λ₂} {m : Run A}
    {r : Run (A × S)}
    → ((a : A) (s : S) → P a s → Q a s)
    → Agrees P m r
    → Agrees Q m r
Agrees-weaken h (both {a} {s} p) = both (h a s p)
Agrees-weaken h faults = faults
