-- ===== src/Prelude/Bits.antt =====
-- The laws of exclusive or at every width, and finite checks: what the CRC needs of words.
use Prim.Native.Nat.{
  ℕ, zero, suc, ◌+◌, ◌*◌, ◌/◌, ◌%◌, ◌^◌, ◌≤◌, ◌<◌, bit_xor, digits, differ, max, bit_xor-bitwise,
  bit_or, bit_or-bitwise,
}
use mathlib.Core.Path.{◌≡◌, refl, sym, ap, ◌∙◌}
use mathlib.Core.Bool.{Bool, true, ◌&&◌}
use native.Mathlib.Nat.{le_refl, pow-suc}
use native.Mathlib.Omega.{arith}

xor_digits_fuel :
    (n m a b : ℕ) → a ≤ n → a ≤ m → digits (λ b. b) differ n a b ≡ digits (λ b. b) differ m a b
xor_digits_fuel zero zero a b p q = refl
xor_digits_fuel zero (suc m) zero b p q = refl
xor_digits_fuel zero (suc m) (suc a) b p q = absurd (omega arith)
xor_digits_fuel (suc n) zero zero b p q = refl
xor_digits_fuel (suc n) zero (suc a) b p q = absurd (omega arith)
xor_digits_fuel (suc n) (suc m) zero b p q = refl
xor_digits_fuel (suc n) (suc m) (suc a) b p q =
    rw (xor_digits_fuel n m (suc a / 2) (b / 2) (omega arith) (omega arith))

differ-mod : (a b : ℕ) → a < 2 → b < 2 → differ a b ≡ (a + b) % 2
differ-mod zero zero p q = refl
differ-mod zero (suc zero) p q = refl
differ-mod (suc zero) zero p q = refl
differ-mod (suc zero) (suc zero) p q = refl
differ-mod (suc (suc a)) b p q = absurd (omega arith)
differ-mod zero (suc (suc b)) p q = absurd (omega arith)
differ-mod (suc zero) (suc (suc b)) p q = absurd (omega arith)

zero-bit_xor : (b : ℕ) → bit_xor 0 b ≡ b
zero-bit_xor b = bit_xor-bitwise 0 b

bitwise-suc :
    (a b : ℕ) → bit_xor (suc a) b ≡ bit_xor (suc a / 2) (b / 2) * 2 + differ (suc a % 2) (b % 2)
bitwise-suc a b =
    simp bit_xor-bitwise
      (omega (arith, xor_digits_fuel a (suc a / 2) (suc a / 2) (b / 2) (omega arith) (le_refl _)))

-- The lowest digit, and the others.
pub bit_xor_step : (a b : ℕ) → bit_xor a b ≡ bit_xor (a / 2) (b / 2) * 2 + (a + b) % 2
bit_xor_step zero b = omega (arith, zero-bit_xor b, zero-bit_xor (b / 2))
bit_xor_step (suc a) b =
    omega (arith, bitwise-suc a b, differ-mod (suc a % 2) (b % 2) (omega arith) (omega arith))

pub div-bit_xor : (a b : ℕ) → bit_xor a b / 2 ≡ bit_xor (a / 2) (b / 2)
div-bit_xor a b = omega (arith, bit_xor_step a b)

pub mod-bit_xor : (a b : ℕ) → bit_xor a b % 2 ≡ (a + b) % 2
mod-bit_xor a b = omega (arith, bit_xor_step a b)

-- The laws below go down the digits of all their numbers at once; the fuel bounds the sum.
comm_fuel : (n a b : ℕ) → a + b ≤ n → bit_xor a b ≡ bit_xor b a
comm_fuel zero zero zero h = refl
comm_fuel zero (suc a) b h = absurd (omega arith)
comm_fuel zero zero (suc b) h = absurd (omega arith)
comm_fuel (suc n) a b h =
    omega (arith, bit_xor_step a b, bit_xor_step b a, comm_fuel n (a / 2) (b / 2) (omega arith))

pub bit_xor_comm : (a b : ℕ) → bit_xor a b ≡ bit_xor b a
bit_xor_comm a b = comm_fuel (a + b) a b (le_refl _)

pub bit_xor-zero : (a : ℕ) → bit_xor a 0 ≡ a
bit_xor-zero a = omega (arith, bit_xor_comm a 0, zero-bit_xor a)

-- The two ways to bracket, each by its digits.
assoc_left :
    (a b c : ℕ)
    → bit_xor (bit_xor a b) c ≡ bit_xor (bit_xor (a / 2) (b / 2)) (c / 2) * 2 + (a + b + c) % 2
assoc_left a b c =
    bit_xor_step (bit_xor a b) c ∙ rw (div-bit_xor a b) (omega (arith, mod-bit_xor a b))

assoc_right :
    (a b c : ℕ)
    → bit_xor a (bit_xor b c) ≡ bit_xor (a / 2) (bit_xor (b / 2) (c / 2)) * 2 + (a + b + c) % 2
assoc_right a b c =
    bit_xor_step a (bit_xor b c) ∙ rw (div-bit_xor b c) (omega (arith, mod-bit_xor b c))

assoc_fuel : (n a b c : ℕ) → a + b + c ≤ n → bit_xor (bit_xor a b) c ≡ bit_xor a (bit_xor b c)
assoc_fuel zero zero zero zero h = refl
assoc_fuel zero (suc a) b c h = absurd (omega arith)
assoc_fuel zero zero (suc b) c h = absurd (omega arith)
assoc_fuel zero zero zero (suc c) h = absurd (omega arith)
assoc_fuel (suc n) a b c h =
    omega (
      arith,
      assoc_left a b c,
      assoc_right a b c,
      assoc_fuel n (a / 2) (b / 2) (c / 2) (omega arith),
    )

pub bit_xor_assoc : (a b c : ℕ) → bit_xor (bit_xor a b) c ≡ bit_xor a (bit_xor b c)
bit_xor_assoc a b c = assoc_fuel (a + b + c) a b c (le_refl _)

self_fuel : (n a : ℕ) → a ≤ n → bit_xor a a ≡ 0
self_fuel zero zero h = refl
self_fuel zero (suc a) h = absurd (omega arith)
self_fuel (suc n) a h = omega (arith, bit_xor_step a a, self_fuel n (a / 2) (omega arith))

pub bit_xor_self : (a : ℕ) → bit_xor a a ≡ 0
bit_xor_self a = self_fuel a a (le_refl _)

-- Exclusive or with the same number twice gives the first back.
pub bit_xor_undo : (a b : ℕ) → bit_xor (bit_xor a b) b ≡ a
bit_xor_undo a b = bit_xor_assoc a b b ∙ ap (bit_xor a) (bit_xor_self b) ∙ bit_xor-zero a

pub bit_xor_cancel_right : (a b c : ℕ) → bit_xor a c ≡ bit_xor b c → a ≡ b
bit_xor_cancel_right a b c h = sym (bit_xor_undo a c) ∙ ap (λ x. bit_xor x c) h ∙ bit_xor_undo b c

pub bit_xor_cancel_left : (a b c : ℕ) → bit_xor c a ≡ bit_xor c b → a ≡ b
bit_xor_cancel_left a b c h = bit_xor_cancel_right a b c (bit_xor_comm a c ∙ h ∙ bit_xor_comm c b)

pub bit_xor_lt : (k a b : ℕ) → a < 2 ^ k → b < 2 ^ k → bit_xor a b < 2 ^ k
bit_xor_lt zero zero zero ha hb = omega arith
bit_xor_lt zero (suc a) b ha hb = absurd (omega arith)
bit_xor_lt zero zero (suc b) ha hb = absurd (omega arith)
bit_xor_lt (suc k) a b ha hb = omega (
  arith,
  bit_xor_step a b,
  pow-suc 2 k,
  bit_xor_lt k (a / 2) (b / 2) (omega (arith, pow-suc 2 k)) (omega (arith, pow-suc 2 k)),
)

mul-two-pow-suc : (c width : ℕ) → c * 2 ^ suc width ≡ 2 * (c * 2 ^ width)
mul-two-pow-suc c width = omega (arith, ap (λ (power : ℕ). c * power) (pow-suc 2 width))

-- Fields that share no digit are added.
pub bit_xor_fields : (k q r : ℕ) → r < 2 ^ k → bit_xor (q * 2 ^ k) r ≡ q * 2 ^ k + r
bit_xor_fields zero q zero h = ground (arith, bit_xor-zero q)
bit_xor_fields zero q (suc r) h = absurd (omega arith)
bit_xor_fields (suc k) q r h = ground (
  arith,
  pow-suc 2 k,
  bit_xor_step (q * 2 ^ suc k) r,
  mul-two-pow-suc q k,
  bit_xor_fields k q (r / 2),
)

-- Inclusive or of two fields that share no digit adds them too.
or_digits_fuel :
    (n m a b : ℕ) → a ≤ n → a ≤ m → digits (λ b. b) max n a b ≡ digits (λ b. b) max m a b
or_digits_fuel zero zero a b p q = refl
or_digits_fuel zero (suc m) zero b p q = refl
or_digits_fuel zero (suc m) (suc a) b p q = absurd (omega arith)
or_digits_fuel (suc n) zero zero b p q = refl
or_digits_fuel (suc n) zero (suc a) b p q = absurd (omega arith)
or_digits_fuel (suc n) (suc m) zero b p q = refl
or_digits_fuel (suc n) (suc m) (suc a) b p q =
    rw (or_digits_fuel n m (suc a / 2) (b / 2) (omega arith) (omega arith))

zero-bit_or : (b : ℕ) → bit_or 0 b ≡ b
zero-bit_or b = bit_or-bitwise 0 b

bit_or_step : (a b : ℕ) → bit_or a b ≡ bit_or (a / 2) (b / 2) * 2 + max (a % 2) (b % 2)
bit_or_step zero b = omega (arith, zero-bit_or b, zero-bit_or (b / 2))
bit_or_step (suc a) b =
    simp bit_or-bitwise
      (omega (arith, or_digits_fuel a (suc a / 2) (suc a / 2) (b / 2) (omega arith) (le_refl _)))

or-zero_fuel : (n a : ℕ) → a ≤ n → bit_or a 0 ≡ a
or-zero_fuel zero zero h = refl
or-zero_fuel zero (suc a) h = absurd (omega arith)
or-zero_fuel (suc n) a h = omega (arith, bit_or_step a 0, or-zero_fuel n (a / 2) (omega arith))

pub bit_or_fields : (k q r : ℕ) → r < 2 ^ k → bit_or (q * 2 ^ k) r ≡ q * 2 ^ k + r
bit_or_fields zero q zero h = ground (arith, or-zero_fuel q q)
bit_or_fields zero q (suc r) h = absurd (omega arith)
bit_or_fields (suc k) q r h = ground (
  arith,
  pow-suc 2 k,
  bit_or_step (q * 2 ^ suc k) r,
  mul-two-pow-suc q k,
  bit_or_fields k q (r / 2),
)

-- Over a small range, every value is checked by evaluation.
unfoldable pub all_below : ℕ → (ℕ → Bool) → Bool
all_below zero p = true
all_below (suc n) p = p n && all_below n p

pub all_below_sound :
    (n : ℕ) (test : ℕ → Bool) (i : ℕ) → all_below n test ≡ true → i < n → test i ≡ true
unfolding all_below
all_below_sound zero test i every below = absurd (omega arith)
all_below_sound (suc n) test i every below = ground (arith, all_below_sound n test i)
