-- ===== src/Base/Bits.antt =====
-- The laws of `bit_xor` on natural numbers, from its lowest digit.
use py_xroot_dclient.Base.{◌<◌, ◌^◌, ◌⊎◌, inl, inr}
use Prim.Native.Nat.{
  ℕ, zero, suc, ◌+◌, ◌*◌, ◌/◌, ◌%◌, ◌≤◌, ◌<◌, ◌^◌, bit_xor, digits, bit_xor-bitwise, differ,
}
use native.Mathlib.Nat.{le_refl, pow-suc}
use mathlib.Core.Path.{◌≡◌, refl, sym, ap, ◌∙◌}
use native.Mathlib.Omega.{arith}

abbrev xor_digits : ℕ → ℕ → ℕ → ℕ
xor_digits n a b = digits (λ y. y) differ n a b

-- A unit of fuel beyond the first number changes nothing.
one_more : (n a b : ℕ) → a ≤ n → xor_digits (suc n) a b ≡ xor_digits n a b
one_more zero zero b h = refl
one_more (suc n) zero b h = refl
one_more zero (suc a) b h = elim h [ ]
one_more (suc n) (suc a) b h = rw (one_more n (suc a / 2) (b / 2) (omega arith))

equal_or_below : (n a : ℕ) → a ≤ suc n → (a ≡ suc n) ⊎ (a ≤ n)
equal_or_below n a h = ground arith

settled : (n a b : ℕ) → a ≤ n → xor_digits n a b ≡ xor_digits a a b
settled zero zero b h = refl
settled zero (suc a) b h = elim h [ ]
settled (suc n) a b h = elim (equal_or_below n a h) [
  | inl e ↦ ap (λ (m : ℕ). xor_digits m a b) (sym e)
  | inr l ↦ one_more n a b l ∙ settled n a b l
]

-- Two digits differ if their sum is odd.
differ_sum : (x y : ℕ) → x ≤ 1 → y ≤ 1 → differ x y ≡ (x + y) % 2
differ_sum zero zero h k = refl
differ_sum zero (suc zero) h k = refl
differ_sum (suc zero) zero h k = refl
differ_sum (suc zero) (suc zero) h k = refl
differ_sum zero (suc (suc y)) h k = absurd (omega arith)
differ_sum (suc zero) (suc (suc y)) h k = absurd (omega arith)
differ_sum (suc (suc x)) y h k = absurd (omega arith)

bit_xor_step : (a b : ℕ) → bit_xor a b ≡ bit_xor (a / 2) (b / 2) * 2 + (a % 2 + b % 2) % 2
bit_xor_step zero b = omega (arith, bit_xor-bitwise 0 b, bit_xor-bitwise 0 (b / 2))
bit_xor_step (suc a) b = omega (
  arith,
  bit_xor-bitwise (suc a) b,
  bit_xor-bitwise (suc a / 2) (b / 2),
  settled a (suc a / 2) (b / 2) (omega arith),
  differ_sum (suc a % 2) (b % 2) (omega arith) (omega arith),
)

pub half-bit_xor : (a b : ℕ) → bit_xor a b / 2 ≡ bit_xor (a / 2) (b / 2)
half-bit_xor a b = omega (arith, bit_xor_step a b)

pub odd-bit_xor : (a b : ℕ) → bit_xor a b % 2 ≡ (a % 2 + b % 2) % 2
odd-bit_xor a b = omega (arith, bit_xor_step a b)

pub zero-bit_xor : (b : ℕ) → bit_xor 0 b ≡ b
zero-bit_xor b = bit_xor-bitwise 0 b

comm_fuel : (n a b : ℕ) → a ≤ n → b ≤ n → bit_xor a b ≡ bit_xor b a
comm_fuel zero zero zero h k = refl
comm_fuel zero (suc a) b h k = absurd (omega arith)
comm_fuel zero zero (suc b) h k = absurd (omega arith)
comm_fuel (suc n) a b h k = omega (
  arith,
  bit_xor_step a b,
  bit_xor_step b a,
  comm_fuel n (a / 2) (b / 2) (omega arith) (omega arith),
)

pub bit_xor_comm : (a b : ℕ) → bit_xor a b ≡ bit_xor b a
bit_xor_comm a b = comm_fuel (a + b) a b (omega arith) (omega arith)

assoc_fuel :
    (n a b c : ℕ) → a ≤ n → b ≤ n → c ≤ n → bit_xor (bit_xor a b) c ≡ bit_xor a (bit_xor b c)
assoc_fuel zero zero zero zero h k l = refl
assoc_fuel zero (suc a) b c h k l = absurd (omega arith)
assoc_fuel zero zero (suc b) c h k l = absurd (omega arith)
assoc_fuel zero zero zero (suc c) h k l = absurd (omega arith)
assoc_fuel (suc n) a b c h k l =
    let left = bit_xor_step (bit_xor a b) c in
    let right = bit_xor_step a (bit_xor b c) in
    omega (
      arith,
      rw (half-bit_xor a b, odd-bit_xor a b) at left,
      rw (half-bit_xor b c, odd-bit_xor b c) at right,
      assoc_fuel n (a / 2) (b / 2) (c / 2) (omega arith) (omega arith) (omega arith),
    )

pub bit_xor_assoc : (a b c : ℕ) → bit_xor (bit_xor a b) c ≡ bit_xor a (bit_xor b c)
bit_xor_assoc a b c = assoc_fuel (a + b + c) a b c (omega arith) (omega arith) (omega arith)

self_fuel : (n a : ℕ) → a ≤ n → bit_xor a a ≡ 0
self_fuel zero zero h = refl
self_fuel zero (suc a) h = absurd (omega arith)
self_fuel (suc n) a h = omega (arith, bit_xor_step a a, self_fuel n (a / 2) (omega arith))

pub bit_xor_self : (a : ℕ) → bit_xor a a ≡ 0
bit_xor_self a = self_fuel a a (le_refl a)

pub bit_xor-zero : (a : ℕ) → bit_xor a 0 ≡ a
bit_xor-zero a = bit_xor_comm a 0 ∙ zero-bit_xor a

-- What both sides are changed by goes out.
pub bit_xor_cancel : (a b p : ℕ) → bit_xor (bit_xor a p) (bit_xor b p) ≡ bit_xor a b
bit_xor_cancel a b p =
    bit_xor_assoc a p (bit_xor b p)
    ∙ ap (bit_xor a) (
        ap (bit_xor p) (bit_xor_comm b p)
        ∙ sym (bit_xor_assoc p p b)
        ∙ ap (λ (x : ℕ). bit_xor x b) (bit_xor_self p)
        ∙ zero-bit_xor b)

pub bit_xor_swap : (a b c : ℕ) → bit_xor (bit_xor a b) c ≡ bit_xor (bit_xor a c) b
bit_xor_swap a b c =
    bit_xor_assoc a b c ∙ ap (bit_xor a) (bit_xor_comm b c) ∙ sym (bit_xor_assoc a c b)

mul_pow-suc : (q k : ℕ) → q * 2 ^ suc k ≡ q * 2 ^ k + q * 2 ^ k
mul_pow-suc q k = omega (arith, ap (◌*◌ q) (pow-suc 2 k))

half-fields : (n a r : ℕ) → (a * 2 ^ suc n + r) / 2 ≡ a * 2 ^ n + r / 2
half-fields n a r = omega (arith, mul_pow-suc a n)

odd-fields : (n a r : ℕ) → (a * 2 ^ suc n + r) % 2 ≡ r % 2
odd-fields n a r = omega (arith, mul_pow-suc a n)

-- The lowest bits of two numbers, and the others, by themselves.
pub bit_xor-fields :
    (n a b r s : ℕ)
    → r < 2 ^ n
    → s < 2 ^ n
    → bit_xor (a * 2 ^ n + r) (b * 2 ^ n + s) ≡ bit_xor a b * 2 ^ n + bit_xor r s
bit_xor-fields zero a b r s h k =
    let none_left : r ≡ 0 = omega arith in
    let none_right : s ≡ 0 = omega arith in
    let left : a * 2 ^ 0 + r ≡ a = omega arith in
    let right : b * 2 ^ 0 + s ≡ b = omega arith in
    rw (left, right, none_left, none_right) (omega arith)
bit_xor-fields (suc n) a b r s h k =
    let lowest = bit_xor_step (a * 2 ^ suc n + r) (b * 2 ^ suc n + s) in
    omega (
      arith,
      rw (half-fields n a r, half-fields n b s, odd-fields n a r, odd-fields n b s) at lowest,
      bit_xor_step r s,
      mul_pow-suc (bit_xor a b) n,
      bit_xor-fields n a b (r / 2) (s / 2) (omega (arith, pow-suc 2 n))
          (omega (arith, pow-suc 2 n)),
    )

pub bit_xor-lt : (n r s : ℕ) → r < 2 ^ n → s < 2 ^ n → bit_xor r s < 2 ^ n
bit_xor-lt zero r s h k =
    let none_left : r ≡ 0 = omega arith in
    let none_right : s ≡ 0 = omega arith in rw (none_left, none_right) (omega arith)
bit_xor-lt (suc n) r s h k = omega (
  arith,
  bit_xor_step r s,
  pow-suc 2 n,
  bit_xor-lt n (r / 2) (s / 2) (omega (arith, pow-suc 2 n)) (omega (arith, pow-suc 2 n)),
)
