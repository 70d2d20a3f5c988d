-- ===== src/Crypto/Crc32c/Linear.antt =====
-- A step of the CRC of src/xrd/crypto/crc32c.py takes an exclusive or to an exclusive or.
use py_xroot_dclient.Base.{
  ℕ, zero, suc, ◌+◌, ◌*◌, ◌/◌, ◌%◌, refl, ◌^◌, ◌<◌, ◌≡◌, ◌⊎◌, arith, ap, inl, ◌∙◌, inr, sym,
}
use py_xroot_dclient.Base.Bits.{
  half-bit_xor, odd-bit_xor, bit_xor_comm, bit_xor_assoc, bit_xor_cancel, bit_xor_swap,
  bit_xor-zero, bit_xor-fields, bit_xor-lt, zero-bit_xor,
}
use py_xroot_dclient.Crypto.Crc32c.{bit_step, bit_steps, first_table}
use native.Mathlib.Nat.{pow-suc}
use Prim.Native.Nat.{bit_xor}

half-shifted : (n y : ℕ) → y * 2 ^ suc n / 2 ≡ y * 2 ^ n
half-shifted n y = omega (arith, ap (λ (t : ℕ). y * t) (pow-suc 2 n))

even-shifted : (n y : ℕ) → y * 2 ^ suc n % 2 ≡ 0
even-shifted n y = omega (arith, ap (λ (t : ℕ). y * t) (pow-suc 2 n))

module _ (poly : ℕ) where
  bit_step-even : (c : ℕ) → c % 2 ≡ 0 → bit_step poly c ≡ c / 2
  unfolding bit_step
  bit_step-even c h = ground arith

  bit_step-odd : (c : ℕ) → c % 2 ≡ 1 → bit_step poly c ≡ bit_xor (c / 2) poly
  unfolding bit_step
  bit_step-odd c h = ground arith

  parity : (c : ℕ) → (c % 2 ≡ 0) ⊎ (c % 2 ≡ 1)
  parity c = ground arith

  bit_step-bit_xor :
      (a b : ℕ) → bit_step poly (bit_xor a b) ≡ bit_xor (bit_step poly a) (bit_step poly b)
  bit_step-bit_xor a b = elim (parity a) [
    | inl p ↦ elim (parity b) [
      | inl q ↦
          rw
            (
              bit_step-even (bit_xor a b) (omega (arith, odd-bit_xor a b)),
              bit_step-even a p,
              bit_step-even b q,
            )
            (half-bit_xor a b)
      | inr q ↦
          rw
            (
              bit_step-odd (bit_xor a b) (omega (arith, odd-bit_xor a b)),
              bit_step-even a p,
              bit_step-odd b q,
              half-bit_xor a b,
            )
            (bit_xor_assoc (a / 2) (b / 2) poly)
    ]
    | inr p ↦ elim (parity b) [
      | inl q ↦
          rw
            (
              bit_step-odd (bit_xor a b) (omega (arith, odd-bit_xor a b)),
              bit_step-odd a p,
              bit_step-even b q,
              half-bit_xor a b,
            )
            (bit_xor_swap (a / 2) (b / 2) poly)
      | inr q ↦
          rw
            (
              bit_step-even (bit_xor a b) (omega (arith, odd-bit_xor a b)),
              bit_step-odd a p,
              bit_step-odd b q,
              half-bit_xor a b,
            )
            (sym (bit_xor_cancel (a / 2) (b / 2) poly))
    ]
  ]

  pub bit_steps-bit_xor :
      (n a b : ℕ)
      → bit_steps poly n (bit_xor a b) ≡ bit_xor (bit_steps poly n a) (bit_steps poly n b)
  unfolding bit_steps
  bit_steps-bit_xor zero a b = refl
  bit_steps-bit_xor (suc n) a b =
      ap (bit_steps poly n) (bit_step-bit_xor a b)
      ∙ bit_steps-bit_xor n (bit_step poly a) (bit_step poly b)

  -- Bits that are not reached are only shifted.
  bit_steps-shifted : (n y : ℕ) → bit_steps poly n (y * 2 ^ n) ≡ y
  unfolding bit_steps
  bit_steps-shifted zero y = omega arith
  bit_steps-shifted (suc n) y =
      let half : y * 2 ^ suc n / 2 ≡ y * 2 ^ n = half-shifted n y in
      let even : y * 2 ^ suc n % 2 ≡ 0 = even-shifted n y in
      ap (bit_steps poly n) (bit_step-even (y * 2 ^ suc n) even ∙ half) ∙ bit_steps-shifted n y

  -- Eight steps over the bits are one look at the table.
  pub bit_steps-first_table :
      (c : ℕ) → bit_xor (first_table poly (c % 256)) (c / 256) ≡ bit_steps poly 8 c
  unfolding first_table
  bit_steps-first_table c =
      let split : bit_xor (c / 256 * 2 ^ 8 + 0) (0 * 2 ^ 8 + c % 256)
          ≡ bit_xor (c / 256) 0 * 2 ^ 8 + bit_xor 0 (c % 256) =
        bit_xor-fields 8 (c / 256) 0 0 (c % 256) (omega arith) (omega arith) in
      let left : c / 256 * 2 ^ 8 + 0 ≡ c / 256 * 2 ^ 8 = omega arith in
      let right : 0 * 2 ^ 8 + c % 256 ≡ c % 256 = omega arith in
      let whole : bit_xor (c / 256 * 2 ^ 8) (c % 256) ≡ c =
        omega (arith, rw (left, right) at split, bit_xor-zero (c / 256), zero-bit_xor (c % 256)) in
      sym (
        ap (bit_steps poly 8) (sym whole)
        ∙ bit_steps-bit_xor 8 (c / 256 * 2 ^ 8) (c % 256)
        ∙ ap (λ (x : ℕ). bit_xor x (bit_steps poly 8 (c % 256))) (bit_steps-shifted 8 (c / 256))
        ∙ bit_xor_comm (c / 256) (bit_steps poly 8 (c % 256)))

  bit_step-lt : (k c : ℕ) → poly < 2 ^ k → c < 2 ^ k → bit_step poly c < 2 ^ k
  bit_step-lt k c h l = elim (parity c) [
    | inl p ↦ omega (arith, bit_step-even c p)
    | inr p ↦ omega (arith, bit_step-odd c p, bit_xor-lt k (c / 2) poly (omega arith) h)
  ]

  pub bit_steps-lt : (k n c : ℕ) → poly < 2 ^ k → c < 2 ^ k → bit_steps poly n c < 2 ^ k
  unfolding bit_steps
  bit_steps-lt k zero c h l = l
  bit_steps-lt k (suc n) c h l = bit_steps-lt k n (bit_step poly c) h (bit_step-lt k c h l)
