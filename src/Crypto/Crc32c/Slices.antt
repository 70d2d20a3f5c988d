-- ===== src/Crypto/Crc32c/Slices.antt =====
-- The tables of src/xrd/crypto/crc32c.py, and eight bytes at a time against bit by bit.
use py_xroot_dclient.Base.{
  ℕ, Bytes, [], ◌∷◌, zero, suc, ◌+◌, ◌*◌, ◌/◌, ◌%◌, refl, ◌≡◌, All, length, ◌<◌, ap, sym, ◌∙◌,
  arith, IsByte, ◌^◌,
}
use py_xroot_dclient.Base.Bits.{
  bit_xor_comm, bit_xor_assoc, bit_xor-zero, bit_xor-fields, bit_xor-lt,
}
use py_xroot_dclient.Crypto.Crc32c.Linear.{bit_steps-bit_xor, bit_steps-first_table}
use py_xroot_dclient.Crypto.Crc32c.{
  bit_steps, first_table, table, byte_step, byte_steps, bitwise_steps, eight_step, sliced,
}
use Prim.Native.Nat.{bit_xor}

-- The steps for `n` bytes.
abbrev shifts : ℕ → ℕ → ℕ → ℕ
shifts poly zero c = c
shifts poly (suc n) c = bit_steps poly 8 (shifts poly n c)

module _ (poly : ℕ) where
  shifts-bit_xor :
      (n a b : ℕ) → shifts poly n (bit_xor a b) ≡ bit_xor (shifts poly n a) (shifts poly n b)
  shifts-bit_xor zero a b = refl
  shifts-bit_xor (suc n) a b =
      ap (bit_steps poly 8) (shifts-bit_xor n a b)
      ∙ bit_steps-bit_xor poly 8 (shifts poly n a) (shifts poly n b)

  shifts_first : (n c : ℕ) → shifts poly n (bit_steps poly 8 c) ≡ shifts poly (suc n) c
  shifts_first zero c = refl
  shifts_first (suc n) c = ap (bit_steps poly 8) (shifts_first n c)

  first_table-shifts : (c : ℕ) → bit_xor (first_table poly (c % 256)) (c / 256) ≡ shifts poly 1 c
  first_table-shifts c = bit_steps-first_table poly c

  -- The table `k` has what `k + 1` bytes do to its index.
  table-shifts : (k n : ℕ) → table poly k n ≡ shifts poly (suc k) n
  unfolding table first_table
  table-shifts zero n = refl
  table-shifts (suc k) n =
      bit_xor_comm (table poly k n / 256) (first_table poly (table poly k n % 256))
      ∙ bit_steps-first_table poly (table poly k n)
      ∙ ap (bit_steps poly 8) (table-shifts k n)

  -- The lowest byte and the others, apart.
  shifts_low :
      (n c : ℕ)
      → shifts poly (suc n) c ≡ bit_xor (shifts poly (suc n) (c % 256)) (shifts poly n (c / 256))
  unfolding first_table
  shifts_low zero c = sym (bit_steps-first_table poly c)
  shifts_low (suc n) c =
      ap (bit_steps poly 8) (shifts_low n c)
      ∙ bit_steps-bit_xor poly 8 (shifts poly (suc n) (c % 256)) (shifts poly n (c / 256))

  -- What the bytes of a list add, from the left.
  abbrev added : Bytes → ℕ
  added [] = 0
  added (b ∷ bs) = bit_xor (shifts poly (suc (length bs)) b) (added bs)

  bitwise_steps-added :
      (bs : Bytes) (c : ℕ)
      → bitwise_steps poly bs c ≡ bit_xor (shifts poly (length bs) c) (added bs)
  unfolding bitwise_steps
  bitwise_steps-added [] c = sym (bit_xor-zero c)
  bitwise_steps-added (b ∷ bs) c =
      bitwise_steps-added bs (bit_steps poly 8 (bit_xor c b))
      ∙ ap (λ (x : ℕ). bit_xor x (added bs))
          (shifts_first (length bs) (bit_xor c b) ∙ shifts-bit_xor (suc (length bs)) c b)
      ∙ bit_xor_assoc (shifts poly (suc (length bs)) c) (shifts poly (suc (length bs)) b) (added bs)

  high_byte : (c b : ℕ) → b < 256 → bit_xor c b / 256 ≡ c / 256
  high_byte c b h =
      let split = bit_xor-fields 8 (c / 256) 0 (c % 256) b (omega arith) (omega arith) in
      let left : c / 256 * 2 ^ 8 + c % 256 ≡ c = omega arith in
      let right : 0 * 2 ^ 8 + b ≡ b = omega arith in
      omega (
        arith,
        rw (left, right) at split,
        bit_xor-zero (c / 256),
        bit_xor-lt 8 (c % 256) b (omega arith) (omega arith),
      )

  byte_step-bit_steps : (c b : ℕ) → b < 256 → byte_step poly c b ≡ bit_steps poly 8 (bit_xor c b)
  unfolding byte_step
  byte_step-bit_steps c b h =
      ap (bit_xor (first_table poly (bit_xor c b % 256))) (sym (high_byte c b h))
      ∙ bit_steps-first_table poly (bit_xor c b)

  pub byte_steps-bitwise_steps :
      (bs : Bytes) (c : ℕ) → All IsByte bs → byte_steps poly bs c ≡ bitwise_steps poly bs c
  unfolding byte_steps bitwise_steps
  byte_steps-bitwise_steps [] c h = refl
  byte_steps-bitwise_steps (b ∷ bs) c (h, hs) =
      ap (byte_steps poly bs) (byte_step-bit_steps c b h)
      ∙ byte_steps-bitwise_steps bs (bit_steps poly 8 (bit_xor c b)) hs

  -- The four bytes that are below 2 ^ 32.
  shifts_word :
      (c : ℕ)
      → shifts poly 8 c
        ≡ bit_xor
            (bit_xor
              (bit_xor (table poly 7 (c % 256)) (table poly 6 (c / 256 % 256)))
              (table poly 5 (c / 65536 % 256)))
            (table poly 4 (c / 16777216))
  shifts_word c =
      let two : c / 256 / 256 ≡ c / 65536 = omega arith in
      let three : c / 65536 / 256 ≡ c / 16777216 = omega arith in
      rw
        (
          table-shifts 7 (c % 256),
          table-shifts 6 (c / 256 % 256),
          table-shifts 5 (c / 65536 % 256),
          table-shifts 4 (c / 16777216),
          bit_xor_assoc (bit_xor (shifts poly 8 (c % 256)) (shifts poly 7 (c / 256 % 256)))
              (shifts poly 6 (c / 65536 % 256)) (shifts poly 5 (c / 16777216)),
          bit_xor_assoc (shifts poly 8 (c % 256)) (shifts poly 7 (c / 256 % 256))
              (bit_xor (shifts poly 6 (c / 65536 % 256)) (shifts poly 5 (c / 16777216))),
        )
        (shifts_low 7 c
          ∙ ap (bit_xor (shifts poly 8 (c % 256))) (
              shifts_low 6 (c / 256)
              ∙ ap (bit_xor (shifts poly 7 (c / 256 % 256))) (
                  ap (shifts poly 6) two
                  ∙ shifts_low 5 (c / 65536)
                  ∙ ap (bit_xor (shifts poly 6 (c / 65536 % 256))) (ap (shifts poly 5) three))))

  -- The same of a number given by its four bytes.
  shifts_bytes :
      (b0 b1 b2 b3 : ℕ)
      → b0 < 256
      → b1 < 256
      → b2 < 256
      → shifts poly 8 (b0 + 256 * b1 + 65536 * b2 + 16777216 * b3)
        ≡ bit_xor
            (shifts poly 8 b0)
            (bit_xor (shifts poly 7 b1) (bit_xor (shifts poly 6 b2) (shifts poly 5 b3)))
  shifts_bytes b0 b1 b2 b3 h0 h1 h2 =
      let w = b0 + 256 * b1 + 65536 * b2 + 16777216 * b3 in
      let w1 = b1 + 256 * b2 + 65536 * b3 in
      let w2 = b2 + 256 * b3 in
      let d0 : w % 256 ≡ b0 = omega arith in
      let r0 : w / 256 ≡ w1 = omega arith in
      let d1 : w1 % 256 ≡ b1 = omega arith in
      let r1 : w1 / 256 ≡ w2 = omega arith in
      let d2 : w2 % 256 ≡ b2 = omega arith in
      let r2 : w2 / 256 ≡ b3 = omega arith in
      shifts_low 7 w
      ∙ ap (λ (x : ℕ). bit_xor (shifts poly 8 x) (shifts poly 7 (w / 256))) d0
      ∙ ap (bit_xor (shifts poly 8 b0)) (
          ap (shifts poly 7) r0
          ∙ shifts_low 6 w1
          ∙ ap (λ (x : ℕ). bit_xor (shifts poly 7 x) (shifts poly 6 (w1 / 256))) d1
          ∙ ap (bit_xor (shifts poly 7 b1)) (
              ap (shifts poly 6) r1
              ∙ shifts_low 5 w2
              ∙ ap (λ (x : ℕ). bit_xor (shifts poly 6 x) (shifts poly 5 (w2 / 256))) d2
              ∙ ap (λ (x : ℕ). bit_xor (shifts poly 6 b2) (shifts poly 5 x)) r2))

  -- Four numbers put to four that are put together.
  regroup :
      (c x0 x1 x2 x3 x4 x5 x6 x7 : ℕ)
      → bit_xor
          (bit_xor
            (bit_xor (bit_xor (bit_xor c (bit_xor x0 (bit_xor x1 (bit_xor x2 x3)))) x4) x5)
            x6)
          x7
        ≡ bit_xor c (
            bit_xor x0 (
              bit_xor x1
                (bit_xor x2 (bit_xor x3 (bit_xor x4 (bit_xor x5 (bit_xor x6 (bit_xor x7 0))))))))
  regroup c x0 x1 x2 x3 x4 x5 x6 x7 = simp (bit_xor_assoc, bit_xor-zero)

  eight_step-bitwise_steps :
      (c b0 b1 b2 b3 b4 b5 b6 b7 : ℕ)
      → b0 < 256
      → b1 < 256
      → b2 < 256
      → eight_step poly (bit_xor c (b0 + 256 * b1 + 65536 * b2 + 16777216 * b3)) b4 b5 b6 b7
        ≡ bitwise_steps poly (b0 ∷ b1 ∷ b2 ∷ b3 ∷ b4 ∷ b5 ∷ b6 ∷ b7 ∷ []) c
  unfolding eight_step
  eight_step-bitwise_steps c b0 b1 b2 b3 b4 b5 b6 b7 h0 h1 h2 =
      let w = b0 + 256 * b1 + 65536 * b2 + 16777216 * b3 in
      let word =
        sym (shifts_word (bit_xor c w))
        ∙ shifts-bit_xor 8 c w
        ∙ ap (bit_xor (shifts poly 8 c)) (shifts_bytes b0 b1 b2 b3 h0 h1 h2) in
      ap
        (λ (x : ℕ).
          bit_xor
            (bit_xor (bit_xor (bit_xor x (table poly 3 b4)) (table poly 2 b5)) (table poly 1 b6))
            (table poly 0 b7))
        word
      ∙ rw (table-shifts 3 b4, table-shifts 2 b5, table-shifts 1 b6, table-shifts 0 b7)
          (regroup (shifts poly 8 c) (shifts poly 8 b0) (shifts poly 7 b1) (shifts poly 6 b2)
            (shifts poly 5 b3) (shifts poly 4 b4) (shifts poly 3 b5) (shifts poly 2 b6)
            (shifts poly 1 b7))
      ∙ sym (bitwise_steps-added (b0 ∷ b1 ∷ b2 ∷ b3 ∷ b4 ∷ b5 ∷ b6 ∷ b7 ∷ []) c)

  -- The loop over eight bytes at a time, with its eight tables, and the loop over the bytes that are
  -- left compute the CRC that is defined bit by bit, for every polynomial and every state.
  pub sliced-bitwise_steps :
      (bs : Bytes) (c : ℕ) → All IsByte bs → sliced poly bs c ≡ bitwise_steps poly bs c
  unfolding sliced bitwise_steps
  sliced-bitwise_steps (b0 ∷ b1 ∷ b2 ∷ b3 ∷ b4 ∷ b5 ∷ b6 ∷ b7 ∷ rest) c
        (h0, (h1, (h2, (h3, (h4, (h5, (h6, (h7, hs)))))))) =
      ap (sliced poly rest) (eight_step-bitwise_steps c b0 b1 b2 b3 b4 b5 b6 b7 h0 h1 h2)
      ∙ sliced-bitwise_steps rest
          (bitwise_steps poly (b0 ∷ b1 ∷ b2 ∷ b3 ∷ b4 ∷ b5 ∷ b6 ∷ b7 ∷ []) c) hs
  sliced-bitwise_steps [] c h = byte_steps-bitwise_steps [] c h
  sliced-bitwise_steps (b0 ∷ []) c h = byte_steps-bitwise_steps (b0 ∷ []) c h
  sliced-bitwise_steps (b0 ∷ b1 ∷ []) c h = byte_steps-bitwise_steps (b0 ∷ b1 ∷ []) c h
  sliced-bitwise_steps (b0 ∷ b1 ∷ b2 ∷ []) c h = byte_steps-bitwise_steps (b0 ∷ b1 ∷ b2 ∷ []) c h
  sliced-bitwise_steps (b0 ∷ b1 ∷ b2 ∷ b3 ∷ []) c h =
      byte_steps-bitwise_steps (b0 ∷ b1 ∷ b2 ∷ b3 ∷ []) c h
  sliced-bitwise_steps (b0 ∷ b1 ∷ b2 ∷ b3 ∷ b4 ∷ []) c h =
      byte_steps-bitwise_steps (b0 ∷ b1 ∷ b2 ∷ b3 ∷ b4 ∷ []) c h
  sliced-bitwise_steps (b0 ∷ b1 ∷ b2 ∷ b3 ∷ b4 ∷ b5 ∷ []) c h =
      byte_steps-bitwise_steps (b0 ∷ b1 ∷ b2 ∷ b3 ∷ b4 ∷ b5 ∷ []) c h
  sliced-bitwise_steps (b0 ∷ b1 ∷ b2 ∷ b3 ∷ b4 ∷ b5 ∷ b6 ∷ []) c h =
      byte_steps-bitwise_steps (b0 ∷ b1 ∷ b2 ∷ b3 ∷ b4 ∷ b5 ∷ b6 ∷ []) c h
