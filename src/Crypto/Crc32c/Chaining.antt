-- ===== src/Crypto/Crc32c/Chaining.antt =====
-- The CRCs of src/xrd/crypto/crc32c.py and src/xrd/crypto/crc64.py of data that come in pieces.
use py_xroot_dclient.Base.{
  ℕ, Bytes, [], ◌∷◌, refl, ◌++◌, ◌≤◌, ◌≡◌, ◌<◌, All, ◌∙◌, ◌^◌, IsByte, ap, arith, sym,
}
use py_xroot_dclient.Base.Bits.{bit_xor_assoc, bit_xor-zero, bit_xor-lt, bit_xor_self}
use py_xroot_dclient.Crypto.Crc32c.Linear.{bit_steps-lt}
use py_xroot_dclient.Crypto.Crc32c.Slices.{sliced-bitwise_steps, byte_steps-bitwise_steps}
use py_xroot_dclient.Crypto.Crc32c.{
  bit_steps, byte_steps, bitwise_steps, sliced, crc32c, castagnoli, mask32, fold64, invert64,
}
use Prim.Native.Nat.{bit_xor}

bitwise_steps-append :
    (poly : ℕ) (xs ys : Bytes) (c : ℕ)
    → bitwise_steps poly (xs ++ ys) c ≡ bitwise_steps poly ys (bitwise_steps poly xs c)
unfolding bitwise_steps
bitwise_steps-append poly [] ys c = refl
bitwise_steps-append poly (x ∷ xs) ys c =
    bitwise_steps-append poly xs ys (bit_steps poly 8 (bit_xor c x))

invert_twice : (c : ℕ) → c < 2 ^ 64 → invert64 (invert64 c) ≡ c
invert_twice c h = omega arith

bitwise_steps-lt :
    (poly k : ℕ) (bs : Bytes) (c : ℕ)
    → 256 ≤ 2 ^ k
    → poly < 2 ^ k
    → All IsByte bs
    → c < 2 ^ k
    → bitwise_steps poly bs c < 2 ^ k
unfolding bitwise_steps
bitwise_steps-lt poly k [] c wide h bytes l = l
bitwise_steps-lt poly k (b ∷ bs) c wide h (byte, bytes) l =
    bitwise_steps-lt poly k bs (bit_steps poly 8 (bit_xor c b)) wide h bytes
      (bit_steps-lt poly k 8 (bit_xor c b) h (bit_xor-lt k c b l (omega arith)))

pub All-append : (xs ys : Bytes) → All IsByte xs → All IsByte ys → All IsByte (xs ++ ys)
All-append [] ys h k = k
All-append (x ∷ xs) ys (h, hs) k = (h, All-append xs ys hs k)

bit_xor_twice : (a m : ℕ) → bit_xor (bit_xor a m) m ≡ a
bit_xor_twice a m = bit_xor_assoc a m m ∙ ap (bit_xor a) (bit_xor_self m) ∙ bit_xor-zero a

-- The CRC-32C of two pieces is that of the second, chained onto that of the first.
pub crc32c-append :
    (xs ys : Bytes) (crc : ℕ)
    → All IsByte xs
    → All IsByte ys
    → crc32c (xs ++ ys) crc ≡ crc32c ys (crc32c xs crc)
unfolding crc32c
crc32c-append xs ys crc h k =
    let start = bit_xor crc mask32 in
    let first = sliced castagnoli xs start in
    ap (λ (x : ℕ). bit_xor x mask32)
      (sliced-bitwise_steps castagnoli (xs ++ ys) start (All-append xs ys h k)
        ∙ bitwise_steps-append castagnoli xs ys start
        ∙ ap (bitwise_steps castagnoli ys) (sym (sliced-bitwise_steps castagnoli xs start h))
        ∙ sym (sliced-bitwise_steps castagnoli ys first k)
        ∙ ap (sliced castagnoli ys) (sym (bit_xor_twice first mask32)))

-- A CRC-32C fits in four bytes.
pub crc32c-lt : (bs : Bytes) (crc : ℕ) → All IsByte bs → crc < 2 ^ 32 → crc32c bs crc < 2 ^ 32
unfolding crc32c
crc32c-lt bs crc h l =
    bit_xor-lt 32 (sliced castagnoli bs (bit_xor crc mask32)) mask32
      (rw (sliced-bitwise_steps castagnoli bs (bit_xor crc mask32) h) (
        bitwise_steps-lt castagnoli 32 bs (bit_xor crc mask32) (omega arith) (omega arith) h
          (bit_xor-lt 32 crc mask32 l (omega arith))))
      (omega arith)

-- The CRC-64 of two pieces is that of the second, chained onto that of the first, for every
-- polynomial of at most 64 bits.
pub fold64-append :
    (poly : ℕ) (xs ys : Bytes) (crc : ℕ)
    → poly < 2 ^ 64
    → All IsByte xs
    → All IsByte ys
    → fold64 poly (xs ++ ys) crc ≡ fold64 poly ys (fold64 poly xs crc)
unfolding fold64
fold64-append poly xs ys crc h bytes more =
    let start = invert64 crc in
    let first = byte_steps poly xs start in
    let bounded : first < 2 ^ 64 =
      rw (byte_steps-bitwise_steps poly xs start bytes)
        (bitwise_steps-lt poly 64 xs start (omega arith) h bytes (omega arith)) in
    ap invert64 (
      byte_steps-bitwise_steps poly (xs ++ ys) start (All-append xs ys bytes more)
      ∙ bitwise_steps-append poly xs ys start
      ∙ ap (bitwise_steps poly ys) (sym (byte_steps-bitwise_steps poly xs start bytes))
      ∙ sym (byte_steps-bitwise_steps poly ys first more)
      ∙ ap (byte_steps poly ys) (sym (invert_twice first bounded)))
