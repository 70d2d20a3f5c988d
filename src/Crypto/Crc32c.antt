-- ===== src/Crypto/Crc32c.antt =====
-- `_crc32c_py` of src/xrd/crypto/crc32c.py, the slice-by-eight loop, and the byte-wise fold of
-- src/xrd/crypto/crc64.py. `& 1`, `& 0xFF`, `>> 1` and `>> 8` are remainders and quotients by 2 and
-- 256. A table is a function of the index.
pub mod Linear
pub mod Slices
pub mod Chaining
pub mod Pages
use py_xroot_dclient.Base.{
  ℕ, Bytes, [], ◌∷◌, zero, suc, ◌+◌, ◌-◌, ◌*◌, ◌/◌, ◌%◌, if◌then◌else◌, ◌^◌, ◌==◌,
}
use Prim.Native.Nat.{bit_xor}

-- One step of the loop over the bits: `(crc >> 1) ^ _POLY if crc & 1 else crc >> 1`.
unfoldable pub bit_step : ℕ → ℕ → ℕ
bit_step poly crc = if crc % 2 == 1 then bit_xor (crc / 2) poly else crc / 2

-- `for _ in range(n)`
unfoldable pub bit_steps : ℕ → ℕ → ℕ → ℕ
bit_steps poly zero crc = crc
bit_steps poly (suc n) crc = bit_steps poly n (bit_step poly crc)

-- `first[n]`
unfoldable pub first_table : ℕ → ℕ → ℕ
first_table poly n = bit_steps poly 8 n

-- `_T[k][n]`: `(v >> 8) ^ first[v & 0xFF]` of the entry in the table before.
unfoldable pub table : ℕ → ℕ → ℕ → ℕ
table poly zero n = first_table poly n
table poly (suc k) n = let v = table poly k n in bit_xor (v / 256) (first_table poly (v % 256))

-- `_T0[(c ^ byte) & 0xFF] ^ (c >> 8)`
unfoldable pub byte_step : ℕ → ℕ → ℕ → ℕ
byte_step poly c byte = bit_xor (first_table poly (bit_xor c byte % 256)) (c / 256)

unfoldable pub byte_steps : ℕ → Bytes → ℕ → ℕ
byte_steps poly [] c = c
byte_steps poly (b ∷ bs) c = byte_steps poly bs (byte_step poly c b)

-- The body of the loop over eight bytes, behind `c ^= int.from_bytes(view[i : i + 4], "little")`.
unfoldable pub eight_step : ℕ → ℕ → ℕ → ℕ → ℕ → ℕ → ℕ
eight_step poly c b4 b5 b6 b7 =
    bit_xor
      (bit_xor
        (bit_xor
          (bit_xor
            (bit_xor
              (bit_xor (bit_xor (table poly 7 (c % 256)) (table poly 6 (c / 256 % 256)))
                (table poly 5 (c / 65536 % 256)))
              (table poly 4 (c / 16777216)))
            (table poly 3 b4))
          (table poly 2 b5))
        (table poly 1 b6))
      (table poly 0 b7)

-- Both loops: eight bytes at a time, and the fewer than eight that are left one by one.
unfoldable pub sliced : ℕ → Bytes → ℕ → ℕ
sliced poly (b0 ∷ b1 ∷ b2 ∷ b3 ∷ b4 ∷ b5 ∷ b6 ∷ b7 ∷ rest) c =
    sliced poly rest
      (eight_step poly (bit_xor c (b0 + 256 * b1 + 65536 * b2 + 16777216 * b3)) b4 b5 b6 b7)
sliced poly bs c = byte_steps poly bs c

-- The CRC bit by bit, without a table.
unfoldable pub bitwise_steps : ℕ → Bytes → ℕ → ℕ
bitwise_steps poly [] c = c
bitwise_steps poly (b ∷ bs) c = bitwise_steps poly bs (bit_steps poly 8 (bit_xor c b))

-- `_POLY` and `_MASK`
abbrev pub castagnoli : ℕ
castagnoli = 0x82F63B78

abbrev pub mask32 : ℕ
mask32 = 0xFFFFFFFF

-- `_crc32c_py`, for a `crc` below 2 ^ 32: `(crc ^ _MASK) & _MASK` is `crc ^ _MASK` there.
unfoldable pub crc32c : Bytes → ℕ → ℕ
crc32c bs crc = bit_xor (sliced castagnoli bs (bit_xor crc mask32)) mask32

-- `_XZ`, `_NVME` and `_MASK` of src/xrd/crypto/crc64.py
abbrev pub poly_xz : ℕ
poly_xz = 0xC96C5795D7870F42

abbrev pub poly_nvme : ℕ
poly_nvme = 0x9A6C9329AC4BC9B5

-- `~c & _MASK`
abbrev pub invert64 : ℕ → ℕ
invert64 c = 2 ^ 64 - 1 - c % 2 ^ 64

-- `_fold`
unfoldable pub fold64 : ℕ → Bytes → ℕ → ℕ
fold64 poly bs crc = invert64 (byte_steps poly bs (invert64 crc))

unfoldable pub crc64 : Bytes → ℕ → ℕ
crc64 bs crc = fold64 poly_xz bs crc

unfoldable pub crc64nvme : Bytes → ℕ → ℕ
crc64nvme bs crc = fold64 poly_nvme bs crc
