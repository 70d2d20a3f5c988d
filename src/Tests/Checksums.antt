-- ===== src/Tests/Checksums.antt =====
-- The CRCs and the pages at the bytes of `123456789`, which the standards give check values for.
use mathlib.Core.List.{append_assoc}
use py_xroot_dclient.Crypto.Checksum.{
  new_checksum, new_checksum-update_all, update_all, joined, Hashlib, feed,
}
use py_xroot_dclient.Base.{ℕ, Bytes, [], ◌^◌, ◌<◌, refl, ◌≡◌, All, arith, IsByte, ◌∷◌, ◌++◌, sym}
use py_xroot_dclient.Base.Text.{codes}
use py_xroot_dclient.Crypto.Crc32c.{
  crc32c, crc64, crc64nvme, castagnoli, sliced, bitwise_steps, fold64, eight_step, table,
  first_table, bit_steps, bit_step, byte_step, byte_steps,
}
use py_xroot_dclient.Crypto.Crc32c.Slices.{sliced-bitwise_steps}
use py_xroot_dclient.Crypto.Crc32c.Chaining.{crc32c-append, crc32c-lt}
use py_xroot_dclient.Crypto.Crc32c.Pages.{pack_pages, unpack_pages}
use py_xroot_dclient.Crypto.Crc32c.Pages.RoundTrip.{unpack_pages-pack_pages}

abbrev digits : Bytes
digits = codes "123456789"

digits_are_bytes : All IsByte digits
digits_are_bytes = (
  omega arith,
  (
    omega arith,
    (
      omega arith,
      (omega arith, (omega arith, (omega arith, (omega arith, (omega arith, (omega arith, tt)))))),
    ),
  ),
)

crc32c_check : crc32c digits 0 ≡ 0xE3069283
unfolding crc32c sliced eight_step table first_table bit_steps bit_step byte_step byte_steps
crc32c_check = refl

crc64_check : crc64 digits 0 ≡ 0x995DC9BBDF1939FA
unfolding crc64 fold64 first_table bit_steps bit_step byte_step byte_steps
crc64_check = refl

crc64nvme_check : crc64nvme digits 0 ≡ 0xAE8B14860A799888
unfolding crc64nvme fold64 first_table bit_steps bit_step byte_step byte_steps
crc64nvme_check = refl

sliced-bitwise_steps_example : sliced castagnoli digits 5 ≡ bitwise_steps castagnoli digits 5
sliced-bitwise_steps_example = sliced-bitwise_steps castagnoli digits 5 digits_are_bytes

abbrev page_crc : Bytes → ℕ
page_crc page = crc32c page 0

page_crc-lt : (page : Bytes) → All IsByte page → page_crc page < 2 ^ 32
page_crc-lt page h = crc32c-lt page 0 h (omega arith)

-- The first page ends after two bytes.
unpack_pages-pack_pages_example :
    unpack_pages page_crc (pack_pages page_crc digits 4094) 4094 ≡ (digits, [])
unpack_pages-pack_pages_example =
    unpack_pages-pack_pages page_crc page_crc-lt digits 4094 digits_are_bytes

-- An object of hashlib stands for the bytes that it was fed with.
abbrev remembering : Hashlib
remembering = record { Object = Bytes; make = λ name. []; fold = λ bs o. o ++ bs }

-- CRC-32C stands in for the two functions of zlib.
new_checksum-update_all_example :
    update_all remembering
      (digits ∷ digits ∷ [])
      (new_checksum remembering crc32c crc32c (codes "sha-256"))
    ≡ feed remembering
        (joined (digits ∷ digits ∷ []))
        (new_checksum remembering crc32c crc32c (codes "sha-256"))
new_checksum-update_all_example =
    new_checksum-update_all remembering crc32c crc32c (codes "sha-256") digits (digits ∷ [])
      crc32c-append crc32c-append (λ xs ys o. sym (append_assoc o xs ys))
      (digits_are_bytes, (digits_are_bytes, tt))
