-- ===== src/Tests/Wire.antt =====
-- Frames, signatures and bodies: runs of src/xrd/proto/buffer.py, frames.py, requests.py and
-- responses.py, and of src/xrd/crypto/sigver.py.
use py_xroot_dclient.Proto.Requests.Params.{length-params}
use py_xroot_dclient.Crypto.Sigver.Cover.{sign-encode}
use py_xroot_dclient.Base.Int.{pos}
use py_xroot_dclient.Errors.{ok}
use py_xroot_dclient.Base.{
  length, Bytes, replicate, ◌∷◌, ◌≡◌, [], true, ◌++◌, ℕ, ◌+◌, false, some, refl, take, arith,
}
use py_xroot_dclient.Proto.Buffer.{
  u8, pack_unsigned, zeros, be, padded, i32, pack_signed, i64, raw, pad, u16, u32,
}
use py_xroot_dclient.Proto.Requests.{
  write_list, path_data, join_data, trailer, opcode, params, payload, ping, writev, Request,
}
use py_xroot_dclient.Proto.Frames.{header, encode, finish}
use py_xroot_dclient.Crypto.Sigver.{is_signed, elem, required, sign, Signer, Hmac}

-- A vector write of three bytes.
abbrev vector_write : Request
vector_write = writev (((1 ∷ 2 ∷ 3 ∷ 4 ∷ []), pos 5, (7 ∷ 8 ∷ 9 ∷ [])) ∷ []) 0

abbrev block : Bytes
block = 1 ∷ 2 ∷ 3 ∷ 4 ∷ 0 ∷ 0 ∷ 0 ∷ 3 ∷ 0 ∷ 0 ∷ 0 ∷ 0 ∷ 0 ∷ 0 ∷ 0 ∷ 5 ∷ []

abbrev vector_frame : Bytes
vector_frame = (0 ∷ 4 ∷ 11 ∷ 215 ∷ replicate 16 0) ++ (0 ∷ 0 ∷ 0 ∷ 16 ∷ (block ++ (7 ∷ 8 ∷ 9 ∷ [])))

encode-vector_write : encode vector_write 4 ≡ ok vector_frame
unfolding encode params payload finish u8 pack_unsigned zeros be write_list padded i32 pack_signed
    i64 raw pad path_data u16 opcode u32 trailer join_data header
encode-vector_write = refl

payload-vector_write : payload vector_write ≡ ok block
unfolding payload write_list padded i32 pack_signed i64 raw pad be
payload-vector_write = refl

-- A stand-in for HMAC that shows its input.
abbrev plain_mac : Hmac
plain_mac key message = message

abbrev standard_signer : Signer
standard_signer = record { key = 9 ∷ []; level = 2; overrides = []; seqno = 0 }

required-vector_write : required standard_signer (opcode vector_write) ≡ true
unfolding required opcode is_signed elem
required-vector_write = refl

sign-encode_example : sign plain_mac vector_frame standard_signer ≡ (
  ok (some (1, be 8 1 ++ (take 24 vector_frame ++ block))),
  record standard_signer { seqno = 1 },
)
sign-encode_example =
    sign-encode plain_mac standard_signer vector_write 4 vector_frame block encode-vector_write
      payload-vector_write required-vector_write (omega arith)

abbrev ping_frame : Bytes
ping_frame = 0 ∷ 4 ∷ 11 ∷ 195 ∷ replicate 20 0

encode-ping : encode ping 4 ≡ ok ping_frame
unfolding encode params payload finish zeros path_data u16 pack_unsigned opcode raw u32 be trailer
    header
encode-ping = refl

required-ping : required standard_signer (opcode ping) ≡ false
unfolding required opcode is_signed elem
required-ping = refl

params-ping : params ping [] ≡ ok (replicate 16 0)
unfolding params zeros raw
params-ping = refl

length-params_example : length {A = ℕ} (replicate 16 0) ≡ length {A = ℕ} [] + 16
length-params_example = length-params ping [] (replicate 16 0) params-ping
