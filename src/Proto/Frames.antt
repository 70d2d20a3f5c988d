-- ===== src/Proto/Frames.antt =====
-- src/xrd/proto/frames.py: the request frame and the response header.
pub mod Layout
use py_xroot_dclient.Proto.Constants.{response_hdrlen, max_frame_payload, max_response_body}
use py_xroot_dclient.Proto.Buffer.{of_be, u16, raw, u32}
use py_xroot_dclient.Errors.{Result, ◌>>=◌, err, protocol_error, ok}
use py_xroot_dclient.Base.{
  ℕ, Bytes, replicate, ◌++◌, length, [], take, ◌+◌, ◌∷◌, ◌%◌, ◌^◌, drop, if◌then◌else◌, ltb, ◌==◌,
}
use py_xroot_dclient.Proto.Requests.{Request, params, path_data, payload, opcode, trailer}

-- ROOTD_PQ, after three zero words and a 4.
abbrev pub handshake : Bytes
handshake = replicate 12 0 ++ (0 ∷ 0 ∷ 0 ∷ 4 ∷ 0 ∷ 0 ∷ 7 ∷ 220 ∷ [])

-- `_HDR.pack(streamid & 0xFFFF, opcode, params, dlen)`
unfoldable pub header : ℕ → ℕ → Bytes → ℕ → Result Bytes
header streamid code ps dlen =
    u16 (streamid % 2 ^ 16) [] >>= λ a. u16 code a >>= λ b. raw ps b >>= λ c. u32 dlen c

-- The end of `encode`, once the parameters and the payload are there.
unfoldable pub finish : Request → ℕ → Bytes → Bytes → Result Bytes
unfolding header
finish req streamid ps body =
    let dlen = length body + length (path_data req) in
    if ltb max_frame_payload dlen
    then err protocol_error
    else (header streamid (opcode req) ps dlen >>= λ head. ok (head ++ (body ++ trailer req)))

unfoldable pub encode : Request → ℕ → Result Bytes
unfolding finish
encode req streamid = params req [] >>= λ ps.
    if length ps == 16
    then (payload req >>= λ body. finish req streamid ps body)
    else err protocol_error

pub record ResponseHeader : Type 0 where
  pub streamid : ℕ
  pub status : ℕ
  pub dlen : ℕ

-- `_RESP_HDR.unpack`, of the leading 8 bytes.
unfoldable pub decode_header : Bytes → Result ResponseHeader
decode_header body =
    let sid = of_be 0 (take 2 body) in
    let status = of_be 0 (take 2 (drop 2 body)) in
    let dlen = of_be 0 (take 4 (drop 4 body)) in
    if ltb (length body) response_hdrlen
    then err protocol_error
    else if ltb max_response_body dlen
    then err protocol_error
    else ok (record { streamid = sid; status = status; dlen = dlen })
