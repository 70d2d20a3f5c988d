-- ===== src/Proto/Frames/Layout.antt =====
-- What stands where in an encoded frame.
use py_xroot_dclient.Proto.Buffer.RoundTrip.{length-be, of_be-be}
use mathlib.Core.List.{append_assoc}
use py_xroot_dclient.Proto.Requests.Params.{length-params}
use py_xroot_dclient.Proto.Constants.{max_frame_payload}
use py_xroot_dclient.Errors.{
  ok, >>=-eq-ok, ◌>>=◌, guard-eq-ok, protocol_error, err, ok-injective, check-eq-ok,
}
use py_xroot_dclient.Base.{
  ℕ, Bytes, ◌≡◌, [], ◌%◌, ◌^◌, ◌<◌, ◌++◌, arith, length, ◌+◌, ◌≤◌, ltb, ltb→le, if◌then◌else◌, ◌==◌,
  sym, ◌∙◌, ap, drop, length-append, take, drop-length, take-length,
}
use py_xroot_dclient.Proto.Buffer.{pack_unsigned, u16, Writer, append_packed, u32, be, raw, of_be}
use py_xroot_dclient.Proto.Requests.{Request, params, payload, opcode, path_data, trailer}
use py_xroot_dclient.Proto.Frames.{finish, header, encode}

-- The header's 24 bytes.
abbrev pub header_bytes : ℕ → ℕ → Bytes → ℕ → Bytes
header_bytes streamid code ps dlen = ((be 2 (streamid % 2 ^ 16) ++ be 2 code) ++ ps) ++ be 4 dlen

append_packed-ok :
    (n v : ℕ) (w w' : Writer)
    → append_packed (pack_unsigned n v) w ≡ ok w'
    → (v < 256 ^ n) × (w' ≡ w ++ be n v)
unfolding pack_unsigned
append_packed-ok n v w w' h = ground arith

header-ok :
    (streamid code : ℕ) (ps : Bytes) (dlen : ℕ) (h : Bytes)
    → header streamid code ps dlen ≡ ok h
    → (code < 256 ^ 2) × (dlen < 256 ^ 4) × (h ≡ header_bytes streamid code ps dlen)
unfolding header u16 u32 raw
header-ok streamid code ps dlen h e =
    let (a, ea, e₁) =
      >>=-eq-ok (u16 (streamid % 2 ^ 16) []) (λ a. u16 code a >>= λ b. raw ps b >>= λ c. u32 dlen c)
        e in
    let (b, eb, e₂) = >>=-eq-ok (u16 code a) (λ b. raw ps b >>= λ c. u32 dlen c) e₁ in
    let pa = append_packed-ok 2 (streamid % 2 ^ 16) [] a ea in
    let pb = append_packed-ok 2 code a b eb in
    let pc = append_packed-ok 4 dlen (b ++ ps) h e₂ in (pb.0, pc.0, rw (pc.1, pb.1, pa.1))

pub record Layout (r : Request) (streamid : ℕ) (frame : Bytes) : Type 0 where
  pub ps : Bytes
  pub body : Bytes
  pub ps_from : params r [] ≡ ok ps
  pub body_from : payload r ≡ ok body
  pub ps_length : length ps ≡ 16
  pub opcode_fits : opcode r < 2 ^ 16
  pub dlen_fits : length body + length (path_data r) ≤ max_frame_payload
  pub bytes :
      frame
      ≡ header_bytes streamid (opcode r) ps (length body + length (path_data r))
        ++ (body ++ trailer r)

finish-Layout :
    (r : Request) (streamid : ℕ) (ps body frame : Bytes)
    → params r [] ≡ ok ps
    → payload r ≡ ok body
    → finish r streamid ps body ≡ ok frame
    → Layout r streamid frame
unfolding finish
finish-Layout r streamid ps body frame ep eb h =
    let dlen = length body + length (path_data r) in
    let write = λ (head : Bytes). ok (head ++ (body ++ trailer r)) in
    let m = header streamid (opcode r) ps dlen >>= write in
    let (small, h₁) = guard-eq-ok (ltb max_frame_payload dlen) protocol_error m {a = frame} h in
    let (head, eh, ef) = >>=-eq-ok (header streamid (opcode r) ps dlen) write {t = frame} h₁ in
    let (c, d, e) = header-ok streamid (opcode r) ps dlen head eh in
    record {
      ps = ps;
      body = body;
      ps_from = ep;
      body_from = eb;
      ps_length = omega (arith, length-params r [] ps ep);
      opcode_fits = c;
      dlen_fits = ltb→le _ _ small;
      bytes =
          sym (ok-injective (head ++ (body ++ trailer r)) frame ef)
          ∙ ap (λ (t : Bytes). t ++ (body ++ trailer r)) e;
    }

-- A frame that `encode` returns is the stream id in 16 bits, the opcode, the 16 parameter bytes,
-- the length of the payload and the path data together, which is at most the protocol's maximum,
-- then the payload and the trailer; the parameters and the payload are the request's.
pub encode-Layout :
    (r : Request) (streamid : ℕ) (frame : Bytes)
    → encode r streamid ≡ ok frame
    → Layout r streamid frame
unfolding encode
encode-Layout r streamid frame h =
    let rest = λ (ps : Bytes).
      if length ps == 16 then (payload r >>= finish r streamid ps) else err protocol_error in
    let (ps, ep, h₁) = >>=-eq-ok (params r []) rest {t = frame} h in
    let (_, h₂) =
      check-eq-ok (length ps == 16) protocol_error (payload r >>= finish r streamid ps) {a = frame}
        h₁ in
    let (body, eb, h₃) = >>=-eq-ok (payload r) (finish r streamid ps) {t = frame} h₂ in
    finish-Layout r streamid ps body frame ep eb h₃

-- The fields, read back from the frame.
module _ (r : Request) (streamid : ℕ) (frame : Bytes) (l : Layout r streamid frame) where
  rest : Bytes
  rest = l.body ++ trailer r

  dlen : ℕ
  dlen = length l.body + length (path_data r)

  from_opcode : Bytes
  unfolding rest dlen
  from_opcode = be 2 (opcode r) ++ (l.ps ++ (be 4 dlen ++ rest))

  split_sid : frame ≡ be 2 (streamid % 2 ^ 16) ++ from_opcode
  unfolding from_opcode
  split_sid = l.bytes ∙ simp append_assoc

  split_dlen :
      frame ≡ ((be 2 (streamid % 2 ^ 16) ++ be 2 (opcode r)) ++ l.ps) ++ (be 4 dlen ++ rest)
  unfolding rest dlen
  split_dlen =
      l.bytes
      ∙ append_assoc ((be 2 (streamid % 2 ^ 16) ++ be 2 (opcode r)) ++ l.ps)
          (be 4 (length l.body + length (path_data r))) (l.body ++ trailer r)

  split_header : frame ≡ header_bytes streamid (opcode r) l.ps dlen ++ rest
  unfolding rest dlen
  split_header = l.bytes

  drop_at : (n : ℕ) (xs ys : Bytes) → length xs ≡ n → drop n (xs ++ ys) ≡ ys
  drop_at n xs ys e = rw (sym e) (drop-length xs ys)

  take_at : (n : ℕ) (xs ys : Bytes) → length xs ≡ n → take n (xs ++ ys) ≡ xs
  take_at n xs ys e = rw (sym e) (take-length xs ys)

  length-front : length ((be 2 (streamid % 2 ^ 16) ++ be 2 (opcode r)) ++ l.ps) ≡ 20
  length-front = omega (
    arith,
    length-append (be 2 (streamid % 2 ^ 16) ++ be 2 (opcode r)) l.ps,
    length-append (be 2 (streamid % 2 ^ 16)) (be 2 (opcode r)),
    length-be 2 (streamid % 2 ^ 16),
    length-be 2 (opcode r),
    l.ps_length,
  )

  length-header : length (header_bytes streamid (opcode r) l.ps dlen) ≡ 24
  length-header = omega (
    arith,
    length-append ((be 2 (streamid % 2 ^ 16) ++ be 2 (opcode r)) ++ l.ps) (be 4 dlen),
    length-front,
    length-be 4 dlen,
  )

  pub long_enough : 24 ≤ length frame
  long_enough = omega (
    arith,
    ap length split_header,
    length-append (header_bytes streamid (opcode r) l.ps dlen) rest,
    length-header,
  )

  pub read_opcode : of_be 0 (take 2 (drop 2 frame)) ≡ opcode r
  unfolding from_opcode
  read_opcode =
      rw
        (
          split_sid,
          drop_at 2 (be 2 (streamid % 2 ^ 16)) from_opcode (length-be 2 _),
          take_at 2 (be 2 (opcode r)) (l.ps ++ (be 4 dlen ++ rest)) (length-be 2 _),
          of_be-be 2 (opcode r) 0 l.opcode_fits,
        )
        (omega arith)

  pub read_dlen : of_be 0 (take 4 (drop 20 frame)) ≡ length l.body + length (path_data r)
  unfolding dlen
  read_dlen =
      rw
        (
          split_dlen,
          drop_at 20 ((be 2 (streamid % 2 ^ 16) ++ be 2 (opcode r)) ++ l.ps) (be 4 dlen ++ rest)
              length-front,
          take_at 4 (be 4 dlen) rest (length-be 4 dlen),
          of_be-be 4 dlen 0 (omega (arith, l.dlen_fits)),
        )
        (omega arith)

  pub frame_split : drop 24 frame ≡ l.body ++ trailer r
  unfolding rest
  frame_split =
      rw (split_header, drop_at 24 (header_bytes streamid (opcode r) l.ps dlen) rest length-header)

  pub length-frame : length frame ≡ 24 + length l.body + length (trailer r)
  unfolding rest
  length-frame = omega (
    arith,
    ap length split_header,
    length-header,
    length-append (header_bytes streamid (opcode r) l.ps dlen) rest,
    length-append l.body (trailer r),
  )
