-- ===== src/Proto/Responses/Vector.antt =====
-- `parse_readv` and `parse_checkpoint` of src/xrd/proto/responses.py.
pub mod RoundTrip
use py_xroot_dclient.Proto.Constants.{fhandle_len}
use py_xroot_dclient.Proto.Buffer.{◌>>=◌, ◌>>◌, pure, read_u32, take_bytes, read_i32, read_i64}
use py_xroot_dclient.Base.Int.{ℤ, is_neg, pos}
use py_xroot_dclient.Errors.{Result, ok, err, stuck}
use py_xroot_dclient.Proto.Buffer.{Parser, remaining, parse_with, fail}
use py_xroot_dclient.Base.{ℕ, Bytes, List, if◌then◌else◌, length, ◌==◌, [], suc, ◌∷◌, zero}

pub record ReadVSegment : Type 0 where
  pub fhandle : Bytes
  pub offset : ℤ
  pub body : Bytes

segment_body : Bytes → ℤ → ℤ → Parser ReadVSegment
segment_body fhandle len offset =
    if is_neg len
    then fail
    else do body ← take_bytes len; pure (record { fhandle = fhandle; offset = offset; body = body })

-- One turn of the loop of `parse_readv`.
segment : Parser ReadVSegment
unfolding segment_body
segment = do
  fhandle ← take_bytes (pos fhandle_len)
  len ← read_i32
  offset ← read_i64
  segment_body fhandle len offset

-- `while r.remaining`, on fuel.
readv_loop : ℕ → Parser (List ReadVSegment)
readv_loop zero r = if remaining r == 0 then ok ([], r) else err stuck
readv_loop (suc fuel) r =
    let more = (do s ← segment; ss ← readv_loop fuel; pure (s ∷ ss)) r in
    if remaining r == 0 then ok ([], r) else more

-- A turn takes 16 bytes at least, so the length of the body is fuel enough.
unfoldable pub parse_readv : Bytes → Result (List ReadVSegment)
unfolding readv_loop segment remaining
parse_readv body = parse_with (readv_loop (length body)) body

pub record CheckpointInfo : Type 0 where
  pub capacity : ℕ
  pub used : ℕ

unfoldable pub parse_checkpoint : Bytes → Result CheckpointInfo
parse_checkpoint =
    parse_with
      (do capacity ← read_u32; used ← read_u32; pure (record { capacity = capacity; used = used }))
