-- ===== src/Proto/Responses/Control.antt =====
-- The bodies of the control statuses, of src/xrd/proto/responses.py.
use py_xroot_dclient.Proto.Buffer.{
  ◌>>=◌, ◌>>◌, read_u32, read_i32, read_u16, cstring, rest, read_u8, take_bytes,
}
use py_xroot_dclient.Proto.Text.{before_sep, after_sep}
use py_xroot_dclient.Proto.Buffer.{Parser, parse_with, fail, pure, read_i64}
use py_xroot_dclient.Base.Int.{ℤ, pos}
use py_xroot_dclient.Errors.{Result, err, protocol_error}
use py_xroot_dclient.Base.{ℕ, Bool, Bytes, ◌==◌, if◌then◌else◌, ltb, length, is_nil, [], ◌+◌}
use py_xroot_dclient.Proto.Constants.{kxr_finalresult, kxr_1strequest}

pub record ErrorInfo : Type 0 where
  pub code : ℤ
  pub message : Bytes

unfoldable pub parse_error : Bytes → Result ErrorInfo
parse_error =
    parse_with
      (do code ← read_i32; message ← cstring; pure (record { code = code; message = message }))

pub record RedirectInfo : Type 0 where
  pub host : Bytes
  pub port : ℤ
  pub token : Bytes

redirect_target : ℤ → Bytes → Parser RedirectInfo
redirect_target port target =
    let host = before_sep b'?' target in
    if is_nil host
    then fail
    else pure (record { host = host; port = port; token = after_sep b'?' target })

unfoldable pub parse_redirect : Bytes → Result RedirectInfo
unfolding redirect_target
parse_redirect =
    parse_with (do port ← read_i32; tail ← rest; redirect_target port (before_sep 0 tail))

pub record WaitInfo : Type 0 where
  pub seconds : ℤ
  pub message : Bytes

unfoldable pub parse_wait : Bytes → Result WaitInfo
parse_wait = parse_with (do
  seconds ← read_i32
  message ← cstring
  pure (record { seconds = seconds; message = message }))

unfoldable pub parse_waitresp : Bytes → Result WaitInfo
parse_waitresp =
    parse_with (do seconds ← read_i32; pure (record { seconds = seconds; message = [] }))

pub record AttnInfo : Type 0 where
  pub action : ℤ
  pub params : Bytes

unfoldable pub parse_attn : Bytes → Result AttnInfo
parse_attn =
    parse_with
      (do action ← read_i32; params ← rest; pure (record { action = action; params = params }))

pub record StatusInfo : Type 0 where
  pub crc : ℕ
  pub streamid : ℕ
  pub requestid : ℕ
  pub resptype : ℕ
  pub dlen : ℤ
  pub info : Bytes

abbrev pub is_final : StatusInfo → Bool
is_final s = s.resptype == kxr_finalresult

unfoldable pub parse_status : Bytes → Result StatusInfo
parse_status = parse_with (do
  crc ← read_u32
  streamid ← read_u16
  request ← read_u8
  resptype ← read_u8
  take_bytes (pos 4)
  dlen ← read_i32
  info ← rest
  pure (record {
    crc = crc;
    streamid = streamid;
    requestid = request + kxr_1strequest;
    resptype = resptype;
    dlen = dlen;
    info = info;
  }))

-- `StatusInfo.offset`
unfoldable pub status_offset : StatusInfo → Result ℤ
status_offset s = if ltb (length s.info) 8 then err protocol_error else parse_with read_i64 s.info
