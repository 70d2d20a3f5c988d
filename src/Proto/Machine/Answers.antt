-- ===== src/Proto/Machine/Answers.antt =====
-- Responses in src/xrd/proto/machine.py. A handler returns the trailer that the framer is to
-- expect, `framer.need_trailer` and `framer.trailer_for`, if it sets these.
pub mod Secure
pub mod Quiet
pub mod Streams
use py_xroot_dclient.Proto.Responses.Control.{
  ErrorInfo, AttnInfo, RedirectInfo, WaitInfo, StatusInfo, parse_attn, is_final, parse_error,
  parse_redirect, parse_wait, parse_waitresp, parse_status,
}
use py_xroot_dclient.Base.Int.{ℤ, pos, min_ℤ, negsuc}
use py_xroot_dclient.Proto.Machine.Login.{bringup}
use py_xroot_dclient.Proto.Frames.{ResponseHeader, decode_header}
use py_xroot_dclient.Base.Dict.{get, put}
use py_xroot_dclient.Proto.Machine.Outbound.{release}
use py_xroot_dclient.Base.{
  ℕ, Bytes, Option, if◌then◌else◌, none, Bool, ◌++◌, ◌==◌, true, some, false, take, drop, [], zero,
  ◌&&◌, leb, length,
}
use py_xroot_dclient.Proto.Constants.{
  kxr_oksofar, kxr_attn, kxr_error, kxr_redirect, kxr_asynresp, kxr_waitresp, kxr_ok, kxr_status,
  kxr_wait,
}
use py_xroot_dclient.Errors.{
  Result, raise_for_status, ok, Error, server_error, generic, protocol_error,
}
use py_xroot_dclient.Proto.Machine.Exec.{M, continue, emit}
use py_xroot_dclient.Proto.Machine.State.{
  Machine, Env, handshaking, negotiating, logging_in, authenticating, binding, State, Pending,
  failed_request, redirected, waiting, completed, chunk, attention,
}

abbrev pub Trailer : Type 0
Trailer = Option (ℤ × ℕ)

-- `_server_error`: the class that the code names, or a plain `ServerError` for code 0.
unfoldable pub server_error_for : ErrorInfo → Bytes → Error
unfolding raise_for_status
server_error_for info path = elim (raise_for_status info.code info.message path) [
  | some e ↦ e
  | none ↦ server_error generic info.code info.message path
]

-- `pending.buffer += body`
unfoldable pub grow : ℕ → Pending → Bytes → Machine → Machine
unfolding put
grow sid p body m = record m {
  pending = put m.pending sid (record p { buffer = p.buffer ++ body });
}

-- `_on_status_data` on a stream that has a status.
status_data : ℕ → Bytes → Pending → StatusInfo → Machine → Machine
unfolding release grow
status_data sid body p info m =
    if is_final info
    then emit (completed sid p.request (p.buffer ++ body) (some info)) (release sid m)
    else emit (chunk sid p.request body) (grow sid p body m)

-- `_on_status_data`
unfoldable pub on_status_data : ℕ → Bytes → Machine → Machine
unfolding status_data get
on_status_data sid body m = elim (get m.pending sid) [
  | none ↦ m
  | some p ↦ elim p.status [ none ↦ m | some info ↦ status_data sid body p info m ]
]

abbrev done : Machine → Result Trailer × Machine
done m = (ok none, m)

on_error : ℕ → Pending → ErrorInfo → M Trailer
unfolding server_error_for release
on_error sid p info m =
    done (emit (failed_request sid p.request (server_error_for info p.path)) (release sid m))

on_redirect : ℕ → Pending → RedirectInfo → M Trailer
on_redirect sid p target m = done (emit (redirected sid p.request target) m)

on_wait : Env → ℕ → Pending → WaitInfo → M Trailer
on_wait env sid p wait m =
    done (emit (waiting sid p.request (min_ℤ wait.seconds env.wait_cap) wait.message true) m)

on_waitresp : ℕ → Pending → WaitInfo → M Trailer
on_waitresp sid p later m = done (emit (waiting sid p.request later.seconds [] false) m)

-- `pending.status = state`
unfoldable pub with_status : ℕ → Pending → StatusInfo → Machine → Machine
unfolding put
with_status sid p info m = record m {
  pending = put m.pending sid (record p { status = some info });
}

on_status : ℕ → Pending → StatusInfo → M Trailer
unfolding with_status on_status_data
on_status sid p info m =
    let m' = with_status sid p info m in
    elim info.dlen [
      | pos zero ↦ done (on_status_data sid [] m')
      | _ ↦ (ok (some (info.dlen, sid)), m')
    ]

-- `_on_response`
unfoldable pub on_response : Env → ResponseHeader → Bytes → Pending → M Trailer
unfolding release grow on_error on_redirect on_wait on_waitresp on_status
on_response env header body p m =
    let sid = header.streamid in
    let status = header.status in
    if status == kxr_ok
    then done (emit (completed sid p.request (p.buffer ++ body) p.status) (release sid m))
    else if status == kxr_oksofar
    then done (emit (chunk sid p.request body) (grow sid p body m))
    else if status == kxr_error
    then continue (parse_error body) (on_error sid p) m
    else if status == kxr_redirect
    then continue (parse_redirect body) (on_redirect sid p) m
    else if status == kxr_wait
    then continue (parse_wait body) (on_wait env sid p) m
    else if status == kxr_waitresp
    then continue (parse_waitresp body) (on_waitresp sid p) m
    else if status == kxr_status
    then continue (parse_status body) (on_status sid p) m
    else done (emit (failed_request sid p.request protocol_error) (release sid m))

unfoldable pub in_bringup : State → Bool
in_bringup handshaking = true
in_bringup negotiating = true
in_bringup logging_in = true
in_bringup authenticating = true
in_bringup binding = true
in_bringup _ = false

bringup_answer : Env → ResponseHeader → Bytes → M Trailer
unfolding bringup
bringup_answer env header body m =
    continue (bringup env header body m).0 (λ _ m. done m) (bringup env header body m).1

stream_answer : Env → ResponseHeader → Bytes → M Trailer
unfolding on_response get
stream_answer env header body m = elim (get m.pending header.streamid) [
  | none ↦ done m
  | some p ↦ on_response env header body p m
]

-- `_dispatch`, once an attention frame is unwrapped.
unfoldable pub deliver : Env → ResponseHeader → Bytes → M Trailer
unfolding bringup_answer stream_answer in_bringup
deliver env header body m =
    if in_bringup m.state then bringup_answer env header body m else stream_answer env header body m

-- `_unwrap_attn`: an embedded response is delivered, another notice recorded.
unwrap_attn : Env → Bytes → AttnInfo → M Trailer
unfolding deliver
unwrap_attn env body info m =
    let inner =
      continue (decode_header (take 8 (drop 8 body))) (λ h. deliver env h (drop 16 body)) m in
    elim info.action [
      | pos action ↦
          if action == kxr_asynresp && leb 16 (length body)
          then inner
          else done (emit (attention info) m)
      | negsuc k ↦ done (emit (attention info) m)
    ]

-- `_dispatch`
unfoldable pub dispatch : Env → ResponseHeader → Bytes → M Trailer
unfolding deliver unwrap_attn
dispatch env header body m =
    if header.status == kxr_attn
    then continue (parse_attn body) (unwrap_attn env body) m
    else deliver env header body m
