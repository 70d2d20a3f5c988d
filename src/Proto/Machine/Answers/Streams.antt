-- ===== src/Proto/Machine/Answers/Streams.antt =====
-- Answers keep the stream ids apart.
use py_xroot_dclient.Base.Cases.{on_bool, on_option, on_some}
use py_xroot_dclient.Proto.Machine.Login.{bringup}
use py_xroot_dclient.Proto.Machine.Outbound.Streams.{release-AreStreams}
use py_xroot_dclient.Errors.{Result}
use py_xroot_dclient.Base.Dict.{get}
use py_xroot_dclient.Proto.Machine.Answers.Secure.{on_sign, on_zero}
use py_xroot_dclient.Proto.Machine.Login.Streams.{bringup-AreStreams}
use py_xroot_dclient.Proto.Machine.Streams.{AreStreams, put_old-AreStreams, on_continue}
use py_xroot_dclient.Proto.Responses.Control.{
  AttnInfo, StatusInfo, is_final, parse_attn, parse_error, parse_redirect, parse_wait,
  parse_waitresp, parse_status,
}
use py_xroot_dclient.Proto.Frames.{ResponseHeader, decode_header}
use py_xroot_dclient.Base.{ℕ, Bytes, ◌≡◌, some, ◌==◌, ◌&&◌, [], leb, length, take, drop}
use py_xroot_dclient.Proto.Machine.State.{Env, Pending, Machine}
use py_xroot_dclient.Proto.Machine.Answers.{
  on_response, on_status_data, on_status, dispatch, unwrap_attn, deliver, bringup_answer,
  with_status, status_data, on_error, on_redirect, grow, stream_answer, on_wait, on_waitresp,
  Trailer, in_bringup,
}
use py_xroot_dclient.Proto.Constants.{
  kxr_asynresp, kxr_wait, kxr_oksofar, kxr_ok, kxr_attn, kxr_waitresp, kxr_error, kxr_status,
  kxr_redirect,
}

pub on_status_data-AreStreams :
    (sid : ℕ) (body : Bytes) (m : Machine) → AreStreams m → AreStreams (on_status_data sid body m)
unfolding on_status_data status_data grow
on_status_data-AreStreams sid body m h =
    on_some AreStreams (get m.pending sid) (λ _. h)
      λ p q. on_option AreStreams p.status h λ info.
        on_bool AreStreams (is_final info) (release-AreStreams sid m h)
          (put_old-AreStreams _ p sid m h q)

on_status-AreStreams :
    (sid : ℕ) (p : Pending) (info : StatusInfo) (m : Machine)
    → get m.pending sid ≡ some p
    → AreStreams m
    → AreStreams (on_status sid p info m).1
unfolding on_status with_status
on_status-AreStreams sid p info m q h =
    let n = with_status sid p info m in
    let hn : AreStreams n = put_old-AreStreams _ p sid m h q in
    on_zero {R = Result Trailer × Machine} (λ r. AreStreams r.1) info.dlen
      (on_status_data-AreStreams sid [] n hn) hn

on_response-AreStreams :
    (env : Env) (header : ResponseHeader) (body : Bytes) (p : Pending) (m : Machine)
    → get m.pending header.streamid ≡ some p
    → AreStreams m
    → AreStreams (on_response env header body p m).1
unfolding on_response on_error on_redirect on_wait on_waitresp grow
on_response-AreStreams env header body p m q h =
    let sid = header.streamid in
    let done = release-AreStreams sid m h in
    let P : Result Trailer × Machine → Type 0 = λ r. AreStreams r.1 in
    on_bool P (header.status == kxr_ok) done (
      on_bool P (header.status == kxr_oksofar) (put_old-AreStreams _ p sid m h q) (
        on_bool P (header.status == kxr_error)
          (on_continue AreStreams (parse_error body) (on_error sid p) m h (λ info. done))
          (on_bool P (header.status == kxr_redirect)
            (on_continue AreStreams (parse_redirect body) (on_redirect sid p) m h (λ target. h))
            (on_bool P (header.status == kxr_wait)
              (on_continue AreStreams (parse_wait body) (on_wait env sid p) m h (λ wait. h))
              (on_bool P (header.status == kxr_waitresp)
                (on_continue AreStreams (parse_waitresp body) (on_waitresp sid p) m h (λ later. h))
                (on_bool P (header.status == kxr_status)
                  (on_continue AreStreams (parse_status body) (on_status sid p) m h
                    (λ info. on_status-AreStreams sid p info m q h))
                  done))))))

deliver-AreStreams :
    (env : Env) (header : ResponseHeader) (body : Bytes) (m : Machine)
    → AreStreams m
    → AreStreams (deliver env header body m).1
unfolding deliver bringup_answer stream_answer
deliver-AreStreams env header body m h =
    let b = bringup-AreStreams env header body m h in
    on_bool {R = Result Trailer × Machine} (λ q. AreStreams q.1) (in_bringup m.state)
      (on_continue AreStreams (bringup env header body m).0 _ (bringup env header body m).1 b
        (λ x. b))
      (on_some {R = Result Trailer × Machine} (λ q. AreStreams q.1) (get m.pending header.streamid)
        (λ _. h) (λ p q. on_response-AreStreams env header body p m q h))

unwrap_attn-AreStreams :
    (env : Env) (body : Bytes) (info : AttnInfo) (m : Machine)
    → AreStreams m
    → AreStreams (unwrap_attn env body info m).1
unfolding unwrap_attn
unwrap_attn-AreStreams env body info m h =
    on_sign {R = Result Trailer × Machine} (λ q. AreStreams q.1) info.action
      (λ action.
        on_bool {R = Result Trailer × Machine} (λ q. AreStreams q.1)
          (action == kxr_asynresp && leb 16 (length body))
          (on_continue AreStreams (decode_header (take 8 (drop 8 body))) _ m h
            (λ inner. deliver-AreStreams env inner (drop 16 body) m h))
          h)
      (λ k. h)

pub dispatch-AreStreams :
    (env : Env) (header : ResponseHeader) (body : Bytes) (m : Machine)
    → AreStreams m
    → AreStreams (dispatch env header body m).1
unfolding dispatch
dispatch-AreStreams env header body m h =
    on_bool {R = Result Trailer × Machine} (λ q. AreStreams q.1) (header.status == kxr_attn)
      (on_continue AreStreams (parse_attn body) (unwrap_attn env body) m h
        (λ info. unwrap_attn-AreStreams env body info m h))
      (deliver-AreStreams env header body m h)
