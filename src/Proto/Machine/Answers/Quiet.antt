-- ===== src/Proto/Machine/Answers/Quiet.antt =====
-- An answer has nothing written before TLS, where TLS is needed.
use py_xroot_dclient.Base.Dict.{get}
use py_xroot_dclient.Proto.Machine.Secure.{Follows, Follows-refl}
use py_xroot_dclient.Proto.Machine.Login.Quiet.{bringup-IsSilent}
use py_xroot_dclient.Proto.Machine.Login.{bringup}
use py_xroot_dclient.Proto.Machine.Answers.Secure.{
  emit-Follows, on_status_data-Follows, on_sign, on_response-Keeps,
}
use py_xroot_dclient.Errors.{Result}
use py_xroot_dclient.Proto.Responses.Control.{AttnInfo, parse_attn}
use py_xroot_dclient.Base.Cases.{on_test, on_bool, on_option}
use py_xroot_dclient.Proto.Machine.Exec.{emit}
use py_xroot_dclient.Proto.Machine.Quiet.{
  IsSilent, IsQuiet, Follows-IsSilent, on_none, IsQuiet-fields, IsSilent-continue, get-empty,
}
use py_xroot_dclient.Proto.Frames.{ResponseHeader, decode_header}
use py_xroot_dclient.Proto.Machine.State.{Event, Machine, Env, attention}
use py_xroot_dclient.Proto.Constants.{kxr_attn, kxr_asynresp}
use py_xroot_dclient.Proto.Machine.Answers.{
  deliver, unwrap_attn, dispatch, on_status_data, bringup_answer, stream_answer, Trailer,
  in_bringup,
}
use py_xroot_dclient.Base.{refl, ℕ, Bytes, ◌==◌, ◌&&◌, leb, length, take, drop}

deliver-IsSilent :
    (env : Env) (header : ResponseHeader) (body : Bytes) (m : Machine)
    → IsSilent m
    → IsSilent (deliver env header body m).1
unfolding deliver bringup_answer stream_answer
deliver-IsSilent env header body m h =
    on_test {R = Result Trailer × Machine} (λ q. IsSilent q.1) (in_bringup m.state)
      (λ busy.
        IsSilent-continue (bringup env header body m).0 _ (bringup env header body m).1
          (bringup-IsSilent env header body m h busy)
          (λ x. bringup-IsSilent env header body m h busy))
      (λ _.
        Follows-IsSilent m _
          (on_option {R = Result Trailer × Machine} (λ q. Follows m q.1)
            (get m.pending header.streamid) (Follows-refl m)
            (λ p. on_response-Keeps env header body p m))
          (λ q.
            on_none {R = Result Trailer × Machine} (λ x. IsQuiet x.1)
              (get m.pending header.streamid) _ (get-empty m.pending header.streamid q.waits) q)
          h)

emit-IsSilent : (e : Event) (m : Machine) → IsSilent m → IsSilent (emit e m)
emit-IsSilent e m =
    Follows-IsSilent m _ (emit-Follows e m) (λ q. IsQuiet-fields m _ q.not_yet refl refl refl q)

unwrap_attn-IsSilent :
    (env : Env) (body : Bytes) (info : AttnInfo) (m : Machine)
    → IsSilent m
    → IsSilent (unwrap_attn env body info m).1
unfolding unwrap_attn
unwrap_attn-IsSilent env body info m h =
    let noted = emit-IsSilent (attention info) m h in
    on_sign {R = Result Trailer × Machine} (λ q. IsSilent q.1) info.action
      (λ action.
        on_bool {R = Result Trailer × Machine} (λ q. IsSilent q.1)
          (action == kxr_asynresp && leb 16 (length body))
          (IsSilent-continue (decode_header (take 8 (drop 8 body))) _ m h
            (λ inner. deliver-IsSilent env inner (drop 16 body) m h))
          noted)
      (λ k. noted)

pub dispatch-IsSilent :
    (env : Env) (header : ResponseHeader) (body : Bytes) (m : Machine)
    → IsSilent m
    → IsSilent (dispatch env header body m).1
unfolding dispatch
dispatch-IsSilent env header body m h =
    on_bool {R = Result Trailer × Machine} (λ q. IsSilent q.1) (header.status == kxr_attn)
      (IsSilent-continue (parse_attn body) (unwrap_attn env body) m h
        (λ info. unwrap_attn-IsSilent env body info m h))
      (deliver-IsSilent env header body m h)

pub on_status_data-IsSilent :
    (sid : ℕ) (body : Bytes) (m : Machine) → IsSilent m → IsSilent (on_status_data sid body m)
unfolding on_status_data
on_status_data-IsSilent sid body m = Follows-IsSilent m _ (on_status_data-Follows sid body m) quiet
  where
    quiet : IsQuiet m → IsQuiet (on_status_data sid body m)
    quiet q = on_none IsQuiet (get m.pending sid) _ (get-empty m.pending sid q.waits) q
