-- ===== src/Proto/Machine/Answers/Secure.antt =====
-- An answer leaves a secure session secure.
use py_xroot_dclient.Base.Cases.{on_bool, on_option, on_test}
use py_xroot_dclient.Proto.Machine.Login.Secure.{bringup-IsSecure}
use py_xroot_dclient.Proto.Machine.Login.{bringup}
use py_xroot_dclient.Proto.Machine.Outbound.Secure.{release-Follows}
use py_xroot_dclient.Errors.{Result}
use py_xroot_dclient.Proto.Machine.Outbound.{release}
use py_xroot_dclient.Base.Dict.{get}
use py_xroot_dclient.Proto.Machine.Exec.{emit}
use py_xroot_dclient.Proto.Responses.Control.{
  StatusInfo, AttnInfo, is_final, parse_error, parse_attn, parse_redirect, parse_wait,
  parse_waitresp, parse_status,
}
use py_xroot_dclient.Proto.Machine.Secure.{
  Follows, IsSecure, Follows-fields, Follows-IsSecure, Keeps, Follows-trans, Follows-refl,
  IsSecure-continue, Follows-continue,
}
use py_xroot_dclient.Proto.Frames.{ResponseHeader, decode_header}
use py_xroot_dclient.Base.{ℕ, Bytes, suc, zero, refl, [], ◌==◌, ◌&&◌, leb, length, take, drop}
use py_xroot_dclient.Proto.Machine.State.{Event, Env, Machine, Pending, attention}
use py_xroot_dclient.Proto.Constants.{
  kxr_oksofar, kxr_status, kxr_attn, kxr_waitresp, kxr_error, kxr_asynresp, kxr_ok, kxr_redirect,
  kxr_wait,
}
use py_xroot_dclient.Base.Int.{ℤ, pos, negsuc}
use py_xroot_dclient.Proto.Machine.Answers.{
  grow, on_response, deliver, unwrap_attn, on_status, on_status_data, dispatch, bringup_answer,
  on_error, status_data, with_status, stream_answer, on_redirect, on_wait, on_waitresp, Trailer,
  in_bringup,
}

pub emit-Follows : (e : Event) (m : Machine) → Follows m (emit e m)
emit-Follows e m = Follows-fields m _ refl refl refl refl

emit-release-Follows : (e : Event) (sid : ℕ) (m : Machine) → Follows m (emit e (release sid m))
emit-release-Follows e sid m =
    Follows-trans m _ _ (release-Follows sid m) (emit-Follows e (release sid m))

emit-grow-Follows :
    (e : Event) (sid : ℕ) (p : Pending) (body : Bytes) (m : Machine)
    → Follows m (emit e (grow sid p body m))
unfolding grow
emit-grow-Follows e sid p body m = Follows-fields m _ refl refl refl refl

pub on_status_data-Follows :
    (sid : ℕ) (body : Bytes) (m : Machine) → Follows m (on_status_data sid body m)
unfolding on_status_data status_data
on_status_data-Follows sid body m = on_option (Follows m) (get m.pending sid) (Follows-refl m) λ p.
    on_option (Follows m) p.status (Follows-refl m) λ info.
      on_bool (Follows m) (is_final info) (emit-release-Follows _ sid m)
        (emit-grow-Follows _ sid p body m)

pub on_zero :
    {R : Type 0} (P : R → Type 0) (z : ℤ) {a b : R}
    → P a
    → P b
    → P (elim z [ pos zero ↦ a | _ ↦ b ])
on_zero P (pos zero) h k = h
on_zero P (pos (suc n)) h k = k
on_zero P (negsuc n) h k = k

on_status-Keeps : (sid : ℕ) (p : Pending) (info : StatusInfo) → Keeps (on_status sid p info)
unfolding on_status with_status
on_status-Keeps sid p info m =
    let n = with_status sid p info m in
    let f : Follows m n = Follows-fields m n refl refl refl refl in
    on_zero {R = Result Trailer × Machine} (λ q. Follows m q.1) info.dlen
      (Follows-trans m n _ f (on_status_data-Follows sid [] n)) f

pub on_response-Keeps :
    (env : Env) (header : ResponseHeader) (body : Bytes) (p : Pending)
    → Keeps (on_response env header body p)
unfolding on_response on_error on_redirect on_wait on_waitresp
on_response-Keeps env header body p m =
    let sid = header.streamid in
    let P : Result Trailer × Machine → Type 0 = λ q. Follows m q.1 in
    on_bool P (header.status == kxr_ok) (emit-release-Follows _ sid m) (
      on_bool P (header.status == kxr_oksofar) (emit-grow-Follows _ sid p body m) (
        on_bool P (header.status == kxr_error)
          (Follows-continue (parse_error body) (on_error sid p) m m (Follows-refl m)
            (λ info. emit-release-Follows _ sid m))
          (on_bool P (header.status == kxr_redirect)
            (Follows-continue (parse_redirect body) (on_redirect sid p) m m (Follows-refl m)
              (λ target. emit-Follows _ m))
            (on_bool P (header.status == kxr_wait)
              (Follows-continue (parse_wait body) (on_wait env sid p) m m (Follows-refl m)
                (λ wait. emit-Follows _ m))
              (on_bool P (header.status == kxr_waitresp)
                (Follows-continue (parse_waitresp body) (on_waitresp sid p) m m (Follows-refl m)
                  (λ later. emit-Follows _ m))
                (on_bool P (header.status == kxr_status)
                  (Follows-continue (parse_status body) (on_status sid p) m m (Follows-refl m)
                    (λ info. on_status-Keeps sid p info m))
                  (emit-release-Follows _ sid m)))))))

deliver-IsSecure :
    (env : Env) (header : ResponseHeader) (body : Bytes) (m : Machine)
    → IsSecure m
    → IsSecure (deliver env header body m).1
unfolding deliver bringup_answer stream_answer
deliver-IsSecure env header body m h =
    on_test {R = Result Trailer × Machine} (λ q. IsSecure q.1) (in_bringup m.state)
      (λ busy.
        IsSecure-continue (bringup env header body m).0 _ (bringup env header body m).1
          (bringup-IsSecure env header body m h busy)
          (λ x. bringup-IsSecure env header body m h busy))
      (λ _.
        on_option {R = Result Trailer × Machine} (λ q. IsSecure q.1) (get m.pending header.streamid)
          h (λ p. Follows-IsSecure m _ (on_response-Keeps env header body p m) h))

pub on_sign :
    {R : Type 0} (P : R → Type 0) (z : ℤ) {f g : ℕ → R}
    → ((n : ℕ) → P (f n))
    → ((n : ℕ) → P (g n))
    → P (elim z [ pos n ↦ f n | negsuc n ↦ g n ])
on_sign P (pos n) h k = h n
on_sign P (negsuc n) h k = k n

unwrap_attn-IsSecure :
    (env : Env) (body : Bytes) (info : AttnInfo) (m : Machine)
    → IsSecure m
    → IsSecure (unwrap_attn env body info m).1
unfolding unwrap_attn
unwrap_attn-IsSecure env body info m h =
    let noted = Follows-IsSecure m _ (emit-Follows (attention info) m) h in
    on_sign {R = Result Trailer × Machine} (λ q. IsSecure q.1) info.action
      (λ action.
        on_bool {R = Result Trailer × Machine} (λ q. IsSecure q.1)
          (action == kxr_asynresp && leb 16 (length body))
          (IsSecure-continue (decode_header (take 8 (drop 8 body))) _ m h
            (λ inner. deliver-IsSecure env inner (drop 16 body) m h))
          noted)
      (λ k. noted)

pub dispatch-IsSecure :
    (env : Env) (header : ResponseHeader) (body : Bytes) (m : Machine)
    → IsSecure m
    → IsSecure (dispatch env header body m).1
unfolding dispatch
dispatch-IsSecure env header body m h =
    on_bool {R = Result Trailer × Machine} (λ q. IsSecure q.1) (header.status == kxr_attn)
      (IsSecure-continue (parse_attn body) (unwrap_attn env body) m h
        (λ info. unwrap_attn-IsSecure env body info m h))
      (deliver-IsSecure env header body m h)
