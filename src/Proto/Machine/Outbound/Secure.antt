-- ===== src/Proto/Machine/Outbound/Secure.antt =====
-- The methods that send leave a secure session secure.
use py_xroot_dclient.Base.Cases.{on_bool, on_option}
use py_xroot_dclient.Proto.Machine.Outbound
use py_xroot_dclient.Crypto.Sigver.{sign}
use py_xroot_dclient.Proto.Frames.{encode, handshake}
use py_xroot_dclient.Base.Dict.{get}
use py_xroot_dclient.Proto.Requests.{
  Request, pathid, path_data, sigver, opcode, end_session, protocol,
}
use py_xroot_dclient.Proto.Machine.State.{Machine, Env, sid_protocol}
use py_xroot_dclient.Proto.Machine.Secure.{
  Keeps, Follows, Follows-refl, Follows-fields, Keeps-bind, Follows-continue, Follows-trans,
  on_list, past_login, on_ready, Follows-ends, on_fresh, before_login,
}
use py_xroot_dclient.Proto.Machine.Exec.{◌>>=◌, write_path, lift, write_out, modify}
use py_xroot_dclient.Base.{
  Bytes, ℕ, Option, Bool, some, refl, ap, ◌≡◌, true, ◌&&◌, not, false, ◌==◌, is_nil, none, ◌++◌,
}
use py_xroot_dclient.Proto.Constants.{kxr_sha256_sig}
use py_xroot_dclient.Errors.{Result}
use py_xroot_dclient.Proto.Machine.Outbound.{
  submit_ready, send, enqueue, acquire_sid, release, sign_frame, prefix, route, submit,
  finish_close, resume, end_session_frame, start, greet,
}

acquire_sid-Keeps : Keeps acquire_sid
unfolding acquire_sid
acquire_sid-Keeps m =
    on_list {R = Result ℕ × Machine} (λ q. Follows m q.1) m.free
      (on_option {R = Result ℕ × Machine} (λ q. Follows m q.1) (get m.pending m.next_sid)
        (Follows-fields m _ refl refl refl refl) (λ p. Follows-fields m _ refl refl refl refl))
      (λ sid free. Follows-fields m _ refl refl refl refl)

write_path-Follows : (p : ℕ) (bs : Bytes) (m : Machine) → Follows m (write_path p bs m)
unfolding write_path
write_path-Follows p bs m = Follows-fields m _ refl refl refl refl

pub release-Follows : (sid : ℕ) (m : Machine) → Follows m (release sid m)
unfolding release
release-Follows sid m =
    on_option (Follows m) (get m.pending sid) (Follows-refl m)
      (λ p. Follows-fields m _ refl refl refl refl)

pub lift-Keeps : {A : Type 0} (r : Result A) → Keeps (lift r)
lift-Keeps r m = Follows-refl m

prefix-Keeps :
    (r : Request) (sid : ℕ) (frame : Bytes) (o : Option (ℕ × Bytes)) → Keeps (prefix r sid frame o)
unfolding prefix
prefix-Keeps r sid frame none m = Follows-refl m
prefix-Keeps r sid frame (some (seqno, mac)) m =
    Follows-continue (encode (sigver (opcode r) seqno mac kxr_sha256_sig false) sid) _ m m
      (Follows-refl m) (λ sig. Follows-refl m)

sign_frame-Keeps :
    (env : Env) (r : Request) (sid : ℕ) (frame : Bytes) → Keeps (sign_frame env r sid frame)
unfolding sign_frame
sign_frame-Keeps env r sid frame m =
    on_option {R = Result Bytes × Machine} (λ q. Follows m q.1) m.signer (Follows-refl m)
      λ s.
        let n : Machine = record m { signer = some (sign env.hmac frame s).1 } in
        Follows-continue (sign env.hmac frame s).0 (prefix r sid frame) m n
          (Follows-fields m n refl refl refl refl) (λ o. prefix-Keeps r sid frame o n)

write_out-Follows : (bs : Bytes) (m : Machine) → Follows m (write_out bs m)
write_out-Follows bs m = Follows-fields m _ refl refl refl refl

route-Follows :
    (r : Request) (frame : Bytes) (b : Bool) (m : Machine) → Follows m (route r frame b m)
unfolding route
route-Follows r frame b m =
    let data_last = λ (n : Machine). write_path-Follows (pathid r) (path_data r) n in
    on_bool (Follows m) (b && not (pathid r == 0))
      (on_bool (Follows m) (is_nil (path_data r)) (write_path-Follows (pathid r) frame m)
        (Follows-trans m _ _ (write_path-Follows (pathid r) frame m) (data_last _)))
      (on_bool (Follows m) (is_nil (path_data r)) (write_out-Follows frame m)
        (Follows-trans m _ _ (write_out-Follows frame m) (data_last _)))

enqueue-Follows :
    (r : Request) (sid : ℕ) (frame path : Bytes) (m : Machine)
    → Follows m (enqueue r sid frame path m)
unfolding enqueue
enqueue-Follows r sid frame path m = Follows-fields m _ refl refl refl refl

send-Keeps :
    (env : Env) (r : Request) (sid : ℕ) (path : Bytes) (b : Bool) → Keeps (send env r sid path b)
unfolding send
send-Keeps env r sid path b =
    Keeps-bind (lift (encode r sid)) _ (lift-Keeps (encode r sid)) λ frame.
      Keeps-bind (sign_frame env r sid frame) _ (sign_frame-Keeps env r sid frame) λ signed m.
        Follows-trans m _ _ (enqueue-Follows r sid signed path m) (route-Follows r signed b _)

submit_ready-Keeps :
    (env : Env) (r : Request) (path : Bytes) (b : Bool) → Keeps (submit_ready env r path b)
unfolding submit_ready
submit_ready-Keeps env r path b =
    Keeps-bind acquire_sid _ acquire_sid-Keeps λ sid.
      Keeps-bind (send env r sid path b) _ (send-Keeps env r sid path b) λ x m. Follows-refl m

pub submit-Keeps : (env : Env) (r : Request) (path : Bytes) (b : Bool) → Keeps (submit env r path b)
unfolding submit
submit-Keeps env r path b m =
    on_ready {R = Result ℕ × Machine} (λ q. Follows m q.1) m.state
      (submit_ready-Keeps env r path b m) (Follows-refl m)

greet-Follows :
    (flags : ℕ) (m : Machine) → before_login m.state ≡ true → Follows m (greet flags m).1
unfolding greet past_login
greet-Follows flags m b =
    let n : Machine = record m { out = m.out ++ handshake } in
    Follows-trans m n _ (Follows-fields m n refl refl refl refl) (
      Follows-continue (encode (protocol flags) sid_protocol) _ n n (Follows-refl n)
        (λ frame. Follows-ends n _ refl refl refl refl (λ _. b)))

pub start-Keeps : Keeps start
unfolding start before_login
start-Keeps m =
    on_fresh {R = Result Unit × Machine} (λ q. Follows m q.1) m.state
      (λ e. greet-Follows _ m (ap before_login e)) (Follows-refl m)

pub resume-Keeps : (sid : ℕ) → Keeps (resume sid)
unfolding resume
resume-Keeps sid m =
    on_option {R = Result Unit × Machine} (λ q. Follows m q.1) (get m.pending sid) (Follows-refl m)
      λ p. on_bool (Follows m) (is_nil p.path_bytes) (write_out-Follows p.frame m) (
        Follows-trans m _ _ (write_out-Follows p.frame m)
          (write_path-Follows p.pathid p.path_bytes _))

pub write_frame-Keeps : (r : Result Bytes) → Keeps (do frame ← lift r; modify (write_out frame))
write_frame-Keeps r = Keeps-bind (lift r) _ (lift-Keeps r) (λ frame. write_out-Follows frame)

end_session_frame-Keeps : Keeps end_session_frame
unfolding end_session_frame
end_session_frame-Keeps m =
    Keeps-bind acquire_sid _ acquire_sid-Keeps
      (λ sid. write_frame-Keeps (encode (end_session m.session_id) sid)) m

finish_close-Keeps : Keeps finish_close
unfolding finish_close past_login before_login
finish_close-Keeps m = Follows-ends m _ refl refl refl refl (λ h. cc)

pub close-Keeps : (graceful : Bool) → Keeps (Outbound.close graceful)
unfolding Outbound.close
close-Keeps graceful m =
    on_ready {R = Result Unit × Machine} (λ q. Follows m q.1) m.state
      (on_bool {R = Result Unit × Machine} (λ q. Follows m q.1)
        (graceful && not (is_nil m.session_id))
        (Keeps-bind end_session_frame (λ _. finish_close) end_session_frame-Keeps
          (λ _. finish_close-Keeps) m)
        (finish_close-Keeps m))
      (finish_close-Keeps m)
