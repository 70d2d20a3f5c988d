-- ===== src/Proto/Machine/Outbound/Quiet.antt =====
-- The methods that send write no more than the greeting until TLS is there, where it is needed.
use py_xroot_dclient.Proto.Machine.Exec.{continue, modify}
use py_xroot_dclient.Base.Dict.{get}
use py_xroot_dclient.Proto.Frames.{handshake, encode}
use py_xroot_dclient.Errors.{Result, ok, err}
use py_xroot_dclient.Proto.Machine.Outbound.Secure.{
  release-Follows, start-Keeps, resume-Keeps, submit-Keeps, close-Keeps,
}
use py_xroot_dclient.Proto.Requests.{Request, protocol}
use py_xroot_dclient.Proto.Machine.Quiet.{
  IsQuiet, IsSilent, on_none, Follows-IsSilent, on_ready_state, nothing_said, then_protocol,
  then_handshake, IsQuiet-fields, get-empty,
}
use py_xroot_dclient.Proto.Machine.Secure.{past_login, on_fresh, Follows-fields}
use py_xroot_dclient.Proto.Machine.State.{Machine, Env, sid_protocol, handshaking}
use py_xroot_dclient.Proto.Machine.Outbound.{submit, finish_close, greet, start, resume, release}
use py_xroot_dclient.Base.{refl, ◌≡◌, ℕ, ◌++◌, Bool, [], Bytes, sym, ap, ◌∙◌}
use py_xroot_dclient.Proto.Machine.Outbound

IsQuiet-greet : (flags : ℕ) (m : Machine) → IsQuiet m → IsQuiet (greet flags m).1
unfolding greet past_login
IsQuiet-greet flags m q = greeted (encode (protocol flags) sid_protocol) refl
  where
    n : Machine
    n = record m { out = m.out ++ handshake }

    greeted :
        (r : Result Bytes)
        → encode (protocol flags) sid_protocol ≡ r
        → IsQuiet
            (continue r
              (λ frame. modify (λ k. record k { out = k.out ++ frame; state = handshaking }))
              n).1
    greeted (ok frame) e = record {
      not_yet = refl;
      said = then_protocol (then_handshake q.said) flags frame e;
      beside = q.beside;
      waits = q.waits;
    }
    greeted (err x) e = record {
      not_yet = q.not_yet;
      said = then_handshake q.said;
      beside = q.beside;
      waits = q.waits;
    }

pub start-IsSilent : (m : Machine) → IsSilent m → IsSilent (start m).1
unfolding start
start-IsSilent m = Follows-IsSilent m _ (start-Keeps m) quiet
  where
    quiet : IsQuiet m → IsQuiet (start m).1
    quiet q =
        on_fresh {R = Result Unit × Machine} (λ r. IsQuiet r.1) m.state (λ _. IsQuiet-greet _ m q) q

pub drained-IsSilent : (m : Machine) → IsSilent m → IsSilent (record m { out = [] })
drained-IsSilent m =
    Follows-IsSilent m _ (Follows-fields m _ refl refl refl refl)
      (λ q. record { not_yet = q.not_yet; said = nothing_said; beside = q.beside; waits = q.waits })

pub submit-IsSilent :
    (env : Env) (r : Request) (path : Bytes) (b : Bool) (m : Machine)
    → IsSilent m
    → IsSilent (submit env r path b m).1
unfolding submit past_login
submit-IsSilent env r path b m = Follows-IsSilent m _ (submit-Keeps env r path b m) quiet
  where
    quiet : IsQuiet m → IsQuiet (submit env r path b m).1
    quiet q =
        on_ready_state {R = Result ℕ × Machine} (λ x. IsQuiet x.1) m.state
          (λ e. let no = sym (ap past_login e) ∙ q.not_yet in absurd (cc)) q

pub resume-IsSilent : (sid : ℕ) (m : Machine) → IsSilent m → IsSilent (resume sid m).1
unfolding resume
resume-IsSilent sid m = Follows-IsSilent m _ (resume-Keeps sid m) quiet
  where
    quiet : IsQuiet m → IsQuiet (resume sid m).1
    quiet q =
        on_none {R = Result Unit × Machine} (λ x. IsQuiet x.1) (get m.pending sid) _
          (get-empty m.pending sid q.waits) q

pub IsQuiet-release : (sid : ℕ) (m : Machine) → IsQuiet m → IsQuiet (release sid m)
unfolding release
IsQuiet-release sid m q = on_none IsQuiet (get m.pending sid) _ (get-empty m.pending sid q.waits) q

pub release-IsSilent : (sid : ℕ) (m : Machine) → IsSilent m → IsSilent (release sid m)
release-IsSilent sid m = Follows-IsSilent m _ (release-Follows sid m) (IsQuiet-release sid m)

pub close-IsSilent :
    (graceful : Bool) (m : Machine) → IsSilent m → IsSilent (Outbound.close graceful m).1
unfolding Outbound.close finish_close past_login
close-IsSilent graceful m = Follows-IsSilent m _ (close-Keeps graceful m) quiet
  where
    quiet : IsQuiet m → IsQuiet (Outbound.close graceful m).1
    quiet q =
        on_ready_state {R = Result Unit × Machine} (λ x. IsQuiet x.1) m.state
          (λ e. let no = sym (ap past_login e) ∙ q.not_yet in absurd (cc))
          (IsQuiet-fields m _ refl refl refl refl q)
