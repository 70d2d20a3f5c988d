-- ===== src/Proto/Machine/Framing/Quiet.antt =====
-- Received bytes and the ends of links have nothing written before TLS, where TLS is needed.
use py_xroot_dclient.Proto.Machine.Outbound.Quiet.{IsQuiet-release}
use py_xroot_dclient.Proto.Machine.Outbound.{release}
use py_xroot_dclient.Errors.{connection_error}
use py_xroot_dclient.Proto.Machine.Answers.Quiet.{dispatch-IsSilent, on_status_data-IsSilent}
use py_xroot_dclient.Proto.Machine.Framing.Secure.{
  forget_path-Follows, on_eof-Follows, on_path_eof-Follows,
}
use py_xroot_dclient.Proto.Machine.Framing.Invariants.{receive_data-Inv}
use py_xroot_dclient.Proto.Machine.Secure.{past_login, on_ended, Follows-fields}
use py_xroot_dclient.Proto.Machine.Quiet.{IsSilent, IsQuiet, Follows-IsSilent, IsQuiet-fields}
use py_xroot_dclient.Base.Dict.{Dict, remove}
use py_xroot_dclient.Proto.Machine.State.{Env, Machine, Pending}
use py_xroot_dclient.Proto.Machine.Framing.{
  on_eof, on_path_eof, release_all, forget_path, end_of_session, on_path, receive_data, fail_all,
}
use py_xroot_dclient.Base.{◌∷◌, [], refl, ℕ, Bytes, ◌++◌, ap}

IsQuiet-release_all : (d : Dict Pending) (m : Machine) → IsQuiet m → IsQuiet (release_all d m)
unfolding release_all
IsQuiet-release_all [] m q = q
IsQuiet-release_all ((sid, p) ∷ d) m q =
    IsQuiet-release_all d (release sid m) (IsQuiet-release sid m q)

IsQuiet-forget_path : (p : ℕ) (m : Machine) → IsQuiet m → IsQuiet (forget_path p m)
unfolding forget_path remove
IsQuiet-forget_path p m q =
    let k = IsQuiet-release_all (on_path p m.pending) m q in
    record {
      not_yet = k.not_yet;
      said = k.said;
      beside = ap (λ d. remove d p) k.beside;
      waits = k.waits;
    }

pub forget_path-IsSilent : (p : ℕ) (m : Machine) → IsSilent m → IsSilent (forget_path p m)
forget_path-IsSilent p m = Follows-IsSilent m _ (forget_path-Follows p m) (IsQuiet-forget_path p m)

IsQuiet-on_path_eof : (p : ℕ) (m : Machine) → IsQuiet m → IsQuiet (on_path_eof p m)
unfolding on_path_eof
IsQuiet-on_path_eof p m q =
    let n : Machine = record m {
      events = m.events ++ fail_all (on_path p m.pending) connection_error;
    } in
    let k = IsQuiet-forget_path p n (IsQuiet-fields m n q.not_yet refl refl refl q) in
    IsQuiet-fields (forget_path p n) _ k.not_yet refl refl refl k

IsQuiet-on_eof : (m : Machine) → IsQuiet m → IsQuiet (on_eof m)
unfolding on_eof end_of_session past_login
IsQuiet-on_eof m q =
    on_ended IsQuiet m.state q
      (record { not_yet = refl; said = q.said; beside = q.beside; waits = refl })

pub receive_data-IsSilent :
    (env : Env) (bs : Bytes) (p : ℕ) (m : Machine)
    → IsSilent m
    → IsSilent (receive_data env bs p m).1
receive_data-IsSilent =
    receive_data-Inv IsSilent dispatch-IsSilent on_status_data-IsSilent
      (λ d m.
        Follows-IsSilent m _ (Follows-fields m _ refl refl refl refl)
          (λ q. IsQuiet-fields m _ q.not_yet refl refl refl q))
      (λ m. Follows-IsSilent m _ (on_eof-Follows m) (IsQuiet-on_eof m))
      (λ p m. Follows-IsSilent m _ (on_path_eof-Follows p m) (IsQuiet-on_path_eof p m))
