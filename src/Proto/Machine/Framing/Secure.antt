-- ===== src/Proto/Machine/Framing/Secure.antt =====
-- Received bytes and the ends of links leave a secure session secure.
use py_xroot_dclient.Proto.Machine.Framing.Invariants.{receive_data-Inv}
use py_xroot_dclient.Proto.Machine.Outbound.{release}
use py_xroot_dclient.Proto.Machine.Outbound.Secure.{release-Follows}
use py_xroot_dclient.Proto.Machine.Answers.Secure.{dispatch-IsSecure, on_status_data-Follows}
use py_xroot_dclient.Proto.Machine.Secure.{
  Follows, past_login, before_login, IsSecure, Follows-IsSecure, on_ended, Follows-refl,
  Follows-trans, Follows-ends, Follows-fields,
}
use py_xroot_dclient.Proto.Machine.State.{Env, Pending, Machine}
use py_xroot_dclient.Base.{◌∷◌, [], ℕ, Bytes, ◌++◌, refl}
use py_xroot_dclient.Errors.{connection_error}
use py_xroot_dclient.Base.Dict.{Dict}
use py_xroot_dclient.Proto.Machine.Framing.{
  on_path_eof, on_eof, release_all, receive_data, forget_path, end_of_session, on_path, fail_all,
}

pub on_eof-Follows : (m : Machine) → Follows m (on_eof m)
unfolding on_eof end_of_session past_login before_login
on_eof-Follows m =
    on_ended (Follows m) m.state (Follows-refl m) (Follows-ends m _ refl refl refl refl (λ h. cc))

release_all-Follows : (d : Dict Pending) (m : Machine) → Follows m (release_all d m)
unfolding release_all
release_all-Follows [] m = Follows-refl m
release_all-Follows ((sid, q) ∷ d) m =
    Follows-trans m _ _ (release-Follows sid m) (release_all-Follows d (release sid m))

pub forget_path-Follows : (p : ℕ) (m : Machine) → Follows m (forget_path p m)
unfolding forget_path
forget_path-Follows p m =
    let n = release_all (on_path p m.pending) m in
    Follows-trans m n _ (release_all-Follows (on_path p m.pending) m)
      (Follows-fields n _ refl refl refl refl)

pub on_path_eof-Follows : (p : ℕ) (m : Machine) → Follows m (on_path_eof p m)
unfolding on_path_eof
on_path_eof-Follows p m =
    let n : Machine = record m {
      events = m.events ++ fail_all (on_path p m.pending) connection_error;
    } in
    Follows-trans m n _ (Follows-fields m n refl refl refl refl) (
      Follows-trans n (forget_path p n) _ (forget_path-Follows p n)
        (Follows-fields (forget_path p n) _ refl refl refl refl))

pub receive_data-IsSecure :
    (env : Env) (bs : Bytes) (p : ℕ) (m : Machine)
    → IsSecure m
    → IsSecure (receive_data env bs p m).1
receive_data-IsSecure =
    receive_data-Inv IsSecure dispatch-IsSecure
      (λ sid body m. Follows-IsSecure m _ (on_status_data-Follows sid body m))
      (λ d m. Follows-IsSecure m _ (Follows-fields m _ refl refl refl refl))
      (λ m. Follows-IsSecure m _ (on_eof-Follows m))
      (λ p m. Follows-IsSecure m _ (on_path_eof-Follows p m))
