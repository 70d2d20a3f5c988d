-- ===== src/Proto/Machine/Framing/Streams.antt =====
-- Received bytes and the ends of links keep the stream ids apart.
use py_xroot_dclient.Proto.Machine.Outbound.Streams.{release-AreStreams}
use py_xroot_dclient.Proto.Machine.Outbound.{release}
use py_xroot_dclient.Proto.Machine.Answers.Streams.{dispatch-AreStreams, on_status_data-AreStreams}
use py_xroot_dclient.Errors.{connection_error}
use py_xroot_dclient.Proto.Machine.Framing.Invariants.{receive_data-Inv}
use py_xroot_dclient.Proto.Machine.Secure.{on_ended}
use py_xroot_dclient.Proto.Machine.Streams.{AreStreams}
use py_xroot_dclient.Base.Dict.{Dict}
use py_xroot_dclient.Base.{◌∷◌, [], Bytes, ℕ, ◌++◌, arith}
use py_xroot_dclient.Proto.Machine.State.{Env, Machine, Pending}
use py_xroot_dclient.Proto.Machine.Framing.{
  release_all, forget_path, on_eof, on_path_eof, end_of_session, on_path, receive_data, fail_all,
}

on_eof-AreStreams : (m : Machine) → AreStreams m → AreStreams (on_eof m)
unfolding on_eof end_of_session
on_eof-AreStreams m (once, range, next) =
    on_ended AreStreams m.state (once, range, next)
      ((λ s. omega (arith, once s)), (λ s h. range s (omega (arith, h))), next)

release_all-AreStreams :
    (d : Dict Pending) (m : Machine) → AreStreams m → AreStreams (release_all d m)
unfolding release_all
release_all-AreStreams [] m h = h
release_all-AreStreams ((sid, q) ∷ d) m h =
    release_all-AreStreams d (release sid m) (release-AreStreams sid m h)

pub forget_path-AreStreams : (p : ℕ) (m : Machine) → AreStreams m → AreStreams (forget_path p m)
unfolding forget_path
forget_path-AreStreams p m h = release_all-AreStreams (on_path p m.pending) m h

on_path_eof-AreStreams : (p : ℕ) (m : Machine) → AreStreams m → AreStreams (on_path_eof p m)
unfolding on_path_eof
on_path_eof-AreStreams p m h =
    forget_path-AreStreams p
      (record m { events = m.events ++ fail_all (on_path p m.pending) connection_error }) h

pub receive_data-AreStreams :
    (env : Env) (bs : Bytes) (p : ℕ) (m : Machine)
    → AreStreams m
    → AreStreams (receive_data env bs p m).1
receive_data-AreStreams =
    receive_data-Inv AreStreams dispatch-AreStreams on_status_data-AreStreams (λ d m h. h)
      on_eof-AreStreams on_path_eof-AreStreams
