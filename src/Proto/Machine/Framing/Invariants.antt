-- ===== src/Proto/Machine/Framing/Invariants.antt =====
-- What holds of a machine through received bytes and the ends of links, if the dispatch of an
-- answer keeps it, trailing data keeps it and the framers and the ends of links do.
use py_xroot_dclient.Base.Cases.{on_bool, on_option}
use py_xroot_dclient.Proto.Constants.{response_hdrlen}
use py_xroot_dclient.Base.Int.{ℤ, pos, pos_part, negsuc}
use py_xroot_dclient.Proto.Frames.{ResponseHeader, decode_header}
use py_xroot_dclient.Proto.Machine.Answers.{Trailer, dispatch, on_status_data}
use py_xroot_dclient.Proto.Machine.State.{Framer, Env, Machine}
use py_xroot_dclient.Base.{
  ℕ, Bytes, Option, ◌++◌, suc, zero, ltb, is_nil, some, length, ◌==◌, none, take,
}
use py_xroot_dclient.Errors.{Result, Error, ok, err}
use py_xroot_dclient.Base.Dict.{Dict, put}
use py_xroot_dclient.Proto.Machine.Framing.{
  on_path_eof, on_eof, trailer_turn, run, choose, Turn, Parsed, receive_data, keep_framer,
  body_turn, header_turn, after_dispatch, parse, turn, drained, next, wait, broken, stop, framer_of,
  out_of_fuel, cut, work,
}

abbrev machine_of : Turn → Machine
machine_of (next f m) = m
machine_of (wait f m) = m
machine_of (stop e f m) = m

pub on_result :
    {A R : Type 0} (P : R → Type 0) (r : Result A) {f : A → R} {g : Error → R}
    → ((a : A) → P (f a))
    → ((e : Error) → P (g e))
    → P (elim r [ ok a ↦ f a | err e ↦ g e ])
on_result P (ok a) h k = h a
on_result P (err e) h k = k e

-- A property of the machine, and what keeps it.
module _ (Inv : Machine → Type 0)
    (dispatch_keeps : (env : Env) (header : ResponseHeader) (body : Bytes) (m : Machine)
      → Inv m
      → Inv (dispatch env header body m).1)
    (data_keeps : (sid : ℕ) (body : Bytes) (m : Machine) → Inv m → Inv (on_status_data sid body m))
    (framers_keeps : (d : Dict Framer) (m : Machine) → Inv m → Inv (record m { framers = d }))
    (eof_keeps : (m : Machine) → Inv m → Inv (on_eof m))
    (path_eof_keeps : (p : ℕ) (m : Machine) → Inv m → Inv (on_path_eof p m)) where
  after_dispatch-Inv :
      (f : Framer) (r : Result Trailer) (m : Machine)
      → Inv m
      → Inv (machine_of (after_dispatch f r m))
  unfolding after_dispatch
  after_dispatch-Inv f (ok t) m h = h
  after_dispatch-Inv f (err e) m h = h

  body_turn-Inv :
      (env : Env) (header : ResponseHeader) (f : Framer) (m : Machine)
      → Inv m
      → Inv (machine_of (body_turn env header f m))
  unfolding body_turn
  body_turn-Inv env header f m h =
      on_bool (λ t. Inv (machine_of t)) (ltb (length f.buffer) header.dlen) h
        (after_dispatch-Inv _ (dispatch env header (take header.dlen f.buffer) m).0 _
          (dispatch_keeps env header (take header.dlen f.buffer) m h))

  header_turn-Inv :
      (env : Env) (f : Framer) (m : Machine) → Inv m → Inv (machine_of (header_turn env f m))
  unfolding header_turn
  header_turn-Inv env f m h =
      on_bool (λ t. Inv (machine_of t)) (ltb (length f.buffer) response_hdrlen) h
        (on_result (λ t. Inv (machine_of t)) (decode_header (take response_hdrlen f.buffer))
          (λ header. body_turn-Inv env header _ m h) (λ e. h))

  trailer_turn-Inv : (f : Framer) (m : Machine) → Inv m → Inv (machine_of (trailer_turn f m))
  unfolding trailer_turn
  trailer_turn-Inv f m h =
      on_bool (λ t. Inv (machine_of t)) (ltb (length f.buffer) (pos_part f.need_trailer)) h
        (on_option (λ t. Inv (machine_of t)) f.trailer_for h
          (λ sid. data_keeps sid (take (cut (length f.buffer) f.need_trailer) f.buffer) m h))

  choose-Inv :
      (env : Env) (need : ℤ) (o : Option ResponseHeader) (f : Framer) (m : Machine)
      → Inv m
      → Inv (machine_of (choose env need o f m))
  unfolding choose
  choose-Inv env (pos zero) none f m h = header_turn-Inv env f m h
  choose-Inv env (pos zero) (some header) f m h = body_turn-Inv env header f m h
  choose-Inv env (pos (suc n)) o f m h = trailer_turn-Inv f m h
  choose-Inv env (negsuc n) o f m h = trailer_turn-Inv f m h

  on_turn :
      {R : Type 0} (P : R → Type 0) (t : Turn) {a b : Framer → Machine → R}
      {c : Error → Framer → Machine → R}
      → Inv (machine_of t)
      → ((f : Framer) (m : Machine) → Inv m → P (a f m))
      → ((f : Framer) (m : Machine) → Inv m → P (b f m))
      → ((e : Error) (f : Framer) (m : Machine) → Inv m → P (c e f m))
      → P (elim t [ next f m ↦ a f m | wait f m ↦ b f m | stop e f m ↦ c e f m ])
  on_turn P (next f m) s h k l = h f m s
  on_turn P (wait f m) s h k l = k f m s
  on_turn P (stop e f m) s h k l = l e f m s

  abbrev Ends : Parsed → Type 0
  Ends (drained f m) = Inv m
  Ends (broken e f m) = Inv m
  Ends out_of_fuel = Unit {0}

  run-Ends : (n : ℕ) (env : Env) (f : Framer) (m : Machine) → Inv m → Ends (run n env f m)
  unfolding run turn
  run-Ends zero env f m h = tt
  run-Ends (suc n) env f m h =
      on_turn Ends (turn env f m) (choose-Inv env f.need_trailer f.header f m h)
        (λ f' m' s. run-Ends n env f' m' s) (λ f' m' s. s) (λ e f' m' s. s)

  parse-Ends : (env : Env) (f : Framer) (m : Machine) → Inv m → Ends (parse env f m)
  unfolding parse
  parse-Ends env f m h = run-Ends (suc (work f)) env f m h

  keep_framer-Inv : (p : ℕ) (m : Machine) (r : Parsed) → Inv m → Ends r → Inv (keep_framer p m r).1
  unfolding keep_framer
  keep_framer-Inv p m (drained f n) h s = framers_keeps (put n.framers p f) n s
  keep_framer-Inv p m (broken e f n) h s = framers_keeps (put n.framers p f) n s
  keep_framer-Inv p m out_of_fuel h s = h

  pub receive_data-Inv :
      (env : Env) (bs : Bytes) (p : ℕ) (m : Machine) → Inv m → Inv (receive_data env bs p m).1
  unfolding receive_data
  receive_data-Inv env bs p m h =
      let n : Machine = record m { framers = put m.framers p (framer_of m p) } in
      let g : Framer = record (framer_of m p) { buffer = (framer_of m p).buffer ++ bs } in
      let hn = framers_keeps (put m.framers p (framer_of m p)) m h in
      on_bool {R = Result Unit × Machine} (λ q. Inv q.1) (is_nil bs)
        (on_bool Inv (p == 0) (eof_keeps n hn) (path_eof_keeps p n hn))
        (keep_framer-Inv p n (parse env g n) hn (parse-Ends env g n hn))
