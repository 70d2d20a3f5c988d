-- ===== src/Proto/Machine/Framing/Chunks.antt =====
-- How the bytes of a link are cut into chunks makes no difference to the loop of `_parse`.
use py_xroot_dclient.Proto.Machine.Framing.Progress.{Turn-cases, parse-turn, turn-work, follow}
use py_xroot_dclient.Errors.{Error}
use py_xroot_dclient.Base.Int.{is_neg}
use py_xroot_dclient.Proto.Machine.Framing.Turns.{append, Extends, turn-Extends}
use py_xroot_dclient.Proto.Machine.Framing.{
  Parsed, drained, work, parse, broken, out_of_fuel, turn, next, wait, Turn, stop,
}
use py_xroot_dclient.Proto.Machine.State.{Env, Framer, Machine}
use py_xroot_dclient.Base.{
  ℕ, Bytes, suc, ◌<◌, ◌≡◌, false, zero, arith, subst, inl, ◌∙◌, ap, inr, sym,
}

-- Along the run, no framer expects a trailer of negative length.
abbrev pub Steady : ℕ → Env → Framer → Machine → Type 0
Steady zero env f m = Unit {0}
Steady (suc n) env f m =
    (is_neg f.need_trailer ≡ false)
    × (elim (turn env f m) [ next f' m' ↦ Steady n env f' m' | _ ↦ Unit {0} ])

abbrev pub append_parsed : Bytes → Env → Parsed → Parsed
append_parsed ys env (drained f m) = parse env (append ys f) m
append_parsed ys env (broken e f m) = broken e (append ys f) m
append_parsed ys env out_of_fuel = out_of_fuel

-- The two turns, before and after the bytes were added.
module _ (ys : Bytes) (env : Env) (f : Framer) (m : Machine) where
  follow_next :
      (f' : Framer) (m' : Machine)
      → turn env f m ≡ next f' m'
      → Extends env ys f m (turn env f m)
      → parse env (append ys f') m' ≡ append_parsed ys env (parse env f' m')
      → parse env (append ys f) m ≡ append_parsed ys env (parse env f m)
  follow_next f' m' q e ih =
      let e' : turn env (append ys f) m ≡ next (append ys f') m' = subst (Extends env ys f m) q e in
      parse-turn env (append ys f) m
      ∙ ap (follow env) e'
      ∙ ih
      ∙ sym (ap (append_parsed ys env) (parse-turn env f m ∙ ap (follow env) q))

  follow_wait :
      (f' : Framer) (m' : Machine)
      → turn env f m ≡ wait f' m'
      → Extends env ys f m (turn env f m)
      → parse env (append ys f) m ≡ append_parsed ys env (parse env f m)
  follow_wait f' m' q e =
      let e' : (m' ≡ m) × (turn env (append ys f) m ≡ turn env (append ys f') m') =
        subst (Extends env ys f m) q e in
      parse-turn env (append ys f) m
      ∙ ap (follow env) e'.1
      ∙ sym (parse-turn env (append ys f') m')
      ∙ sym (ap (append_parsed ys env) (parse-turn env f m ∙ ap (follow env) q))

  follow_stop :
      (x : Error) (f' : Framer) (m' : Machine)
      → turn env f m ≡ stop x f' m'
      → Extends env ys f m (turn env f m)
      → parse env (append ys f) m ≡ append_parsed ys env (parse env f m)
  follow_stop x f' m' q e =
      let e' : turn env (append ys f) m ≡ stop x (append ys f') m' =
        subst (Extends env ys f m) q e in
      parse-turn env (append ys f) m
      ∙ ap (follow env) e'
      ∙ sym (ap (append_parsed ys env) (parse-turn env f m ∙ ap (follow env) q))

abbrev SteadyAfter : ℕ → Env → Turn → Type 0
SteadyAfter n env (next f m) = Steady n env f m
SteadyAfter n env _ = Unit {0}

parse-append_run :
    (n : ℕ) (ys : Bytes) (env : Env) (f : Framer) (m : Machine)
    → work f < n
    → Steady n env f m
    → parse env (append ys f) m ≡ append_parsed ys env (parse env f m)
parse-append_run zero ys env f m h s = elim h [ ]
parse-append_run (suc n) ys env f m h (z, s) =
    let e = turn-Extends env ys f m z in
    elim (Turn-cases (turn env f m)) [
      | inl (f', m', q) ↦ follow_next ys env f m f' m' q e (
          parse-append_run n ys env f' m' (omega (arith, turn-work env f f' m m' q))
            (subst (SteadyAfter n env) q s))
      | inr (inl (f', m', q)) ↦ follow_wait ys env f m f' m' q e
      | inr (inr (x, f', m', q)) ↦ follow_stop ys env f m x f' m' q e
    ]

-- Feeding a link some bytes and then more is feeding it all of them at once: where the first run
-- returned for want of bytes, the run on the whole buffer is the run on from there, and where it
-- raised, the run on the whole buffer raises the same, in the same state. The run on the first
-- bytes meets no trailer of negative length.
pub parse-append :
    (ys : Bytes) (env : Env) (f : Framer) (m : Machine)
    → Steady (suc (work f)) env f m
    → parse env (append ys f) m ≡ append_parsed ys env (parse env f m)
parse-append ys env f m s = parse-append_run (suc (work f)) ys env f m (omega arith) s
