-- ===== src/Proto/Machine/Framing/Progress.antt =====
-- The loop of `_parse` ends.
use py_xroot_dclient.Errors.{Error}
use py_xroot_dclient.Proto.Constants.{response_hdrlen}
use py_xroot_dclient.Proto.Buffer.Advances.{Result-cases}
use py_xroot_dclient.Proto.Frames.{ResponseHeader, decode_header}
use py_xroot_dclient.Proto.Machine.State.{Env, Framer, Machine}
use py_xroot_dclient.Base.{
  ℕ, Bytes, length, ◌≡◌, drop, ◌≤◌, ◌+◌, ◌<◌, ◌≢◌, arith, length-drop, inl, inr, take, some, ◌⊎◌,
  suc, zero, refl, Option, none,
}
use py_xroot_dclient.Proto.Machine.Framing.{
  trailer_turn, body_turn, work, after_dispatch, set_trailer, turn, next, cut, header_turn, parse,
  Turn, run, Parsed, out_of_fuel, wait, drained, stop, broken, choose,
}
use py_xroot_dclient.Base.Int.{pos, ℤ, negsuc}

length-drop-le : (n : ℕ) (xs : Bytes) → length (drop n xs) ≤ length xs
length-drop-le n xs = omega (arith, length-drop n xs)

body_turn-work :
    (env : Env) (h : ResponseHeader) (f f' : Framer) (m m' : Machine)
    → body_turn env h f m ≡ next f' m'
    → f.need_trailer ≡ pos 0
    → work f' ≤ length f.buffer + 1
unfolding body_turn after_dispatch set_trailer work
body_turn-work env h f f' m m' e n = ground (arith, length-drop-le h.dlen f.buffer)

trailer_turn-work :
    (f f' : Framer) (m m' : Machine)
    → trailer_turn f m ≡ next f' m'
    → f.need_trailer ≢ pos 0
    → work f' < work f
unfolding trailer_turn work
trailer_turn-work f f' m m' e n =
    ground (arith, length-drop-le (cut (length f.buffer) f.need_trailer) f.buffer)

header_turn-work :
    (env : Env) (f f' : Framer) (m m' : Machine)
    → header_turn env f m ≡ next f' m'
    → f.need_trailer ≡ pos 0
    → work f' < length f.buffer
unfolding header_turn
header_turn-work env f f' m m' e n =
    elim (Result-cases (decode_header (take response_hdrlen f.buffer))) [
      | inl (h, q) ↦
          let g : Framer = record f { buffer = drop response_hdrlen f.buffer; header = some h } in
          ground (arith, q, body_turn-work env h g f' m m', length-drop response_hdrlen f.buffer)
      | inr (x, q) ↦ ground (arith, q)
    ]

choose-work :
    (env : Env) (n : ℤ) (o : Option ResponseHeader) (f f' : Framer) (m m' : Machine)
    → f.need_trailer ≡ n
    → f.header ≡ o
    → choose env n o f m ≡ next f' m'
    → work f' < work f
unfolding choose
choose-work env (pos zero) none f f' m m' z q e =
    unfold work in ground (arith, header_turn-work env f f' m m')
choose-work env (pos zero) (some h) f f' m m' z q e =
    unfold work in ground (arith, body_turn-work env h f f' m m')
choose-work env (pos (suc n)) o f f' m m' z q e =
    trailer_turn-work f f' m m' e (λ (p : f.need_trailer ≡ pos 0). ground arith)
choose-work env (negsuc n) o f f' m m' z q e =
    trailer_turn-work f f' m m' e (λ (p : f.need_trailer ≡ pos 0). ground arith)

-- A turn that goes on leaves less work.
pub turn-work :
    (env : Env) (f f' : Framer) (m m' : Machine) → turn env f m ≡ next f' m' → work f' < work f
unfolding turn
turn-work env f f' m m' e = choose-work env f.need_trailer f.header f f' m m' refl refl e

pub Turn-cases :
    (t : Turn)
    → ((f : Framer) × (m : Machine) × (t ≡ next f m))
      ⊎ ((f : Framer) × (m : Machine) × (t ≡ wait f m))
      ⊎ ((e : Error) × (f : Framer) × (m : Machine) × (t ≡ stop e f m))
Turn-cases (next f m) = inl (f, m, refl)
Turn-cases (wait f m) = inr (inl (f, m, refl))
Turn-cases (stop e f m) = inr (inr (e, f, m, refl))

-- With more fuel than work the fuel makes no difference.
run_fuel :
    (n k : ℕ) (env : Env) (f : Framer) (m : Machine)
    → work f < n
    → work f < k
    → run n env f m ≡ run k env f m
unfolding run
run_fuel zero k env f m a b = elim a [ ]
run_fuel (suc n) zero env f m a b = elim b [ ]
run_fuel (suc n) (suc k) env f m a b = elim (Turn-cases (turn env f m)) [
  | inl (f', m', q) ↦
      rw (q, run)
        (run_fuel n k env f' m' (omega (arith, turn-work env f f' m m' q))
          (omega (arith, turn-work env f f' m m' q)))
  | inr (inl (f', m', q)) ↦ rw (q, run)
  | inr (inr (e, f', m', q)) ↦ rw (q, run)
]

-- What follows a turn.
abbrev pub follow : Env → Turn → Parsed
follow env (next f m) = parse env f m
follow env (wait f m) = drained f m
follow env (stop e f m) = broken e f m

-- `_parse` is one turn and, where it goes on, `_parse`.
pub parse-turn : (env : Env) (f : Framer) (m : Machine) → parse env f m ≡ follow env (turn env f m)
unfolding parse
parse-turn env f m = elim (Turn-cases (turn env f m)) [
  | inl (f', m', q) ↦
      rw (q, run)
        (run_fuel (work f) (suc (work f')) env f' m' (turn-work env f f' m m' q) (omega arith))
  | inr (inl (f', m', q)) ↦ rw (q, run)
  | inr (inr (e, f', m', q)) ↦ rw (q, run)
]

run-ne-out_of_fuel :
    (n : ℕ) (env : Env) (f : Framer) (m : Machine) → work f < n → run n env f m ≢ out_of_fuel
unfolding run
run-ne-out_of_fuel zero env f m a e = elim a [ ]
run-ne-out_of_fuel (suc n) env f m a e = elim (Turn-cases (turn env f m)) [
  | inl (f', m', q) ↦
      run-ne-out_of_fuel n env f' m' (omega (arith, turn-work env f f' m m' q)) (rw (q, run) at e)
  | inr (inl (f', m', q)) ↦ cc (rw (q, run) at e)
  | inr (inr (x, f', m', q)) ↦ cc (rw (q, run) at e)
]

-- Whatever bytes a link has delivered, and whatever the state of the machine, the loop of `_parse`
-- ends: it returns for want of bytes or raises.
pub parse-ne-out_of_fuel : (env : Env) (f : Framer) (m : Machine) → parse env f m ≢ out_of_fuel
unfolding parse
parse-ne-out_of_fuel env f m e = run-ne-out_of_fuel (suc (work f)) env f m (omega arith) e
