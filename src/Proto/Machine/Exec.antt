-- ===== src/Proto/Machine/Exec.antt =====
-- Methods of the machine that may raise. What was written before a raise stays written, so the
-- machine comes back beside the error too.
use py_xroot_dclient.Base.Dict.{get, put}
use py_xroot_dclient.Proto.Machine.State.{Event, Machine}
use py_xroot_dclient.Base.{Bytes, ◌++◌, ◌∷◌, ℕ, none, [], some}
use py_xroot_dclient.Errors.{Result, Error, ok, err}

abbrev pub M : Type 0 → Type 0
M A = Machine → Result A × Machine

abbrev pub continue : {A B : Type 0} → Result A → (A → M B) → M B
continue (ok a) f m = f a m
continue (err e) f m = (err e, m)

infixl 5 ◌>>=◌ ◌>>◌
abbrev pub ◌>>=◌ : {A B : Type 0} → M A → (A → M B) → M B
◌>>=◌ p f m = continue (p m).0 f (p m).1

abbrev pub ◌>>◌ : {A B : Type 0} → M A → M B → M B
p >> q = p >>= λ _. q

abbrev pub pure : {A : Type 0} → A → M A
pure a m = (ok a, m)

abbrev pub raise : {A : Type 0} → Error → M A
raise e m = (err e, m)

abbrev pub lift : {A : Type 0} → Result A → M A
lift r m = (r, m)

abbrev pub modify : (Machine → Machine) → M (Unit {0})
modify f m = (ok tt, f m)

abbrev pub emit : Event → Machine → Machine
emit e m = record m { events = m.events ++ (e ∷ []) }

abbrev pub write_out : Bytes → Machine → Machine
write_out bs m = record m { out = m.out ++ bs }

-- `self._out_path.setdefault(pathid, bytearray()).extend(data)`
unfoldable pub write_path : ℕ → Bytes → Machine → Machine
unfolding get put
write_path p bs m = record m {
  out_path =
      put m.out_path p ((elim (get m.out_path p) [ none ↦ [] | some queued ↦ queued ]) ++ bs);
}
