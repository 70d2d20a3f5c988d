-- ===== src/Client/File/Once.antt =====
-- What `_execute` of src/xrd/client/file.py does not try again.
use py_xroot_dclient.Config.{Config}
use py_xroot_dclient.Base.Cases.{on_bool}
use py_xroot_dclient.Base.{
  ℕ, Bytes, List, Bool, false, ◌≡◌, ◌≢◌, refl, ap, sym, ◌∙◌, if◌then◌else◌, arith, Option, none,
  some,
}
use py_xroot_dclient.Errors.{Result, ok, err, is_transient, value_error}
use py_xroot_dclient.Client.Link.{Link}
use py_xroot_dclient.Client.Io.{
  Ends, chain, given, on_lift, on_raise, on_pure, ◌>>=◌, pure, raise, state, try_except, handled,
}
use py_xroot_dclient.Client.File.{
  File, Client, this, Build, ask_router, the_handle, execute, recoverable, writing, reopen,
}
use py_xroot_dclient.Client.File.Carried.{
  Within, Keeps, Leaves, this-Keeps, on_router-Leaves, modes_of,
}
use Prim.Native.Nat.{bit_and}

module _ (L : Link) (modes : ℕ × Bool × Config) where
  abbrev Anywhere : L.Net → Type 0
  Anywhere n = Unit

  Leaves-any :
      {A : Type 0} (out : Result A × L.Router × L.Net) → Leaves (λ a. Anywhere) Anywhere out
  Leaves-any (ok a, r, n) = tt
  Leaves-any (err x, r, n) = tt

  once-Keeps : (b : Build L) → Keeps L modes Anywhere (the_handle L >>= ask_router L b)
  unfolding the_handle ask_router
  once-Keeps b = chain (chain (this-Keeps L modes Anywhere) λ f. given λ e. of_option f.handle) λ h.
      chain (this-Keeps L modes Anywhere) λ f. given λ e.
        chain (on_lift (b f h) (λ q s k m. k) (λ x s k m. k))
          λ q. on_router-Leaves L modes (λ a. Anywhere) Anywhere Anywhere _ λ r n k. Leaves-any _
    where
      of_option :
          (o : Option Bytes)
          → Keeps L modes {A = Bytes} Anywhere
              (elim o [ none ↦ raise value_error | some h ↦ pure h ])
      of_option none = on_raise value_error λ s k. k
      of_option (some h) = on_pure h λ s k. k

module _ (L : Link) (urlencode : List (Bytes × Bytes) → Bytes) where
  not_recoverable : (f : File L) → bit_and f.flags writing ≢ 0 → recoverable L f ≡ false
  unfolding recoverable
  not_recoverable f writes = ground arith

  not_again :
      (b : Build L) (modes : ℕ × Bool × Config) (r : Result Bytes × Client L)
      → bit_and modes.0 writing ≢ 0
      → Ends (λ d. Within L modes (Anywhere L modes)) (λ e. Within L modes (Anywhere L modes)) r
      → handled r is_transient (λ e. this L >>= λ f.
          if recoverable L f then (reopen L urlencode >>= ask_router L b) else raise e)
        ≡ r
  unfolding this ◌>>=◌ state pure raise
  not_again b modes (ok d, s) writes q = refl
  not_again b modes (err e, s) writes q =
      let no =
        not_recoverable s.file
          λ z. writes (ap (λ (m : ℕ × Bool × Config). bit_and m.0 writing) (sym q.1) ∙ z) in
      on_bool (λ (out : Result Bytes × Client L). out ≡ (err e, s)) (is_transient e) (rw no) refl

-- A request about a file that was opened to write, create, truncate or append is tried once: what
-- comes of it, an exception too, is what its caller gets, and the file is not opened again.
pub execute_writer :
    (L : Link) (urlencode : List (Bytes × Bytes) → Bytes) (b : Build L) (c : Client L)
    → bit_and c.file.flags writing ≢ 0
    → execute L urlencode b c ≡ (the_handle L >>= ask_router L b) c
unfolding execute try_except
execute_writer L urlencode b c writes =
    not_again L urlencode b (modes_of c.file) ((the_handle L >>= ask_router L b) c) writes
      ((once-Keeps L (modes_of c.file) b).ends c (tt, refl))
