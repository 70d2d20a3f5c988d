-- ===== src/Client/Write/Checkpoints.antt =====
-- What the checkpoints of src/xrd/client/file.py keep to.
use py_xroot_dclient.Config.{Config}
use py_xroot_dclient.Proto.Frames.{encode}
use py_xroot_dclient.Base.{
  ℕ, Bytes, zero, suc, ◌+◌, take, drop, length, ◌≡◌, refl, sym, ap, List, subst, Bool, true, is_nil,
  Option, none, some, false, [],
}
use py_xroot_dclient.Errors.{
  ok, stuck, check-eq-ok, >>=-eq-ok, ok-injective, protocol_error, value_error, Result, err,
}
use py_xroot_dclient.Proto.Requests.{Request, chkpoint, opcode}
use py_xroot_dclient.Proto.Constants.{
  kxr_ckpxeq, request_hdrlen, kxr_ckpbegin, kxr_ckprollback, kxr_ckpcommit,
}
use py_xroot_dclient.Proto.Builders.{execute_checkpoint, executable}
use py_xroot_dclient.Crypto.Sigver.{elem}
use py_xroot_dclient.Client.Link.{Link}
use py_xroot_dclient.Client.Io.{
  chain, on_pure, on_raise, on_lift, on_either, given, raise, pure, Ends, Triple, on_state,
  on_modify, guarded, no_claim,
}
use py_xroot_dclient.Client.File.{the_handle, Client, Method, this, on_router, update, File}
use py_xroot_dclient.Client.File.Carried.{
  Keeps, Leaves, this-Keeps, update-Keeps, on_router-Leaves, Within, modes_of,
}
use py_xroot_dclient.Client.Write.{
  write_loop, write_at, invalidate, submit_write, write_pages, truncate_to, with_checkpoint,
  ask_checkpoint,
}

-- A request that is run in a checkpoint.
pub executed_form :
    (h : Bytes) (inner outer : Request)
    → execute_checkpoint h inner ≡ ok outer
    → (body : Bytes) × (tail : Bytes) × (outer ≡ chkpoint h kxr_ckpxeq body tail)
unfolding execute_checkpoint
executed_form h inner outer e =
    let allowed = check-eq-ok (elem (opcode inner) executable) protocol_error _ e in
    let framed = >>=-eq-ok (encode inner 0) _ allowed.1 in
    (
      take request_hdrlen framed.0,
      drop request_hdrlen framed.0,
      sym (ok-injective _ outer framed.2),
    )

module _ (L : Link) (modes : ℕ × Bool × Config) (inside : modes.1 ≡ true) (J : L.Net → Type 0)
    (xeq : (r : L.Router) (h body tail : Bytes) (n : L.Net)
      → J n
      → Leaves (λ b. J) J (L.execute r (chkpoint h kxr_ckpxeq body tail) n)) where
  handle-Keeps : Keeps L modes J (the_handle L)
  unfolding the_handle
  handle-Keeps = chain (this-Keeps L modes J) λ f. given λ e. of_option f.handle
    where
      of_option :
          (o : Option Bytes)
          → Keeps L modes {A = Bytes} J (elim o [ none ↦ raise value_error | some h ↦ pure h ])
      of_option none = on_raise value_error λ s k. k
      of_option (some h) = on_pure h λ s k. k

  submit_write-Keeps : (request : Request) → Keeps L modes J (submit_write L request)
  unfolding submit_write
  submit_write-Keeps request = chain (this-Keeps L modes J) λ f. given λ e.
      on_either f.checkpoint
        (λ _. chain handle-Keeps λ h.
          chain (on_lift (execute_checkpoint h request) (λ outer s k m. (k, m)) (λ x s k m. k))
            λ outer. given λ m.
              let form = executed_form h request outer m in
              on_router-Leaves L modes (λ b. J) J J _
                λ r n k.
                  subst
                    (λ (q : Request). Leaves {A = Bytes} {N = L.Net} (λ b. J) J (L.execute r q n))
                    (sym form.2) (xeq r h form.0 form.1 n k))
        (λ out.
          let h : f.checkpoint ≡ modes.1 = ap (λ (m : ℕ × Bool × Config). m.1) e in absurd (cc))

  invalidate-Keeps : (n : ℕ) (exact : Bool) → Keeps L modes J (invalidate L n exact)
  unfolding invalidate
  invalidate-Keeps n exact = update-Keeps L modes J _ λ g. refl

  write_loop-Keeps :
      (urlencode : List (Bytes × Bytes) → Bytes) (fuel limit : ℕ) (bs : Bytes) (o : ℕ)
      → Keeps L modes J (write_loop L urlencode fuel limit bs o)
  unfolding write_loop
  write_loop-Keeps urlencode zero limit bs o = on_raise stuck λ s q. q
  write_loop-Keeps urlencode (suc fuel) limit bs o =
      on_either (is_nil bs) (λ _. on_pure tt λ s q. q)
        (λ _. chain (this-Keeps L modes J) λ f. given λ e.
          chain
            (on_either f.checkpoint (λ _. chain handle-Keeps λ h. submit_write-Keeps _)
              (λ out.
                let h : f.checkpoint ≡ modes.1 = ap (λ (m : ℕ × Bool × Config). m.1) e in
                absurd (cc)))
            λ _. write_loop-Keeps urlencode fuel limit (drop limit bs) (o + length (take limit bs)))

  write_at-Keeps :
      (urlencode : List (Bytes × Bytes) → Bytes) (bs : Bytes) (o : ℕ)
      → Keeps L modes J (write_at L urlencode bs o)
  unfolding write_at
  write_at-Keeps urlencode bs o = chain (this-Keeps L modes J) λ f. given λ e.
      chain (write_loop-Keeps urlencode (suc (length bs)) f.config.chunk_size bs o)
        λ _. chain (invalidate-Keeps _ _) λ _. on_pure _ λ s q. q

  write_pages-Keeps :
      (crc : Bytes → ℕ) (bs : Bytes) (o : ℕ) → Keeps L modes J (write_pages L crc bs o)
  unfolding write_pages
  write_pages-Keeps crc bs o =
      on_either (is_nil bs) (λ _. on_pure 0 λ s q. q)
        (λ _. chain handle-Keeps λ h. chain (this-Keeps L modes J) λ f. given λ e.
          chain (submit_write-Keeps _) λ _. chain (invalidate-Keeps _ _) λ _. on_pure _ λ s q. q)

  truncate_to-Keeps : (n : ℕ) → Keeps L modes J (truncate_to L n)
  unfolding truncate_to
  truncate_to-Keeps n =
      chain handle-Keeps
        λ h. chain (submit_write-Keeps _) λ _. chain (invalidate-Keeps _ _) λ _. on_pure _ λ s q. q

-- In a checkpoint, the writes, page writes and truncations of a file reach the server as kXR_ckpXeq
-- and in no other form: they keep whatever such requests keep.
pub checkpointed_writes :
    (L : Link) (urlencode : List (Bytes × Bytes) → Bytes) (crc : Bytes → ℕ) (J : L.Net → Type 0)
    → ((r : L.Router) (h body tail : Bytes) (n : L.Net)
        → J n
        → Leaves (λ b. J) J (L.execute r (chkpoint h kxr_ckpxeq body tail) n))
    → (c : Client L) → c.file.checkpoint ≡ true
    → J c.net
    → (bs : Bytes) (offset size : ℕ)
    → J (write_at L urlencode bs offset c).1.net
      × J (write_pages L crc bs offset c).1.net
      × J (truncate_to L size c).1.net
checkpointed_writes L urlencode crc J xeq c inside j bs offset size = (
  net_of (write_at L urlencode bs offset c)
      ((write_at-Keeps L (modes_of c.file) inside J xeq urlencode bs offset).ends c (j, refl)),
  net_of (write_pages L crc bs offset c)
      ((write_pages-Keeps L (modes_of c.file) inside J xeq crc bs offset).ends c (j, refl)),
  net_of (truncate_to L size c)
      ((truncate_to-Keeps L (modes_of c.file) inside J xeq size).ends c (j, refl)),
)
  where
    net_of :
        {A : Type 0} (out : Result A × Client L)
        → Ends (λ a. Within L (modes_of c.file) J) (λ e. Within L (modes_of c.file) J) out
        → J out.1.net
    net_of (ok a, s) q = q.0
    net_of (err x, s) q = q.0

module _ (L : Link) where
  abbrev Outside : Client L → Type 0
  Outside c = c.file.checkpoint ≡ false

  this-Outside : Triple Outside (this L) (λ f. Outside) (λ e. Outside)
  unfolding this
  this-Outside = chain on_state λ c. on_pure c.file λ s q. q.0

  update-Outside :
      {P : Client L → Type 0} (f : File L → File L)
      → ((s : Client L) → P s → (f s.file).checkpoint ≡ false)
      → Triple P (update L f) (λ u. Outside) (λ e. Outside)
  unfolding update
  update-Outside f h = on_modify _ h

  ask_Outside : (code : ℕ) → Triple Outside (ask_checkpoint L code) (λ a. Outside) (λ e. Outside)
  unfolding ask_checkpoint the_handle on_router
  ask_Outside code = chain (chain this-Outside λ f. of_option f.handle) λ h. record {
    ends = λ s q. routed s (L.execute s.file.router (chkpoint h code [] []) s.net) q;
  }
    where
      of_option :
          (o : Option Bytes)
          → Triple Outside
              (elim o [ none ↦ raise value_error | some h ↦ pure h ])
              (λ (a : Bytes). Outside)
              (λ e. Outside)
      of_option none = on_raise value_error λ s k. k
      of_option (some h) = on_pure h λ s k. k

      routed :
          (s : Client L) (out : Result Bytes × L.Router × L.Net)
          → Outside s
          → Ends
              (λ a. Outside)
              (λ e. Outside)
              (out.0, record { file = record s.file { router = out.1 }; net = out.2 })
      routed s (ok a, r, n) q = q
      routed s (err x, r, n) q = q

  enter :
      Triple Outside (update L (λ g. record g { checkpoint = true })) (λ u s. Unit) (λ e. Outside)
  unfolding update
  enter = on_modify _ λ s q. tt

  with_checkpoint-Outside :
      {A : Type 0} (body : Method L A)
      → Triple Outside (with_checkpoint L body) (λ a. Outside) (λ e. Outside)
  unfolding with_checkpoint
  with_checkpoint-Outside body = chain this-Outside λ f.
      on_either f.checkpoint (λ _. on_raise _ λ s q. q)
        (λ _. chain (ask_Outside kxr_ckpbegin) λ _. chain {Q = λ u s. Unit} enter λ _.
          chain
            (guarded {Q = λ a s. Unit} {D = λ e s. Unit} (no_claim body)
              (λ e s d never. absurd (cc))
              λ e _. chain (update-Outside _ λ s q. refl) λ _.
                chain (ask_Outside kxr_ckprollback)
                  λ _. chain (update-Outside _ λ s q. q) λ _. on_raise e λ s q. q)
            λ a.
              chain (update-Outside _ λ s q. refl)
                λ _. chain (ask_Outside kxr_ckpcommit) λ _. on_pure a λ s q. q)

  out_of :
      {A : Type 0} (out : Result A × Client L)
      → Ends (λ a. Outside) (λ e. Outside) out
      → Outside out.1
  out_of (ok a, s) q = q
  out_of (err x, s) q = q

-- However the body of a checkpoint ends, and whether the server commits it, rolls it back or fails
-- at either, the file is out of the checkpoint afterwards; it was not in one before.
pub with_checkpoint-leaves :
    (L : Link) {A : Type 0} (body : Method L A) (c : Client L)
    → c.file.checkpoint ≡ false
    → (with_checkpoint L body c).1.file.checkpoint ≡ false
with_checkpoint-leaves L body c outside =
    out_of L (with_checkpoint L body c) ((with_checkpoint-Outside L body).ends c outside)
