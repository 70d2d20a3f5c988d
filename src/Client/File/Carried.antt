-- ===== src/Client/File/Carried.antt =====
-- How a bulk request comes through `_execute` and `_bulk` of src/xrd/client/file.py: whatever holds
-- beyond the router while it is tried, and what holds once it was answered, by the calls made.
use py_xroot_dclient.Config.{Config}
use py_xroot_dclient.Proto.Responses.Opened.{parse_open}
use py_xroot_dclient.Base.{
  ℕ, Bytes, zero, suc, Bool, true, false, Option, none, some, ◌==◌, ◌||◌, ◌≡◌, refl, ap, arith,
  List, ◌∙◌, not, is_nil, subst, sym,
}
use py_xroot_dclient.Errors.{Result, ok, err, Error, value_error, ok-injective}
use py_xroot_dclient.Proto.Requests.{Request, open_file}
use py_xroot_dclient.Client.Io.{
  Triple, Ends, chain, guarded, on_pure, on_raise, on_modify, on_state, on_lift, on_either, given,
  pure, raise, ◌>>◌,
}
use py_xroot_dclient.Client.Link.{Link}
use py_xroot_dclient.Client.File.{
  File, Client, Method, this, update, on_router, the_handle, bind_streams, bind_data_streams,
  next_path, discard_owned, recoverable, Build, BuildOn, on_path, ask_router, do_open, reopen,
  execute, bulk, bulk_split, bulk_direct, writing, on_own_path, path_with_cgi,
}
use Prim.Native.Nat.{bit_or, bit_and}

-- What an answer, or a failure, leaves beyond the router.
abbrev pub Leaves : {A R N : Type 0} → (A → N → Type 0) → (N → Type 0) → Result A × R × N → Type 0
Leaves D J (ok a, r, n) = D a n
Leaves D J (err e, r, n) = J n

-- `J` holds while the request is tried and `D` once it was answered: the calls that are made on a
-- router for it, and those made on the way to another router for a file opened with these flags.
pub record Carries (L : Link) (flags : ℕ) (build : BuildOn L) (J : L.Net → Type 0)
    (D : Bytes → L.Net → Type 0) : Type 0 where
  pub routed :
      (r : L.Router) (h : Bytes) (p : ℕ) (n : L.Net) → J n → Leaves D J (L.execute r (build h p) n)
  pub sent :
      (r : L.Router) (h : Bytes) (p : ℕ) (n : L.Net) → J n → Leaves D J (L.direct r (build h p) n)
  pub arrives : (r : L.Router) (n : L.Net) → J n → Leaves (λ b. J) J (L.arrives r n)
  pub binds : (r : L.Router) (n : L.Net) → J n → Leaves (λ b. J) J (L.bind_data_path r n)
  pub discards : (r : L.Router) (n : L.Net) → J n → J (L.discard r n).1
  pub opens :
      bit_and flags writing ≡ 0
      → (r : L.Router) (path : Bytes) (mode : ℕ) (n : L.Net) → J n
      → Leaves (λ b. J) J (L.execute r (open_file path (bit_or flags 0x0400) mode) n)

-- What bulk requests leave of a file: its flags, whether it is in a checkpoint, and its settings.
abbrev pub modes_of : {L : Link} → File L → ℕ × Bool × Config
modes_of f = (f.flags, f.checkpoint, f.config)

module _ (L : Link) (modes : ℕ × Bool × Config) where
  -- A statement on what lies beyond the router, for a file in these modes.
  abbrev pub Within : (L.Net → Type 0) → Client L → Type 0
  Within J c = J c.net × (modes_of c.file ≡ modes)

  abbrev pub Keeps : {A : Type 0} → (L.Net → Type 0) → Method L A → Type 0
  Keeps J m = Triple (Within J) m (λ a. Within J) (λ e. Within J)

  pub on_router-Leaves :
      {A : Type 0} (D : A → L.Net → Type 0) (J K : L.Net → Type 0)
      (call : L.Router → L.Net → Result A × L.Router × L.Net)
      → ((r : L.Router) (n : L.Net) → K n → Leaves D J (call r n))
      → Triple (Within K) (on_router L call) (λ a. Within (D a)) (λ e. Within J)
  unfolding on_router
  on_router-Leaves {A} D J K call h = record {
    ends = λ c k. left c k.1 (call c.file.router c.net) (h _ _ k.0);
  }
    where
      left :
          (c : Client L)
          → modes_of c.file ≡ modes
          → (out : Result A × L.Router × L.Net) → Leaves D J out
          → Ends
              (λ a. Within (D a))
              (λ e. Within J)
              (out.0, record { file = record c.file { router = out.1 }; net = out.2 })
      left c e (ok a, r, n) q = (q, e)
      left c e (err x, r, n) q = (q, e)

  pub this-Keeps :
      (J : L.Net → Type 0) {E : Error → Client L → Type 0}
      → Triple (Within J) (this L) (λ f c. Within J c × (modes_of f ≡ modes)) E
  unfolding this
  this-Keeps J =
      chain on_state
        λ t. on_pure t.file λ s q. (q.0, ap (λ (u : Client L). modes_of u.file) q.1 ∙ q.0.1)

  pub update-Keeps :
      (J : L.Net → Type 0) (f : File L → File L)
      → ((g : File L) → modes_of (f g) ≡ modes_of g)
      → Keeps J (update L f)
  unfolding update
  update-Keeps J f same = on_modify _ λ c k. (k.0, same c.file ∙ k.1)

  bind_streams-Keeps :
      (J : L.Net → Type 0)
      → ((r : L.Router) (n : L.Net) → J n → Leaves (λ b. J) J (L.bind_data_path r n))
      → (n : ℕ) → Keeps J (bind_streams L n)
  unfolding bind_streams
  bind_streams-Keeps J binds zero = on_pure tt λ s k. k
  bind_streams-Keeps J binds (suc n) =
      chain
        (guarded (on_router-Leaves (λ b. J) J J L.bind_data_path binds) (λ e c k _. k)
          (λ e _. on_pure 0 λ s k. k))
        λ p.
          on_either (p == 0) (λ _. on_pure tt λ s k. k)
            (λ _. chain (update-Keeps J _ λ g. refl) λ _. bind_streams-Keeps J binds n)

  module _ (build : BuildOn L) (J : L.Net → Type 0) (D : Bytes → L.Net → Type 0)
      (C : Carries L modes.0 build J D) (urlencode : List (Bytes × Bytes) → Bytes) where
    bind_data_streams-Keeps : Keeps J (bind_data_streams L)
    unfolding bind_data_streams
    bind_data_streams-Keeps = chain (this-Keeps J) λ f. given λ e. bind_streams-Keeps J C.binds _

    next_path-Keeps : Keeps J (next_path L)
    unfolding next_path
    next_path-Keeps = chain (this-Keeps J) λ f. given λ e.
        on_either (not f.multistream || is_nil f.data_paths) (λ _. on_pure 0 λ s k. k)
          (λ _. chain (update-Keeps J _ λ g. refl) λ _. on_pure _ λ s k. k)

    the_handle-Keeps : Keeps J (the_handle L)
    unfolding the_handle
    the_handle-Keeps = chain (this-Keeps J) λ f. given λ e. handle_of f.handle
      where
        handle_of :
            (o : Option Bytes)
            → Keeps {A = Bytes} J (elim o [ none ↦ raise value_error | some h ↦ pure h ])
        handle_of none = on_raise value_error λ s k. k
        handle_of (some h) = on_pure h λ s k. k

    abbrev Runs : Method L Bytes → Type 0
    Runs m = Triple (Within J) m (λ b. Within (D b)) (λ e. Within J)

    ask_router-Runs :
        (b : Build L) (h : Bytes) (p : File L → ℕ)
        → ((f : File L) → b f h ≡ ok (build h (p f)))
        → Runs (ask_router L b h)
    unfolding ask_router
    ask_router-Runs b h p makes = chain (this-Keeps J) λ f. given λ e.
        chain (on_lift (b f h) (λ request s k m. (k, m)) (λ x s k m. k)) λ request. given λ m.
          on_router-Leaves D J J _ λ r n k.
            subst (λ (q : Request). Leaves D J (L.execute r q n))
              (ok-injective (build h (p f)) request (sym (makes f) ∙ m)) (C.routed r h (p f) n k)

    do_open-Keeps : bit_and modes.0 writing ≡ 0 → Keeps J (do_open L urlencode)
    unfolding do_open
    do_open-Keeps reading = chain (this-Keeps J) λ f. given λ e.
        chain
          (on_router-Leaves (λ b. J) J J _
            λ r n k.
              subst
                (λ (x : ℕ).
                  Leaves {A = Bytes} {N = L.Net} (λ b. J) J
                    (L.execute r
                      (open_file (path_with_cgi urlencode f.url) (bit_or x 0x0400) f.mode) n))
                (sym (ap (λ (m : ℕ × Bool × Config). m.0) e))
                (C.opens reading r (path_with_cgi urlencode f.url) f.mode n k))
          λ body. chain (update-Keeps J _ λ g. refl) λ _.
            chain (on_lift (parse_open body f.url.path) (λ o s k m. k) (λ x s k m. k))
              λ opened. chain (update-Keeps J _ λ g. refl) λ _. on_pure _ λ s k. k

    discard_owned-Keeps : Keeps J (discard_owned L)
    unfolding discard_owned
    discard_owned-Keeps = chain (this-Keeps J) λ f. given λ e.
        on_either f.owns_router (λ _. on_router-Leaves (λ b. J) J J _ λ r n k. C.discards r n k)
          (λ _. on_pure tt λ s k. k)

    reopen-Keeps : bit_and modes.0 writing ≡ 0 → Keeps J (reopen L urlencode)
    unfolding reopen
    reopen-Keeps reading = chain (update-Keeps J _ λ g. refl) λ _. chain discard_owned-Keeps λ _.
        chain (update-Keeps J _ λ g. refl) λ _.
          chain (do_open-Keeps reading) λ h. chain bind_data_streams-Keeps λ _. on_pure h λ s k. k

    reading_of :
        (f : File L) → modes_of f ≡ modes → recoverable L f ≡ true → bit_and modes.0 writing ≡ 0
    unfolding recoverable
    reading_of f e can = subst (λ (m : ℕ × Bool × Config). bit_and m.0 writing ≡ 0) e (ground arith)

    execute-Runs :
        (b : Build L) (p : File L → ℕ)
        → ((f : File L) (h : Bytes) → b f h ≡ ok (build h (p f)))
        → Runs (execute L urlencode b)
    unfolding execute
    execute-Runs b p makes =
        guarded (chain the_handle-Keeps λ h. ask_router-Runs b h p λ f. makes f h) (λ e c k _. k)
          λ x caught. chain (this-Keeps J) λ f. given λ e.
            on_either (recoverable L f)
              (λ yes.
                chain (reopen-Keeps (reading_of f e yes)) λ h. ask_router-Runs b h p λ g. makes g h)
              (λ _. on_raise x λ s k. k)

    bulk_split-Runs : (p : ℕ) → Runs (bulk_split L urlencode build p)
    unfolding bulk_split
    bulk_split-Runs p =
        guarded (execute-Runs (on_path L build p) (λ f. p) λ f h. refl) (λ e c k _. k)
          λ x caught. chain (this-Keeps J) λ f. given λ e. again f.handle x
      where
        again :
            (o : Option Bytes) (x : Error)
            → Runs (elim o [
              | none ↦ raise x
              | some h ↦
                  update L (λ g. record g { multistream = false })
                  >> execute L urlencode (on_path L build 0)
            ])
        again none x = on_raise x λ s k. k
        again (some h) x =
            chain (update-Keeps J _ λ g. refl)
              λ _. execute-Runs (on_path L build 0) (λ f. 0) λ f h. refl

    bulk_direct-Runs : (p : ℕ) → Runs (bulk_direct L urlencode build p)
    unfolding bulk_direct
    bulk_direct-Runs p =
        guarded (chain the_handle-Keeps λ h. on_router-Leaves D J J _ λ r n k. C.sent r h p n k)
          (λ e c k _. k)
          λ x caught. chain (update-Keeps J _ λ g. refl) λ _. chain bind_data_streams-Keeps λ _.
            chain next_path-Keeps λ q.
              on_either (q == 0) (λ _. execute-Runs (on_path L build 0) (λ f. 0) λ f h. refl)
                (λ _. bulk_split-Runs q)

    pub bulk-Runs : Runs (bulk L urlencode build)
    unfolding bulk
    bulk-Runs = chain next_path-Keeps λ p. chain (this-Keeps J) λ f. given λ e.
        on_either (p == 0 || f.checkpoint)
          (λ _. execute-Runs (on_own_path L build) (λ g. g.pathid) λ g h. refl)
          (λ _. chain (on_router-Leaves (λ b. J) J J L.arrives C.arrives) λ served. ways p served)
      where
        ways :
            (p : ℕ) (served : Option Bool)
            → Runs (elim served [
              | some false ↦ bulk_split L urlencode build p
              | some true ↦ bulk_direct L urlencode build p
              | none ↦ bulk_direct L urlencode build p
            ])
        ways p (some false) = bulk_split-Runs p
        ways p (some true) = bulk_direct-Runs p
        ways p none = bulk_direct-Runs p
