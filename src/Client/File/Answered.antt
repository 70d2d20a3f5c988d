-- ===== src/Client/File/Answered.antt =====
-- Bulk requests of src/xrd/client/file.py on a connection that answers: they return, on the control
-- link, and the file is ready for the next one.
use py_xroot_dclient.Config.{Config}
use py_xroot_dclient.Base.{
  ℕ, Bytes, [], List, true, false, ◌≡◌, ◌||◌, ◌==◌, refl, ap, ◌∙◌, arith, Option, none, some, not,
  is_nil,
}
use py_xroot_dclient.Errors.{Result, ok, err, value_error}
use py_xroot_dclient.Client.Link.{Link}
use py_xroot_dclient.Client.Io.{
  Triple, Ends, chain, given, guarded, on_pure, on_state, on_either, raise, pure, lift,
}
use py_xroot_dclient.Client.File.{
  File, Client, Method, BuildOn, this, on_router, next_path, the_handle, ask_router, execute, bulk,
}

-- A call that returned, with what holds of its value, and of the router and the net that it left.
abbrev pub Returned : {A R N : Type 0} → (A → Type 0) → (R → N → Type 0) → Result A × R × N → Type 0
Returned Q J (ok a, r, n) = Q a × J r n
Returned Q J (err e, r, n) = ⊥

module _ (L : Link) (J : L.Router → L.Net → Type 0) (h : Bytes) (settings : Config) where
  -- An open file in no checkpoint, without data paths of its own, whose router answers.
  pub record IsReady (c : Client L) : Type 0 where
    pub up : J c.file.router c.net
    pub opened : c.file.handle ≡ some h
    pub alone : c.file.data_paths ≡ []
    pub plain : c.file.checkpoint ≡ false
    pub same : c.file.config ≡ settings

  abbrev pub Sure : {A : Type 0} → (A → Type 0) → Method L A → Type 0
  Sure Q m = Triple IsReady m (λ a c. IsReady c × Q a) (λ e c. ⊥)

  abbrev Facts : File L → Type 0
  Facts f =
      (f.handle ≡ some h) × (f.data_paths ≡ []) × (f.checkpoint ≡ false) × (f.config ≡ settings)

  Facts-IsReady : (c : Client L) → IsReady c → (f : File L) → f ≡ c.file → Facts f
  Facts-IsReady c r f e = (
    ap (λ (g : File L). g.handle) e ∙ r.opened,
    ap (λ (g : File L). g.data_paths) e ∙ r.alone,
    ap (λ (g : File L). g.checkpoint) e ∙ r.plain,
    ap (λ (g : File L). g.config) e ∙ r.same,
  )

  pub this-Sure : Sure Facts (this L)
  unfolding this
  this-Sure = chain on_state λ t.
      on_pure t.file λ s q. (q.0, Facts-IsReady s q.0 t.file (ap (λ (u : Client L). u.file) q.1))

  next_path-Sure : Sure (λ p. p ≡ 0) (next_path L)
  unfolding next_path
  next_path-Sure = chain this-Sure λ f. given λ facts.
      on_either (not f.multistream || is_nil f.data_paths) (λ _. on_pure 0 λ s q. (q, refl))
        (λ no. let e : is_nil f.data_paths ≡ true = ap is_nil facts.1 in absurd (ground arith))

  the_handle-Sure : Sure (λ k. k ≡ h) (the_handle L)
  unfolding the_handle
  the_handle-Sure = chain this-Sure λ f. given λ facts. handle_of f.handle facts.0
    where
      handle_of :
          (o : Option Bytes)
          → o ≡ some h
          → Sure {A = Bytes} (λ k. k ≡ h) (elim o [ none ↦ raise value_error | some k ↦ pure k ])
      handle_of none e = absurd (cc)
      handle_of (some k) e = on_pure k λ s q. (q, cc)

  module _ (build : BuildOn L) (Q : Bytes → Type 0)
      (answered : (r : L.Router) (p : ℕ) (n : L.Net)
        → J r n
        → Returned Q J (L.execute r (build h p) n))
      (urlencode : List (Bytes × Bytes) → Bytes) where
    routed-Sure : (p : ℕ) → Sure Q (on_router L (λ r. L.execute r (build h p)))
    unfolding on_router
    routed-Sure p = record { ends = λ c q. left c q _ (answered _ p _ q.up) }
      where
        left :
            (c : Client L)
            → IsReady c
            → (out : Result Bytes × L.Router × L.Net) → Returned Q J out
            → Ends
                (λ a d. IsReady d × Q a)
                (λ e d. ⊥)
                (out.0, record { file = record c.file { router = out.1 }; net = out.2 })
        left c q (ok a, r, n) given_back = (
          record {
            up = given_back.1;
            opened = q.opened;
            alone = q.alone;
            plain = q.plain;
            same = q.same;
          },
          given_back.0,
        )
        left c q (err e, r, n) given_back = absurd given_back

    execute-Sure : Sure Q (execute L urlencode (λ f k. ok (build k f.pathid)))
    unfolding execute ask_router lift pure
    execute-Sure =
        guarded {D = λ e c. ⊥}
          (chain the_handle-Sure λ k. given λ same. chain this-Sure λ f. given λ _.
            chain {Q = λ q c. IsReady c × (q ≡ build h f.pathid)}
              (on_pure (build k f.pathid) λ s q. (q, ap (λ (x : Bytes). build x f.pathid) same))
              λ q. given λ e. rw e (routed-Sure f.pathid))
          (λ e c bot _. absurd bot) (λ e _. record { ends = λ c bot. absurd bot })

    pub bulk-Sure : Sure Q (bulk L urlencode build)
    unfolding bulk
    bulk-Sure = chain next_path-Sure λ p. given λ zero_path. chain this-Sure λ f.
        given
          λ _. on_either (p == 0 || f.checkpoint) (λ _. execute-Sure) (λ no. absurd (ground arith))
