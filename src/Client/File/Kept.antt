-- ===== src/Client/File/Kept.antt =====
-- A file that is open to be written keeps its handle: no request about it opens it again.
use py_xroot_dclient.Base.Cases.{on_option}
use py_xroot_dclient.Client.Io.{
  Triple, chain, Ends, on_modify, on_pure, given, on_state, raise, on_either, on_lift, guarded,
  on_raise, pure, ◌>>◌,
}
use py_xroot_dclient.Errors.{Result, Error, ok, value_error, err}
use Prim.Native.Nat.{bit_and}
use py_xroot_dclient.Client.File.{
  Method, Client, update, ask_router, File, this, bind_data_streams, bind_streams, the_handle,
  next_path, recoverable, on_router, Build, writing, bulk, bulk_direct, execute, bulk_split,
  BuildOn,
}
use py_xroot_dclient.Base.{
  refl, ℕ, List, Option, Bytes, ◌≡◌, none, suc, ◌∙◌, ◌≢◌, false, ap, some, not, sym, ◌==◌, zero,
  ◌||◌, arith, Bool, true, is_nil,
}
use py_xroot_dclient.Client.Link.{Link}

-- What is kept: the flags, the handle, and how often the file was opened again.
abbrev facts_of : {L : Link} → File L → ℕ × Option Bytes × ℕ
facts_of f = (f.flags, f.handle, f.recoveries)

module _ (L : Link) (kept : ℕ × Option Bytes × ℕ) where
  abbrev IsKept : Client L → Type 0
  IsKept c = facts_of c.file ≡ kept

  abbrev Keeps : {A : Type 0} → Method L A → Type 0
  Keeps m = Triple IsKept m (λ a. IsKept) (λ e. IsKept)

  Ends-IsKept :
      {A : Type 0} (r : Result A) (c : Client L)
      → IsKept c
      → Ends (λ a. IsKept) (λ e. IsKept) (r, c)
  Ends-IsKept (ok a) c k = k
  Ends-IsKept (err e) c k = k

  on_router-Keeps :
      {A : Type 0} (call : L.Router → L.Net → Result A × L.Router × L.Net)
      → Keeps (on_router L call)
  unfolding on_router
  on_router-Keeps call = record { ends = λ c k. Ends-IsKept _ _ k }

  this-IsKept :
      {E : Error → Client L → Type 0}
      → Triple IsKept (this L) (λ f c. IsKept c × (facts_of f ≡ kept)) E
  unfolding this
  this-IsKept =
      chain on_state
        λ t. on_pure t.file λ s q. (q.0, ap (λ (u : Client L). facts_of u.file) q.1 ∙ q.0)

  update-Keeps :
      (f : File L → File L) → ((g : File L) → facts_of (f g) ≡ facts_of g) → Keeps (update L f)
  unfolding update
  update-Keeps f same = on_modify _ λ c k. same c.file ∙ k

  the_handle-Keeps : Keeps (the_handle L)
  unfolding the_handle
  the_handle-Keeps = chain this-IsKept λ f. given λ e. handle_of f.handle
    where
      handle_of :
          (o : Option Bytes)
          → Keeps {A = Bytes} (elim o [ none ↦ raise value_error | some h ↦ pure h ])
      handle_of none = on_raise value_error λ s k. k
      handle_of (some h) = on_pure h λ s k. k

  ask_router-Keeps : (b : Build L) (h : Bytes) → Keeps (ask_router L b h)
  unfolding ask_router
  ask_router-Keeps b h =
      chain this-IsKept
        λ f. given λ e. chain (on_lift (b f h) (λ q s k _. k) (λ x s k _. k)) λ q. on_router-Keeps _

  bind_streams-Keeps : (n : ℕ) → Keeps (bind_streams L n)
  unfolding bind_streams
  bind_streams-Keeps zero = on_pure tt λ s k. k
  bind_streams-Keeps (suc n) =
      chain (guarded (on_router-Keeps L.bind_data_path) (λ e c k _. k) (λ e _. on_pure 0 λ s k. k))
        λ p.
          on_either (p == 0) (λ _. on_pure tt λ s k. k)
            (λ _. chain (update-Keeps _ λ g. refl) λ _. bind_streams-Keeps n)

  bind_data_streams-Keeps : Keeps (bind_data_streams L)
  unfolding bind_data_streams
  bind_data_streams-Keeps = chain this-IsKept λ f. given λ e. bind_streams-Keeps _

  next_path-Keeps : Keeps (next_path L)
  unfolding next_path
  next_path-Keeps = chain this-IsKept λ f. given λ e.
      on_either (not f.multistream || is_nil f.data_paths) (λ _. on_pure 0 λ s k. k)
        (λ _. chain (update-Keeps _ λ g. refl) λ _. on_pure _ λ s k. k)

  not_recoverable :
      (f : File L) → bit_and kept.0 writing ≢ 0 → facts_of f ≡ kept → recoverable L f ≡ false
  unfolding recoverable
  not_recoverable f writes e =
      let flags : f.flags ≡ kept.0 = ap (λ (k : ℕ × Option Bytes × ℕ). k.0) e in
      let set : bit_and f.flags writing ≢ 0 =
        λ z. writes (ap (λ (n : ℕ). bit_and n writing) (sym flags) ∙ z) in
      ground arith

  module _ (urlencode : List (Bytes × Bytes) → Bytes) (writes : bit_and kept.0 writing ≢ 0) where
    pub execute-Keeps : (b : Build L) → Keeps (execute L urlencode b)
    unfolding execute
    execute-Keeps b =
        guarded (chain the_handle-Keeps λ h. ask_router-Keeps b h) (λ e c k _. k)
          (λ e _. chain this-IsKept λ f. given λ facts.
            on_either (recoverable L f)
              (λ yes. let no = not_recoverable f writes facts in absurd (cc))
              (λ _. on_raise e λ s k. k))

    again : BuildOn L → Error → Option Bytes → Method L Bytes
    again b e none = raise e
    again b e (some h) = do
      update L (λ g. record g { multistream = false })
      execute L urlencode (λ f k. ok (b k 0))

    again-Keeps : (b : BuildOn L) (e : Error) (o : Option Bytes) → Keeps (again b e o)
    unfolding again
    again-Keeps b e none = on_raise e λ s k. k
    again-Keeps b e (some h) = chain (update-Keeps _ λ g. refl) λ _. execute-Keeps _

    bulk_split-Keeps : (b : BuildOn L) (p : ℕ) → Keeps (bulk_split L urlencode b p)
    unfolding bulk_split again
    bulk_split-Keeps b p =
        guarded (execute-Keeps _) (λ e c k _. k)
          (λ e _. chain this-IsKept λ f. given λ _.
            on_option (λ (m : Method L Bytes). Keeps m) f.handle (again-Keeps b e none)
              (λ h. again-Keeps b e (some h)))

    bulk_direct-Keeps : (b : BuildOn L) (p : ℕ) → Keeps (bulk_direct L urlencode b p)
    unfolding bulk_direct
    bulk_direct-Keeps b p =
        guarded (chain the_handle-Keeps λ h. on_router-Keeps _) (λ e c k _. k)
          (λ e _. chain (update-Keeps _ λ g. refl) λ _. chain bind_data_streams-Keeps λ _.
            chain next_path-Keeps
              λ q. on_either (q == 0) (λ _. execute-Keeps _) (λ _. bulk_split-Keeps b q))

    pub bulk-Keeps : (b : BuildOn L) → Keeps (bulk L urlencode b)
    unfolding bulk
    bulk-Keeps b = chain next_path-Keeps λ p. chain this-IsKept λ f. given λ _.
        on_either (p == 0 || f.checkpoint) (λ _. execute-Keeps _)
          (λ _. chain (on_router-Keeps L.arrives) λ served. by_served served p)
      where
        by_served :
            (served : Option Bool) (p : ℕ)
            → Keeps (elim served [
              | some false ↦ bulk_split L urlencode b p
              | some true ↦ bulk_direct L urlencode b p
              | none ↦ bulk_direct L urlencode b p
            ])
        by_served (some false) p = bulk_split-Keeps b p
        by_served (some true) p = bulk_direct-Keeps b p
        by_served none p = bulk_direct-Keeps b p

module _ (L : Link) (c : Client L) where
  Kept-Ends :
      {A : Type 0} (r : Result A × Client L)
      → Ends (λ a. IsKept L (facts_of c.file)) (λ e. IsKept L (facts_of c.file)) r
      → facts_of r.1.file ≡ facts_of c.file
  Kept-Ends (ok a, d) k = k
  Kept-Ends (err e, d) k = k

-- A file that was opened to write, create, truncate or append is never opened again by a request
-- about it: whatever comes of the request, lost connections too, through `_execute` and through
-- `_bulk` with its fallbacks, the file has the handle that it had and counts no recovery.
pub writer_stays_open :
    (L : Link) (urlencode : List (Bytes × Bytes) → Bytes) (c : Client L)
    → bit_and c.file.flags writing ≢ 0
    → (b : Build L) (k : BuildOn L)
    → ((execute L urlencode b c).1.file.handle ≡ c.file.handle)
      × ((execute L urlencode b c).1.file.recoveries ≡ c.file.recoveries)
      × ((bulk L urlencode k c).1.file.handle ≡ c.file.handle)
      × ((bulk L urlencode k c).1.file.recoveries ≡ c.file.recoveries)
writer_stays_open L urlencode c writes b k =
    let facts : ℕ × Option Bytes × ℕ = (c.file.flags, c.file.handle, c.file.recoveries) in
    let one =
      Kept-Ends L c (execute L urlencode b c)
        ((execute-Keeps L facts urlencode writes b).ends c refl) in
    let two =
      Kept-Ends L c (bulk L urlencode k c) ((bulk-Keeps L facts urlencode writes k).ends c refl) in
    (
      ap (λ (x : ℕ × Option Bytes × ℕ). x.1) one,
      ap (λ (x : ℕ × Option Bytes × ℕ). x.2) one,
      ap (λ (x : ℕ × Option Bytes × ℕ). x.1) two,
      ap (λ (x : ℕ × Option Bytes × ℕ). x.2) two,
    )
