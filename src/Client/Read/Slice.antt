-- ===== src/Client/Read/Slice.antt =====
-- What `read` of src/xrd/client/file.py returns from a server that can be read.
use py_xroot_dclient.Config.{Config}
use py_xroot_dclient.Base.{
  ℕ, Bytes, [], zero, suc, ◌+◌, ◌-◌, ◌++◌, take, drop, length, ◌≡◌, refl, ap, ◌∙◌, arith, List,
  ◌==◌, ltb, leb, min, subst, ◌<◌, true, Bool,
}
use py_xroot_dclient.Base.Int.{pos}
use py_xroot_dclient.Errors.{Result, ok, err, stuck, protocol_error}
use py_xroot_dclient.Proto.Requests.{read}
use py_xroot_dclient.Client.Link.{Link}
use py_xroot_dclient.Client.Io.{Triple, chain, on_pure, on_raise, on_either, given, returned_of}
use py_xroot_dclient.Client.File.{Client, Method}
use py_xroot_dclient.Client.File.Carried.{Carries, Within, Leaves, bulk-Runs, this-Keeps, modes_of}
use py_xroot_dclient.Client.Server.{IsReadable, Still, slice}
use py_xroot_dclient.Client.Server.Slices.{slice_short, slice_split}
use py_xroot_dclient.Client.Read.{read_one, read_loop, read_size, read_at}

module _ (L : Link) (urlencode : List (Bytes × Bytes) → Bytes) (contents : L.Net → Bytes)
    (R : IsReadable L contents) (modes : ℕ × Bool × Config) (c : Bytes) where
  abbrev Same : L.Net → Type 0
  Same m = contents m ≡ c

  abbrev Sliced : ℕ → ℕ → Bytes → L.Net → Type 0
  Sliced o k d m = (contents m ≡ c) × (d ≡ slice o k c)

  Leaves-Still :
      {A : Type 0} (n : L.Net) (out : Result A × L.Router × L.Net)
      → contents n ≡ c
      → Still contents n out
      → Leaves (λ a. Same) Same out
  Leaves-Still n (ok a, r, m) e s = s ∙ e
  Leaves-Still n (err x, r, m) e s = s ∙ e

  Leaves-Sliced :
      (o k : ℕ) (n : L.Net) (out : Result Bytes × L.Router × L.Net)
      → contents n ≡ c
      → Leaves
          (λ d m. (contents m ≡ contents n) × (d ≡ slice o k (contents n)))
          (λ m. contents m ≡ contents n)
          out
      → Leaves (Sliced o k) Same out
  Leaves-Sliced o k n (ok d, r, m) e s = (s.0 ∙ e, s.1 ∙ ap (slice o k) e)
  Leaves-Sliced o k n (err x, r, m) e s = s ∙ e

  carries : (o k : ℕ) → Carries L modes.0 (λ h p. read h (pos o) (pos k) p) Same (Sliced o k)
  carries o k = record {
    routed = λ r h p n e. Leaves-Sliced o k n _ e (R.reads r h o k p n);
    sent = λ r h p n e. Leaves-Sliced o k n _ e (R.reads_sent r h o k p n);
    arrives = λ r n e. Leaves-Still n _ e (R.arrives r n);
    binds = λ r n e. Leaves-Still n _ e (R.binds r n);
    discards = λ r n e. R.discards r n ∙ e;
    opens = λ reading r path mode n e. Leaves-Still n _ e (R.opens modes.0 reading r path mode n);
  }

  abbrev Reads : ℕ → ℕ → Method L Bytes → Type 0
  Reads o k m =
      Triple (Within L modes Same) m (λ d. Within L modes (Sliced o k d)) (λ e. Within L modes Same)

  read_one-Reads : (o k : ℕ) → Reads o k (read_one L urlencode o k)
  unfolding read_one
  read_one-Reads o k =
      chain
        (bulk-Runs L modes (λ h p. read h (pos o) (pos k) p) Same (Sliced o k) (carries o k)
          urlencode)
        λ d.
          on_either (ltb k (length d)) (λ _. on_raise protocol_error λ s q. (q.0.0, q.1))
            (λ _. on_pure d λ s q. q)

  empty_slice : (o k : ℕ) → (k == 0) ≡ true → ◌≡◌ {A = Bytes} [] (slice o k c)
  empty_slice o k z = let e : 0 ≡ k = ground arith in ap (λ (j : ℕ). slice o j c) e

  -- What a read returned is a fact of its own.
  known :
      (o k n : ℕ) {d : Bytes} {m : Method L Bytes}
      → (d ≡ slice o n c → Reads o k m)
      → Triple
          (Within L modes (Sliced o n d))
          m
          (λ e. Within L modes (Sliced o k e))
          (λ e. Within L modes Same)
  known o k n {d} {m} f = record { ends = λ s q. (f q.0.1).ends s (q.0.0, q.1) }

  read_loop-Reads : (fuel limit k o : ℕ) → Reads o k (read_loop L urlencode fuel limit k o)
  unfolding read_loop
  read_loop-Reads zero limit k o = on_raise stuck λ s q. q
  read_loop-Reads (suc fuel) limit k o =
      on_either (k == 0) (λ z. on_pure [] λ s q. ((q.0, empty_slice o k z), q.1))
        (λ _. chain (read_one-Reads o (min k limit)) λ d.
          known o k (min k limit) λ (e : d ≡ slice o (min k limit) c).
            on_either (ltb (length d) (min k limit))
              (λ short. on_pure d λ s q. (
                (
                  q.0,
                  e
                      ∙ slice_short o (min k limit) k c
                          (subst (λ (b : Bytes). length b < min k limit) e (ground arith))
                          (omega arith),
                ),
                q.1,
              ))
              (λ _. chain (read_loop-Reads fuel limit (k - min k limit) (o + min k limit)) λ later.
                on_pure (d ++ later) λ s q. (
                  (
                    q.0.0,
                    ap (λ (b : Bytes). b ++ later) e
                        ∙ ap (λ (b : Bytes). slice o (min k limit) c ++ b) q.0.1
                        ∙ slice_split o (min k limit) k c (omega arith),
                  ),
                  q.1,
                )))

  pub read_size-Reads : (k o : ℕ) → Reads o k (read_size L urlencode k o)
  unfolding read_size
  read_size-Reads k o = chain (this-Keeps L modes Same) λ f. given λ e.
      on_either (k == 0) (λ z. on_pure [] λ s q. ((q.0, empty_slice o k z), q.1))
        (λ _.
          on_either (leb k f.config.chunk_size) (λ _. read_one-Reads o k)
            (λ _. read_loop-Reads (suc k) f.config.chunk_size k o))

-- What a read of so many bytes at an offset returns, if it returns, is what the file has there: cut
-- into chunks, over data paths or on the control link, and whatever was tried again, on another
-- path or over a file that was opened again. The contents of the file are left as they were.
pub read_at_lem :
    (L : Link) (urlencode : List (Bytes × Bytes) → Bytes) (contents : L.Net → Bytes)
    → IsReadable L contents
    → (c : Client L) (k offset : ℕ) {d : Bytes} → (read_at L urlencode (pos k) offset c).0 ≡ ok d
    → (d ≡ take k (drop offset (contents c.net)))
      × (contents (read_at L urlencode (pos k) offset c).1.net ≡ contents c.net)
unfolding read_at
read_at_lem L urlencode contents R c k offset e =
    let run =
      returned_of
        (read_size-Reads L urlencode contents R (modes_of c.file) (contents c.net) k offset) c
        (refl, refl) e in
    (run.0.1, run.0.0)
