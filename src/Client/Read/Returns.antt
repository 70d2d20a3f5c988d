-- ===== src/Client/Read/Returns.antt =====
-- `read` of src/xrd/client/file.py on a connection that answers: its loop comes to an end.
use py_xroot_dclient.Config.{Config}
use py_xroot_dclient.Base.{
  ℕ, Bytes, [], zero, suc, ◌+◌, ◌-◌, ◌++◌, ◌≤◌, ◌<◌, arith, List, ◌==◌, ltb, leb, length, min,
  subst, sym,
}
use py_xroot_dclient.Base.Int.{pos}
use py_xroot_dclient.Proto.Requests.{read}
use py_xroot_dclient.Client.Link.{Link}
use py_xroot_dclient.Client.Io.{chain, on_pure, on_either, given}
use py_xroot_dclient.Client.File.{Method}
use py_xroot_dclient.Client.File.Answered.{Returned, Sure, bulk-Sure, this-Sure}
use py_xroot_dclient.Client.Read.{read_one, read_loop, read_size, read_at}

module _ (L : Link) (J : L.Router → L.Net → Type 0) (h : Bytes) (settings : Config)
    (urlencode : List (Bytes × Bytes) → Bytes)
    (answered : (o k : ℕ) (r : L.Router) (p : ℕ) (n : L.Net)
      → J r n
      → Returned (λ (d : Bytes). length d ≤ k) J (L.execute r (read h (pos o) (pos k) p) n)) where
  abbrev Reads : Method L Bytes → Type 0
  Reads m = Sure L J h settings (λ d. Unit) m

  read_one-Reads : (o k : ℕ) → Reads (read_one L urlencode o k)
  unfolding read_one
  read_one-Reads o k =
      chain
        (bulk-Sure L J h settings (λ f p. read f (pos o) (pos k) p) (λ d. length d ≤ k)
          (answered o k) urlencode)
        λ d. given λ short.
          on_either (ltb k (length d)) (λ long. absurd (ground arith))
            (λ _. on_pure d λ s q. (q, tt))

  read_loop-Reads :
      (fuel limit k o : ℕ) → k < fuel → 1 ≤ limit → Reads (read_loop L urlencode fuel limit k o)
  unfolding read_loop
  read_loop-Reads zero limit k o more enough = absurd (omega arith)
  read_loop-Reads (suc fuel) limit k o more enough =
      on_either (k == 0) (λ _. on_pure [] λ s q. (q, tt))
        λ some_left. chain (read_one-Reads o (min k limit)) λ d. given λ _.
          on_either (ltb (length d) (min k limit)) (λ _. on_pure d λ s q. (q, tt))
            λ _.
              chain
                (read_loop-Reads fuel limit (k - min k limit) (o + min k limit) (ground arith)
                  enough)
                λ later. given λ _. on_pure (d ++ later) λ s q. (q, tt)

  pub read_at-Reads : (k o : ℕ) → 1 ≤ settings.chunk_size → Reads (read_at L urlencode (pos k) o)
  unfolding read_at read_size
  read_at-Reads k o enough = chain (this-Sure L J h settings) λ f. given λ facts.
      on_either (k == 0) (λ _. on_pure [] λ s q. (q, tt))
        λ _.
          on_either (leb k f.config.chunk_size) (λ _. read_one-Reads o k)
            λ _.
              read_loop-Reads (suc k) f.config.chunk_size k o (omega arith)
                (subst (λ (c : Config). 1 ≤ c.chunk_size) (sym facts.3) enough)
