-- ===== src/Client/Write/Returns.antt =====
-- `write` of src/xrd/client/file.py on a connection that answers: its loop comes to an end.
use py_xroot_dclient.Config.{Config}
use py_xroot_dclient.Base.{
  ℕ, Bytes, [], ◌∷◌, zero, suc, ◌+◌, ◌≤◌, ◌<◌, arith, List, length, take, drop, subst, sym,
}
use py_xroot_dclient.Base.Int.{pos}
use py_xroot_dclient.Proto.Requests.{write}
use py_xroot_dclient.Client.Link.{Link}
use py_xroot_dclient.Client.Io.{chain, on_pure, on_modify, on_either, given}
use py_xroot_dclient.Client.File.{Method, update}
use py_xroot_dclient.Client.File.Answered.{IsReady, Returned, Sure, bulk-Sure, this-Sure}
use py_xroot_dclient.Client.Write.{write_loop, write_at, invalidate}

module _ (L : Link) (J : L.Router → L.Net → Type 0) (h : Bytes) (settings : Config)
    (urlencode : List (Bytes × Bytes) → Bytes)
    (answered : (o : ℕ) (bs : Bytes) (r : L.Router) (p : ℕ) (n : L.Net)
      → J r n
      → Returned (λ (d : Bytes). Unit) J (L.execute r (write h (pos o) bs p) n)) where
  abbrev Writes : {A : Type 0} → Method L A → Type 0
  Writes m = Sure L J h settings (λ d. Unit) m

  write_loop-Writes :
      (fuel limit : ℕ) (bs : Bytes) (o : ℕ)
      → length bs < fuel
      → 1 ≤ limit
      → Writes (write_loop L urlencode fuel limit bs o)
  unfolding write_loop
  write_loop-Writes zero limit bs o more enough = absurd (omega arith)
  write_loop-Writes (suc fuel) limit [] o more enough = on_pure tt λ s q. (q, tt)
  write_loop-Writes (suc fuel) zero (b ∷ bs) o more enough = absurd (omega arith)
  write_loop-Writes (suc fuel) (suc limit) (b ∷ bs) o more enough =
      chain (this-Sure L J h settings) λ f. given λ facts.
        chain {Q = λ d c. IsReady L J h settings c × Unit}
          (on_either f.checkpoint (λ inside. let plain = facts.2 in absurd (cc))
            (λ _.
              bulk-Sure L J h settings (λ k p. write k (pos o) (take (suc limit) (b ∷ bs)) p)
                (λ d. Unit) (answered o (take (suc limit) (b ∷ bs))) urlencode))
          λ _. given λ _.
            write_loop-Writes fuel (suc limit) (drop (suc limit) (b ∷ bs))
              (o + length (take (suc limit) (b ∷ bs))) (shorter limit bs fuel more) enough
    where
      shorter :
          (n : ℕ) (bs : Bytes) (fuel : ℕ) → length (b ∷ bs) < suc fuel → length (drop n bs) < fuel
      shorter zero bs fuel more = omega arith
      shorter (suc n) [] fuel more = omega arith
      shorter (suc n) (x ∷ bs) fuel more =
          let later : length (drop n bs) < fuel = shorter n bs fuel (omega arith) in later

  pub write_at-Writes :
      (bs : Bytes) (o : ℕ)
      → 1 ≤ settings.chunk_size
      → Sure L J h settings (λ n. Unit) (write_at L urlencode bs o)
  unfolding write_at invalidate update
  write_at-Writes bs o enough = chain (this-Sure L J h settings) λ f. given λ facts.
      chain
        (write_loop-Writes (suc (length bs)) f.config.chunk_size bs o (omega arith)
          (subst (λ (c : Config). 1 ≤ c.chunk_size) (sym facts.3) enough))
        λ _. given λ _.
          chain {Q = λ u. IsReady L J h settings}
            (on_modify _ λ s q. record {
              up = q.up;
              opened = q.opened;
              alone = q.alone;
              plain = q.plain;
              same = q.same;
            })
            λ _. on_pure (length bs) λ s q. (q, tt)
