-- ===== src/Client/Write/Lands.antt =====
-- What `write` of src/xrd/client/file.py leaves on a server that can be written.
use py_xroot_dclient.Config.{Config}
use mathlib.Core.List.{append-nil}
use py_xroot_dclient.Base.{
  ℕ, Bytes, [], ◌∷◌, zero, suc, ◌+◌, ◌++◌, take, drop, length, ◌≡◌, refl, sym, ap, ◌∙◌, arith, ◌≤◌,
  List, subst, Bool, false, take-append-drop,
}
use py_xroot_dclient.Base.Int.{pos}
use py_xroot_dclient.Errors.{Result, ok, err, stuck}
use py_xroot_dclient.Proto.Requests.{write}
use py_xroot_dclient.Client.Link.{Link}
use py_xroot_dclient.Client.Io.{
  Triple, chain, on_pure, on_raise, on_modify, on_either, given, weaken, before, returned_of,
}
use py_xroot_dclient.Client.File.{Client, Method, update}
use py_xroot_dclient.Client.File.Carried.{Carries, Within, Leaves, bulk-Runs, this-Keeps, modes_of}
use py_xroot_dclient.Client.Server.{IsReadable, IsWritable, Still, Tried, splice}
use py_xroot_dclient.Client.Server.Slices.{splice-append}
use py_xroot_dclient.Client.Write.{write_loop, write_at, invalidate}

module _ {N : Type 0} (contents : N → Bytes) where
  -- What the contents are once all bytes left were written, none of them included.
  abbrev pub Written : ℕ → Bytes → Bytes → N → Type 0
  Written o [] c m = contents m ≡ c
  Written o (b ∷ bs) c m = contents m ≡ splice o (b ∷ bs) c

  pub Written-rest :
      (o limit : ℕ) (b : ℕ) (bs c : Bytes) (m : N)
      → Written
          (o + length (take limit (b ∷ bs)))
          (drop limit (b ∷ bs))
          (splice o (take limit (b ∷ bs)) c)
          m
      → contents m ≡ splice o (b ∷ bs) c
  Written-rest o limit b bs c m h =
      joined (take limit (b ∷ bs)) (drop limit (b ∷ bs)) h
      ∙ ap (λ (xs : Bytes). splice o xs c) (take-append-drop limit (b ∷ bs))
    where
      joined :
          (piece later : Bytes)
          → Written (o + length piece) later (splice o piece c) m
          → contents m ≡ splice o (piece ++ later) c
      joined piece [] h = h ∙ ap (λ (xs : Bytes). splice o xs c) (sym (append-nil piece))
      joined piece (x ∷ later) h = h ∙ splice-append o piece (x ∷ later) c

module _ (L : Link) (urlencode : List (Bytes × Bytes) → Bytes) (contents : L.Net → Bytes)
    (R : IsReadable L contents) (W : IsWritable L contents) (modes : ℕ × Bool × Config) where
  module _ (c : Bytes) (o : ℕ) (bs : Bytes) (some_bytes : 1 ≤ length bs) where
    Leaves-Tried :
        {A : Type 0} (n : L.Net) (out : Result A × L.Router × L.Net)
        → Tried contents o bs c n
        → Still contents n out
        → Leaves (λ a. Tried contents o bs c) (Tried contents o bs c) out
    Leaves-Tried n (ok a, r, m) e s = ap (splice o bs) s ∙ e
    Leaves-Tried n (err x, r, m) e s = ap (splice o bs) s ∙ e

    Leaves-Landed :
        (n : L.Net) (out : Result Bytes × L.Router × L.Net)
        → Tried contents o bs c n
        → Leaves
            (λ d m. contents m ≡ splice o bs (contents n))
            (Tried contents o bs (contents n))
            out
        → Leaves (λ d m. contents m ≡ splice o bs c) (Tried contents o bs c) out
    Leaves-Landed n (ok d, r, m) e s = s ∙ e
    Leaves-Landed n (err x, r, m) e s = s ∙ e

    carries :
        Carries L modes.0
          (λ h p. write h (pos o) bs p)
          (Tried contents o bs c)
          (λ d m. contents m ≡ splice o bs c)
    carries = record {
      routed = λ r h p n e. Leaves-Landed n _ e (W.writes r h o bs p n some_bytes);
      sent = λ r h p n e. Leaves-Landed n _ e (W.writes_sent r h o bs p n some_bytes);
      arrives = λ r n e. Leaves-Tried n _ e (R.arrives r n);
      binds = λ r n e. Leaves-Tried n _ e (R.binds r n);
      discards = λ r n e. ap (splice o bs) (R.discards r n) ∙ e;
      opens = λ reading r path mode n e. Leaves-Tried n _ e (R.opens modes.0 reading r path mode n);
    }

  abbrev Lands : ℕ → Bytes → Bytes → Method L (Unit {0}) → Type 0
  Lands o bs c m =
      Triple (Within L modes (λ n. contents n ≡ c)) m
        (λ u. Within L modes (Written contents o bs c)) (λ e s. Unit)

  write_loop-Lands :
      (fuel limit o : ℕ) (bs c : Bytes)
      → 1 ≤ limit
      → modes.1 ≡ false
      → Lands o bs c (write_loop L urlencode fuel limit bs o)
  unfolding write_loop
  write_loop-Lands zero limit o bs c enough plain = on_raise stuck λ s q. tt
  write_loop-Lands (suc fuel) limit o [] c enough plain = on_pure tt λ s q. q
  write_loop-Lands (suc fuel) zero o (b ∷ bs) c enough plain = absurd (omega arith)
  write_loop-Lands (suc fuel) (suc limit) o (b ∷ bs) c enough plain =
      let piece = take (suc limit) (b ∷ bs) in
      weaken (λ u s q. (Written-rest contents o (suc limit) b bs c s.net q.0, q.1)) (λ e s q. tt)
        (chain (this-Keeps L modes (λ n. contents n ≡ c)) λ f. given λ e.
          chain
            (on_either f.checkpoint
              (λ inside.
                let h : f.checkpoint ≡ modes.1 = ap (λ (m : ℕ × Bool × Config). m.1) e in
                absurd (cc))
              (λ _.
                before {P = Within L modes (Tried contents o piece c)}
                  (λ s q. (ap (splice o piece) q.0, q.1))
                  (weaken (λ d s q. q) (λ x s q. tt)
                    (bulk-Runs L modes (λ h p. write h (pos o) piece p) (Tried contents o piece c)
                      (λ d m. contents m ≡ splice o piece c) (carries c o piece (omega arith))
                      urlencode))))
            λ _.
              write_loop-Lands fuel (suc limit) (o + length piece) (drop (suc limit) (b ∷ bs))
                (splice o piece c) enough plain)

  pub write_at-Lands :
      (c : Bytes) (b : ℕ) (bs : Bytes) (o : ℕ)
      → 1 ≤ modes.2.chunk_size
      → modes.1 ≡ false
      → Triple
          (Within L modes (λ n. contents n ≡ c))
          (write_at L urlencode (b ∷ bs) o)
          (λ k. Within L modes (λ n. (k ≡ length (b ∷ bs)) × (contents n ≡ splice o (b ∷ bs) c)))
          (λ e s. Unit)
  unfolding write_at invalidate update
  write_at-Lands c b bs o enough plain = chain (this-Keeps L modes (λ n. contents n ≡ c)) λ f.
      given λ e.
        chain
          (write_loop-Lands (suc (length (b ∷ bs))) f.config.chunk_size o (b ∷ bs) c
            (subst (λ (m : ℕ × Bool × Config). 1 ≤ m.2.chunk_size) (sym e) enough) plain)
          λ _.
            chain {Q = λ u. Within L modes (λ n. contents n ≡ splice o (b ∷ bs) c)}
              (on_modify _ λ s q. q) λ _. on_pure _ λ s q. ((refl, q.0), q.1)

-- Outside a checkpoint, and where a chunk is a byte at least, a write that returns has written all
-- bytes at its offset and nothing else, and returns how many, over data paths or on the control
-- link, and whatever was tried before; a failed attempt may have written part of its chunk.
pub write_at_lem :
    (L : Link) (urlencode : List (Bytes × Bytes) → Bytes) (contents : L.Net → Bytes)
    → IsReadable L contents
    → IsWritable L contents
    → (c : Client L) (b : ℕ) (bs : Bytes) (offset : ℕ) → 1 ≤ c.file.config.chunk_size
    → c.file.checkpoint ≡ false
    → {n : ℕ} → (write_at L urlencode (b ∷ bs) offset c).0 ≡ ok n
    → (n ≡ length (b ∷ bs))
      × (contents (write_at L urlencode (b ∷ bs) offset c).1.net
          ≡ splice offset (b ∷ bs) (contents c.net))
write_at_lem L urlencode contents R W c b bs offset enough plain e =
    let run =
      returned_of
        (write_at-Lands L urlencode contents R W (modes_of c.file) (contents c.net) b bs offset
          enough plain)
        c (refl, refl) e in
    run.0
