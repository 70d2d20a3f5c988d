-- ===== src/Client/Write/Journal.antt =====
-- What a checkpointed write of src/xrd/client/file.py comes to on a server that runs what it is
-- handed as kXR_ckpXeq.
use py_xroot_dclient.Client.Server.Slices.{splice-append}
use mathlib.Core.List.{append-nil}
use mathlib.Core.Path.{ap₂}
use py_xroot_dclient.Crypto.Crc32c.Pages.{pack_pages}
use py_xroot_dclient.Client.Server.{splice}
use py_xroot_dclient.Base.Int.{pos}
use py_xroot_dclient.Client.Io.{
  chain, Triple, Ends, given, on_state, on_pure, on_modify, on_either, on_lift, raise, returned_of,
  on_raise, pure, weaken,
}
use py_xroot_dclient.Client.Write.{
  write_pages, truncate_to, submit_write, invalidate, write_at, write_loop,
}
use py_xroot_dclient.Client.File.{on_router, Method, File, Client, this, the_handle, update}
use py_xroot_dclient.Config.{Config}
use py_xroot_dclient.Client.File.Carried.{Leaves}
use py_xroot_dclient.Errors.{ok, Result, value_error, err, stuck}
use py_xroot_dclient.Proto.Builders.{execute_checkpoint}
use py_xroot_dclient.Proto.Requests.{Request, pgwrite, write, truncate}
use py_xroot_dclient.Client.Link.{Link}
use py_xroot_dclient.Base.{
  refl, List, Bytes, ℕ, ◌≡◌, ◌≤◌, length, some, Option, Bool, true, [], none, ◌∙◌, subst, ◌∷◌, ◌+◌,
  sym, ap, suc, take, drop, ◌++◌, arith, zero, take-append-drop,
}

module _ (L : Link) (contents : L.Net → Bytes) (effect : Request → Bytes → Bytes)
    (runs : (inner outer : Request) (h : Bytes) (r : L.Router) (n : L.Net)
      → execute_checkpoint h inner ≡ ok outer
      → Leaves (λ b m. contents m ≡ effect inner (contents n)) (λ m. Unit) (L.execute r outer n))
    (h : Bytes) (settings : Config) where
  -- An open file in a checkpoint, whose data path was not bound by hand, over these contents.
  pub record IsInside (c : Bytes) (s : Client L) : Type 0 where
    pub holds : contents s.net ≡ c
    pub opened : s.file.handle ≡ some h
    pub inside : s.file.checkpoint ≡ true
    pub unbound : s.file.pathid ≡ 0
    pub same : s.file.config ≡ settings

  abbrev Turns : {A : Type 0} → Bytes → Bytes → Method L A → Type 0
  Turns c d m = Triple (IsInside c) m (λ a. IsInside d) (λ e s. Unit)

  abbrev Facts : File L → Type 0
  Facts f = (f.handle ≡ some h) × (f.checkpoint ≡ true) × (f.pathid ≡ 0) × (f.config ≡ settings)

  this-Facts :
      (c : Bytes) → Triple (IsInside c) (this L) (λ f s. IsInside c s × Facts f) (λ e s. Unit)
  unfolding this
  this-Facts c = chain on_state λ t. on_pure t.file λ s q.
      let e = ap (λ (u : Client L). u.file) q.1 in
      (
        q.0,
        (
          ap (λ (f : File L). f.handle) e ∙ q.0.opened,
          ap (λ (f : File L). f.checkpoint) e ∙ q.0.inside,
          ap (λ (f : File L). f.pathid) e ∙ q.0.unbound,
          ap (λ (f : File L). f.config) e ∙ q.0.same,
        ),
      )

  the_handle-Facts :
      (c : Bytes) → Triple (IsInside c) (the_handle L) (λ k s. IsInside c s × (k ≡ h)) (λ e s. Unit)
  unfolding the_handle
  the_handle-Facts c = chain (this-Facts c) λ f. given λ facts. handle_of f.handle facts.0
    where
      handle_of :
          (o : Option Bytes)
          → o ≡ some h
          → Triple {A = Bytes}
              (IsInside c)
              (elim o [ none ↦ raise value_error | some k ↦ pure k ])
              (λ k s. IsInside c s × (k ≡ h))
              (λ e s. Unit)
      handle_of none e = absurd (cc)
      handle_of (some k) e = on_pure k λ s q. (q, cc)

  outer-Turns :
      (c : Bytes) (k : Bytes) (inner outer : Request)
      → execute_checkpoint k inner ≡ ok outer
      → Turns c (effect inner c) (on_router L (λ r. L.execute r outer))
  unfolding on_router
  outer-Turns c k inner outer e = record {
    ends = λ s q. left s q (L.execute s.file.router outer s.net) (runs inner outer k _ _ e);
  }
    where
      left :
          (s : Client L)
          → IsInside c s
          → (out : Result Bytes × L.Router × L.Net)
          → Leaves (λ b m. contents m ≡ effect inner (contents s.net)) (λ m. Unit) out
          → Ends
              (λ a. IsInside (effect inner c))
              (λ x t. Unit)
              (out.0, record { file = record s.file { router = out.1 }; net = out.2 })
      left s q (ok a, r, n) there = record {
        holds = there ∙ ap (effect inner) q.holds;
        opened = q.opened;
        inside = q.inside;
        unbound = q.unbound;
        same = q.same;
      }
      left s q (err x, r, n) there = tt

  submit_write-Turns :
      (c : Bytes) (inner : Request) → Turns c (effect inner c) (submit_write L inner)
  unfolding submit_write
  submit_write-Turns c inner = chain (this-Facts c) λ f. given λ facts.
      on_either f.checkpoint
        (λ _. chain (the_handle-Facts c) λ k. given λ _.
          chain {Q = λ outer s. IsInside c s × (execute_checkpoint k inner ≡ ok outer)}
            (on_lift (execute_checkpoint k inner) (λ outer s q e. (q, e)) (λ x s q e. tt))
            λ outer. given λ e. outer-Turns c k inner outer e)
        (λ out. let in_it = facts.1 in absurd (cc))

  invalidate-Turns : (c : Bytes) (n : ℕ) (exact : Bool) → Turns c c (invalidate L n exact)
  unfolding invalidate update
  invalidate-Turns c n exact = on_modify _ λ s q. record {
    holds = q.holds;
    opened = q.opened;
    inside = q.inside;
    unbound = q.unbound;
    same = q.same;
  }

  write_pages-Turns :
      (crc : Bytes → ℕ) (b : ℕ) (bs c : Bytes) (o : ℕ)
      → Turns c
          (effect (pgwrite h (pos o) (pack_pages crc (b ∷ bs) o) 0 0) c)
          (write_pages L crc (b ∷ bs) o)
  unfolding write_pages
  write_pages-Turns crc b bs c o = chain (the_handle-Facts c) λ k. given λ same_handle.
      chain (this-Facts c) λ f. given λ facts.
        chain
          (subst
            (λ (x : Bytes × ℕ).
              Turns c (effect (pgwrite h (pos o) (pack_pages crc (b ∷ bs) o) 0 0) c)
                (submit_write L (pgwrite x.0 (pos o) (pack_pages crc (b ∷ bs) o) 0 x.1)))
            (ap₂ (λ (x : Bytes) (p : ℕ). (x, p)) (sym same_handle) (sym facts.2))
            (submit_write-Turns c _))
          λ _. chain (invalidate-Turns _ _ _) λ _. on_pure _ λ s q. q

  truncate_to-Turns :
      (c : Bytes) (n : ℕ) → Turns c (effect (truncate [] (pos n) h) c) (truncate_to L n)
  unfolding truncate_to
  truncate_to-Turns c n = chain (the_handle-Facts c) λ k. given λ same_handle.
      chain
        (subst
          (λ (x : Bytes).
            Turns c (effect (truncate [] (pos n) h) c) (submit_write L (truncate [] (pos n) x)))
          (sym same_handle) (submit_write-Turns c _))
        λ _. chain (invalidate-Turns _ _ _) λ _. on_pure _ λ s q. q

  module _
      (writes : (k : Bytes) (o : ℕ) (bs c : Bytes)
        → 1 ≤ length bs
        → effect (write k (pos o) bs 0) c ≡ splice o bs c)
      (urlencode : List (Bytes × Bytes) → Bytes) where
    abbrev Through : ℕ → Bytes → Bytes → Client L → Type 0
    Through o [] c s = IsInside c s
    Through o (b ∷ bs) c s = IsInside (splice o (b ∷ bs) c) s

    piece-Turns :
        (k : Bytes) (o : ℕ) (bs c : Bytes) (p : ℕ)
        → p ≡ 0
        → 1 ≤ length bs
        → Turns c (splice o bs c) (submit_write L (write k (pos o) bs p))
    piece-Turns k o bs c p e some_bytes =
        subst (λ (q : ℕ). Turns c (splice o bs c) (submit_write L (write k (pos o) bs q))) (sym e)
          (subst (λ (d : Bytes). Turns c d (submit_write L (write k (pos o) bs 0)))
            (writes k o bs c some_bytes) (submit_write-Turns c _))

    Through-rest :
        (o limit b : ℕ) (bs c : Bytes) (s : Client L)
        → Through
            (o + length (take limit (b ∷ bs)))
            (drop limit (b ∷ bs))
            (splice o (take limit (b ∷ bs)) c)
            s
        → IsInside (splice o (b ∷ bs) c) s
    Through-rest o limit b bs c s h =
        subst (λ (xs : Bytes). IsInside (splice o xs c) s) (take-append-drop limit (b ∷ bs))
          (put_together (take limit (b ∷ bs)) (drop limit (b ∷ bs)) h)
      where
        put_together :
            (piece later : Bytes)
            → Through (o + length piece) later (splice o piece c) s
            → IsInside (splice o (piece ++ later) c) s
        put_together piece [] h =
            subst (λ (xs : Bytes). IsInside (splice o xs c) s) (sym (append-nil piece)) h
        put_together piece (x ∷ later) h =
            subst (λ (d : Bytes). IsInside d s) (splice-append o piece (x ∷ later) c) h

    write_loop-Turns :
        (fuel limit o : ℕ) (bs c : Bytes)
        → 1 ≤ limit
        → Triple
            (IsInside c)
            (write_loop L urlencode fuel limit bs o)
            (λ u. Through o bs c)
            (λ e s. Unit)
    unfolding write_loop
    write_loop-Turns zero limit o bs c enough = on_raise stuck λ s q. tt
    write_loop-Turns (suc fuel) limit o [] c enough = on_pure tt λ s q. q
    write_loop-Turns (suc fuel) zero o (b ∷ bs) c enough = absurd (omega arith)
    write_loop-Turns (suc fuel) (suc limit) o (b ∷ bs) c enough =
        let piece = take (suc limit) (b ∷ bs) in
        weaken (λ u s q. Through-rest o (suc limit) b bs c s q) (λ e s q. tt)
          (chain (this-Facts c) λ f. given λ facts.
            chain
              (on_either f.checkpoint
                (λ _.
                  chain (the_handle-Facts c)
                    λ k. given λ _. piece-Turns k o piece c f.pathid facts.2 (omega arith))
                (λ out. let in_it = facts.1 in absurd (cc)))
              λ _.
                write_loop-Turns fuel (suc limit) (o + length piece) (drop (suc limit) (b ∷ bs))
                  (splice o piece c) enough)

    write_at-Turns :
        (o b : ℕ) (bs c : Bytes)
        → 1 ≤ settings.chunk_size
        → Turns c (splice o (b ∷ bs) c) (write_at L urlencode (b ∷ bs) o)
    unfolding write_at
    write_at-Turns o b bs c enough = chain (this-Facts c) λ f. given λ facts.
        chain
          (write_loop-Turns (suc (length (b ∷ bs))) f.config.chunk_size o (b ∷ bs) c
            (subst (λ (x : Config). 1 ≤ x.chunk_size) (sym facts.3) enough))
          λ _. chain (invalidate-Turns _ _ _) λ _. on_pure _ λ s q. q

-- A write, a page write or a truncation; what is written is not empty.
pub data Change : Type 0 where
  by_write by_pages : ℕ → Bytes → ℕ → Change
  by_truncate : ℕ → Change

module _ (L : Link) (urlencode : List (Bytes × Bytes) → Bytes) (crc : Bytes → ℕ) where
  abbrev pub make : Change → Method L ℕ
  make (by_write b bs o) = write_at L urlencode (b ∷ bs) o
  make (by_pages b bs o) = write_pages L crc (b ∷ bs) o
  make (by_truncate n) = truncate_to L n

  -- What the contents are afterwards, by what the server does for one request.
  abbrev pub made : (Request → Bytes → Bytes) → Bytes → Change → Bytes → Bytes
  made effect h (by_write b bs o) = splice o (b ∷ bs)
  made effect h (by_pages b bs o) = effect (pgwrite h (pos o) (pack_pages crc (b ∷ bs) o) 0 0)
  made effect h (by_truncate n) = effect (truncate [] (pos n) h)

-- In a checkpoint, on a server that runs what it is handed as kXR_ckpXeq, and of which nothing else
-- is known: a write that returns has put all its bytes at its offset and has done nothing else, and
-- a page write or a truncation that returns has had the effect of its one request. The file has the
-- handle, its data path was not bound by hand, and a chunk is a byte at least.
pub checkpointed_lands :
    (L : Link) (urlencode : List (Bytes × Bytes) → Bytes) (crc : Bytes → ℕ)
    (contents : L.Net → Bytes) (effect : Request → Bytes → Bytes)
    → ((inner outer : Request) (h : Bytes) (r : L.Router) (n : L.Net)
        → execute_checkpoint h inner ≡ ok outer
        → Leaves (λ b m. contents m ≡ effect inner (contents n)) (λ m. Unit) (L.execute r outer n))
    → ((k : Bytes) (o : ℕ) (bs c : Bytes)
        → 1 ≤ length bs
        → effect (write k (pos o) bs 0) c ≡ splice o bs c)
    → (s : Client L) (h : Bytes) → s.file.handle ≡ some h
    → s.file.checkpoint ≡ true
    → s.file.pathid ≡ 0
    → 1 ≤ s.file.config.chunk_size
    → (change : Change) (n : ℕ) → (make L urlencode crc change s).0 ≡ ok n
    → contents (make L urlencode crc change s).1.net
      ≡ made L urlencode crc effect h change (contents s.net)
checkpointed_lands L urlencode crc contents effect runs writes s h there inside free enough w k e =
    (returned_of (lands w) s
      (record { holds = refl; opened = there; inside = inside; unbound = free; same = refl })
      e).holds
  where
    lands :
        (w : Change)
        → Turns L contents effect runs h s.file.config
            (contents s.net)
            (made L urlencode crc effect h w (contents s.net))
            (make L urlencode crc w)
    lands (by_write b bs o) =
        write_at-Turns L contents effect runs h s.file.config writes urlencode o b bs
          (contents s.net) enough
    lands (by_pages b bs o) =
        write_pages-Turns L contents effect runs h s.file.config crc b bs (contents s.net) o
    lands (by_truncate n) =
        truncate_to-Turns L contents effect runs h s.file.config (contents s.net) n
