-- ===== src/Client/Raw/Refines.antt =====
-- A raw stream of src/xrd/io/raw.py against a file in memory with a position.
use py_xroot_dclient.Base.Cases.{on_test}
use py_xroot_dclient.Client.Write.Lands.{write_at-Lands}
use py_xroot_dclient.Client.Write.{write_at}
use py_xroot_dclient.Client.Read.Slice.{read_size-Reads}
use py_xroot_dclient.Client.Read.{read_at}
use py_xroot_dclient.Config.{Config}
use py_xroot_dclient.Base.{
  ℕ, Bytes, [], ◌∷◌, ◌+◌, length, ◌≡◌, ◌≤◌, List, Bool, false, ap, ◌∙◌, ◌==◌, refl, true, sym,
  arith, ◌-◌, suc, subst, ltb,
}
use py_xroot_dclient.Base.Int.{pos, negsuc, ℤ}
use py_xroot_dclient.Errors.{Result, ok, err, unsupported_operation, value_error, os_error}
use py_xroot_dclient.Client.Link.{Link}
use py_xroot_dclient.Client.Io.{
  Ends, Triple, pure, ◌>>=◌, ◌>>◌, state, chain, weaken, on_either, on_state, on_pure, given,
  on_raise, modify, on_modify, returned_of, raise,
}
use py_xroot_dclient.Client.File.{Client, Method}
use py_xroot_dclient.Client.File.Carried.{Within, modes_of}
use py_xroot_dclient.Client.Server.{IsReadable, IsWritable, splice, slice}
use py_xroot_dclient.Client.Raw.{
  RawIo, RawMethod, on_file, seek, seek_set, seek_cur, shift_by, readinto, write_next,
  check_readable, check_writable, check_open, is_readable, is_writable, seek_target,
}

-- The contents of a file and a position in it.
abbrev pub Plain : Type 0
Plain = Bytes × ℕ

-- What a program does with a stream: it seeks to an offset (SEEK_SET) or by one (SEEK_CUR), reads
-- into a buffer, or writes; what it writes is not empty.
pub data Op : Type 0 where
  seek_to : ℕ → Op
  seek_by : ℤ → Op
  read_next : ℕ → Op
  write_bytes : ℕ → Bytes → Op

-- What a plain file does.
abbrev pub after_op : Op → Plain → Bytes × Plain
after_op (seek_to n) (c, at) = ([], (c, n))
after_op (seek_by (pos n)) (c, at) = ([], (c, at + n))
after_op (seek_by (negsuc n)) (c, at) = ([], (c, at - suc n))
after_op (read_next n) (c, at) = (slice at n c, (c, at + length (slice at n c)))
after_op (write_bytes b bs) (c, at) = ([], (splice at (b ∷ bs) c, at + length (b ∷ bs)))

abbrev pub after_ops : List Op → Plain → List Bytes × Plain
after_ops [] f = ([], f)
after_ops (op ∷ ops) f =
    let first = after_op op f in let later = after_ops ops first.1 in (first.0 ∷ later.0, later.1)

module _ (L : Link) (urlencode : List (Bytes × Bytes) → Bytes) where
  -- The same on a stream.
  abbrev pub perform : Op → RawMethod L urlencode Bytes
  perform (seek_to n) = do seek L urlencode (pos n) seek_set; pure []
  perform (seek_by z) = do seek L urlencode z seek_cur; pure []
  perform (read_next n) = readinto L urlencode n
  perform (write_bytes b bs) = do write_next L urlencode (b ∷ bs); pure []

  unfoldable pub perform_all : List Op → RawMethod L urlencode (List Bytes)
  perform_all [] = pure []
  perform_all (op ∷ ops) = do first ← perform op; later ← perform_all ops; pure (first ∷ later)

  module _ (contents : L.Net → Bytes) (R : IsReadable L contents) (W : IsWritable L contents)
      (modes : ℕ × Bool × Config) (enough : 1 ≤ modes.2.chunk_size) (plain : modes.1 ≡ false) where
    -- A stream that is where the plain file is.
    abbrev Like : Plain → RawIo L → Type 0
    Like f s = Within L modes (λ n. contents n ≡ f.0) s.client × (s.at ≡ f.1)

    on_file-Like :
        {A : Type 0} (c : Bytes) (at : ℕ) (m : Method L A) (Q : A → L.Net → Type 0)
        → Triple (Within L modes (λ n. contents n ≡ c)) m (λ a. Within L modes (Q a)) (λ e s. Unit)
        → Triple
            (Like (c, at))
            (on_file L urlencode m)
            (λ a s. Within L modes (Q a) s.client × (s.at ≡ at))
            (λ e s. Unit)
    unfolding on_file
    on_file-Like {A} c at m Q t = record {
      ends = λ s q. moved s (m s.client) q.1 (t.ends s.client q.0);
    }
      where
        moved :
            (s : RawIo L) (out : Result A × Client L)
            → s.at ≡ at
            → Ends (λ a. Within L modes (Q a)) (λ e s. Unit) out
            → Ends
                (λ a (u : RawIo L). Within L modes (Q a) u.client × (u.at ≡ at))
                (λ e s. Unit)
                (out.0, record s { client = out.1 })
        moved s (ok a, d) e q = (q, e)
        moved s (err x, d) e q = tt

    check-Like :
        (f : Plain)
        → Triple (Like f) (check_readable L urlencode) (λ u. Like f) (λ e s. Unit)
          × Triple (Like f) (check_writable L urlencode) (λ u. Like f) (λ e s. Unit)
    unfolding check_readable check_writable check_open
    check-Like f = (
      chain check λ _. chain on_state λ t.
          on_either (is_readable t.mode) (λ _. on_pure tt λ s q. q.0)
            (λ _. on_raise unsupported_operation λ s q. tt),
      chain check λ _. chain on_state λ t.
          on_either (is_writable t.mode) (λ _. on_pure tt λ s q. q.0)
            (λ _. on_raise unsupported_operation λ s q. tt),
    )
      where
        check : Triple (Like f) (check_open L urlencode) (λ u. Like f) (λ e s. Unit)
        check = chain on_state λ t.
            on_either t.closed (λ _. on_raise value_error λ s q. tt) (λ _. on_pure tt λ s q. q.0)

    state-Like : (f : Plain) → Triple (Like f) state (λ t s. Like f s × (t.at ≡ f.1)) (λ e s. Unit)
    state-Like f =
        weaken (λ t s q. (q.0, ap (λ (u : RawIo L). u.at) q.1 ∙ q.0.1)) (λ e s q. tt)
          (on_state {E = λ e s. Unit})

    abbrev Follows : {A : Type 0} → Plain → RawMethod L urlencode A → A → Plain → Type 0
    Follows f m a g = Triple (Like f) m (λ b s. (b ≡ a) × Like g s) (λ e s. Unit)

    reading-Follows :
        (n : ℕ) (c : Bytes) (at k : ℕ)
        → k ≡ at
        → Follows
            (c, at)
            (on_file L urlencode (read_at L urlencode (pos n) k) >>= λ body.
              modify (λ t. record t { at = t.at + length body }) >> pure body)
            (slice at n c)
            (c, at + length (slice at n c))
    unfolding read_at
    reading-Follows n c at k e =
        chain
          (on_file-Like c at (read_at L urlencode (pos n) k)
            (λ d m. (contents m ≡ c) × (d ≡ slice k n c))
            (weaken (λ d s q. q) (λ x s q. tt)
              (read_size-Reads L urlencode contents R modes c n k)))
          λ d.
            chain {Q = λ u s. (d ≡ slice at n c) × Like (c, at + length d) s}
              (on_modify _ λ s q. (
                q.0.0.1 ∙ ap (λ (j : ℕ). slice j n c) e,
                ((q.0.0.0, q.0.1), ap (λ (j : ℕ). j + length d) q.1),
              ))
              λ _. on_pure d λ s q. (q.0, (q.1.0, q.1.1 ∙ ap (λ (b : Bytes). at + length b) q.0))

    slice_none : (n at : ℕ) (c : Bytes) → (n == 0) ≡ true → slice at n c ≡ []
    slice_none n at c z = let e : n ≡ 0 = ground arith in ap (λ (j : ℕ). slice at j c) e

    readinto-Follows :
        (n : ℕ) (c : Bytes) (at : ℕ)
        → Follows (c, at) (readinto L urlencode n) (slice at n c) (c, at + length (slice at n c))
    unfolding readinto
    readinto-Follows n c at = chain (check-Like (c, at)).0 λ _.
        on_either (n == 0)
          (λ z. on_pure [] λ s q. (
            sym (slice_none n at c z),
            (q.0, q.1 ∙ omega (arith, ap length (slice_none n at c z))),
          ))
          (λ _. chain (state-Like (c, at)) λ t. given λ e. reading-Follows n c at t.at e)

    writing-Follows :
        (b : ℕ) (bs c : Bytes) (at k : ℕ)
        → k ≡ at
        → Follows
            (c, at)
            (on_file L urlencode (write_at L urlencode (b ∷ bs) k) >>= λ written.
              modify (λ t. record t { at = t.at + written }) >> pure written)
            (length (b ∷ bs))
            (splice at (b ∷ bs) c, at + length (b ∷ bs))
    writing-Follows b bs c at k e =
        chain
          (on_file-Like c at (write_at L urlencode (b ∷ bs) k)
            (λ w m. (w ≡ length (b ∷ bs)) × (contents m ≡ splice k (b ∷ bs) c))
            (write_at-Lands L urlencode contents R W modes c b bs k enough plain))
          λ w.
            chain {Q = λ u s. (w ≡ length (b ∷ bs)) × Like (splice at (b ∷ bs) c, at + w) s}
              (on_modify _ λ s q. (
                q.0.0.0,
                (
                  (q.0.0.1 ∙ ap (λ (j : ℕ). splice j (b ∷ bs) c) e, q.0.1),
                  ap (λ (j : ℕ). j + w) q.1,
                ),
              ))
              λ _. on_pure w λ s q. (q.0, (q.1.0, q.1.1 ∙ ap (λ (j : ℕ). at + j) q.0))

    write_next-Follows :
        (b : ℕ) (bs c : Bytes) (at : ℕ)
        → Follows
            (c, at)
            (write_next L urlencode (b ∷ bs))
            (length (b ∷ bs))
            (splice at (b ∷ bs) c, at + length (b ∷ bs))
    unfolding write_next
    write_next-Follows b bs c at =
        chain (check-Like (c, at)).1
          λ _. chain (state-Like (c, at)) λ t. given λ e. writing-Follows b bs c at t.at e

    seek-Follows :
        (n : ℕ) (c : Bytes) (at : ℕ) → Follows (c, at) (seek L urlencode (pos n) seek_set) n (c, n)
    unfolding seek seek_target ◌>>=◌ pure modify
    seek-Follows n c at = record { ends = λ s q. (refl, (q.0, refl)) }

    pos-injective : (a b : ℕ) → pos a ≡ pos b → a ≡ b
    pos-injective a b e = cc

    back : (at n k : ℕ) → shift_by (pos at) (negsuc n) ≡ pos k → at - suc n ≡ k
    back at n k =
        on_test (λ (z : ℤ). z ≡ pos k → at - suc n ≡ k) (ltb n at) (λ _ e. pos-injective _ _ e)
          (λ _ e. absurd (cc))

    nothing : (z : ℤ) (c : Bytes) (at : ℕ) → [] ≡ (after_op (seek_by z) (c, at)).0
    nothing (pos n) c at = refl
    nothing (negsuc n) c at = refl

    landed :
        (c : Bytes) (at k : ℕ) (z : ℤ)
        → shift_by (pos at) z ≡ pos k
        → (after_op (seek_by z) (c, at)).1 ≡ (c, k)
    landed c at k (pos n) e = ap (λ (j : ℕ). (c, j)) (pos-injective _ _ e)
    landed c at k (negsuc n) e = ap (λ (j : ℕ). (c, j)) (back at n k e)

    seek_by-Follows :
        (z : ℤ) (c : Bytes) (at : ℕ)
        → Triple
            (Like (c, at))
            (seek L urlencode z seek_cur)
            (λ k. Like (after_op (seek_by z) (c, at)).1)
            (λ e s. Unit)
    unfolding seek seek_target
    seek_by-Follows z c at =
        chain {Q = λ (t : ℤ) s. Like (c, at) s × (t ≡ shift_by (pos at) z)}
          (chain (state-Like (c, at)) λ t.
            given λ (e : t.at ≡ at). on_pure _ λ s q. (q, ap (λ (j : ℕ). shift_by (pos j) z) e))
          λ t. given λ e. placed t e
      where
        placed :
            (t : ℤ)
            → t ≡ shift_by (pos at) z
            → Triple {A = ℕ}
                (Like (c, at))
                (elim t [
                  | negsuc n ↦ raise os_error
                  | pos n ↦ do modify (λ s. record s { at = n }); pure n
                ])
                (λ k. Like (after_op (seek_by z) (c, at)).1)
                (λ e s. Unit)
        placed (negsuc n) e = on_raise os_error λ s q. tt
        placed (pos n) e =
            chain {Q = λ u. Like (after_op (seek_by z) (c, at)).1}
              (on_modify _ λ s q.
                subst (λ (f : Plain). Like f (record s { at = n })) (sym (landed c at n z (sym e)))
                  (q.0, refl))
              λ u. on_pure n λ s q. q

    perform-Follows :
        (op : Op) (f : Plain) → Follows f (perform op) (after_op op f).0 (after_op op f).1
    perform-Follows (seek_to n) (c, at) =
        chain (seek-Follows n c at) λ k. on_pure [] λ s q. (refl, q.1)
    perform-Follows (seek_by z) (c, at) =
        chain (seek_by-Follows z c at) λ k. on_pure [] λ s q. (nothing z c at, q)
    perform-Follows (read_next n) (c, at) = readinto-Follows n c at
    perform-Follows (write_bytes b bs) (c, at) =
        chain (write_next-Follows b bs c at) λ k. on_pure [] λ s q. (refl, q.1)

    perform_all-Follows :
        (ops : List Op) (f : Plain)
        → Follows f (perform_all ops) (after_ops ops f).0 (after_ops ops f).1
    unfolding perform_all
    perform_all-Follows [] f = on_pure [] λ s q. (refl, q)
    perform_all-Follows (op ∷ ops) f = chain (perform-Follows op f) λ first. record {
      ends = λ s q.
          (chain (perform_all-Follows ops (after_op op f).1) λ later. on_pure (first ∷ later) λ t r.
              (
                ap (λ (b : Bytes). b ∷ later) q.0
                    ∙ ap (λ (bs : List Bytes). (after_op op f).0 ∷ bs) r.0,
                r.1,
              )).ends
            s q.1;
    }

-- Any sequence of seeks to an offset and by an offset, reads into a buffer and writes on a stream,
-- that runs to its end, reads what it would read from a plain file with the same contents and
-- position, and leaves the same contents and position; the file is in no checkpoint and its chunks
-- are a byte at least. Seeks from the end and reads to the end are not among them.
pub perform_all-after_ops :
    (L : Link) (urlencode : List (Bytes × Bytes) → Bytes) (contents : L.Net → Bytes)
    → IsReadable L contents
    → IsWritable L contents
    → (s : RawIo L) (ops : List Op) → 1 ≤ s.client.file.config.chunk_size
    → s.client.file.checkpoint ≡ false
    → {out : List Bytes} → (perform_all L urlencode ops s).0 ≡ ok out
    → (out ≡ (after_ops ops (contents s.client.net, s.at)).0)
      × (contents (perform_all L urlencode ops s).1.client.net
          ≡ (after_ops ops (contents s.client.net, s.at)).1.0)
      × ((perform_all L urlencode ops s).1.at ≡ (after_ops ops (contents s.client.net, s.at)).1.1)
perform_all-after_ops L urlencode contents R W s ops enough plain e =
    let run =
      returned_of
        (perform_all-Follows L urlencode contents R W (modes_of s.client.file) enough plain ops
          (contents s.client.net, s.at))
        s ((refl, refl), refl) e in
    (run.0, run.1.0.0, run.1.1)
