-- ===== src/Client/Raw/Returns.antt =====
-- A stream of src/xrd/io/raw.py on a connection that answers: what is done with it comes to its
-- end, and no exception is raised.
use py_xroot_dclient.Config.{Config}
use py_xroot_dclient.Base.{
  ℕ, Bytes, [], ◌∷◌, ◌≡◌, ◌≤◌, ap, ◌∙◌, List, ◌==◌, length, true, false, All,
}
use py_xroot_dclient.Base.Int.{pos, negsuc}
use py_xroot_dclient.Errors.{Result, ok, err}
use py_xroot_dclient.Proto.Requests.{read, write}
use py_xroot_dclient.Client.Link.{Link}
use py_xroot_dclient.Client.Io.{
  Triple, Ends, chain, on_pure, on_modify, on_either, given, sure_of, ◌>>=◌, pure, modify, state,
}
use py_xroot_dclient.Client.File.{Client, Method}
use py_xroot_dclient.Client.File.Answered.{IsReady, Returned, Sure}
use py_xroot_dclient.Client.Read.Returns.{read_at-Reads}
use py_xroot_dclient.Client.Write.Returns.{write_at-Writes}
use py_xroot_dclient.Client.Server.{IsReadable, IsWritable}
use py_xroot_dclient.Client.Raw.{
  RawIo, RawMethod, on_file, seek, seek_set, readinto, write_next, check_readable, check_writable,
  check_open, is_readable, is_writable, seek_target, seek_cur,
}
use py_xroot_dclient.Client.Raw.Refines.{
  Op, seek_to, seek_by, read_next, write_bytes, perform, perform_all, after_ops,
  perform_all-after_ops,
}

-- No seek goes back from the position, which might lead before the start.
abbrev pub IsForward : Op → Type 0
IsForward (seek_by (negsuc n)) = ⊥
IsForward _ = Unit {0}

module _ (L : Link) (urlencode : List (Bytes × Bytes) → Bytes) (J : L.Router → L.Net → Type 0)
    (h : Bytes) (settings : Config) where
  -- An open stream to read and to write, on a file that is ready.
  pub record IsUsable (s : RawIo L) : Type 0 where
    pub ready : IsReady L J h settings s.client
    pub still_open : s.closed ≡ false
    pub reading : is_readable s.mode ≡ true
    pub writing : is_writable s.mode ≡ true

  abbrev Works : {A : Type 0} → RawMethod L urlencode A → Type 0
  Works m = Triple IsUsable m (λ a. IsUsable) (λ e s. ⊥)

  on_file-Works :
      {A : Type 0} {Q : A → Type 0} {m : Method L A}
      → Sure L J h settings Q m
      → Works (on_file L urlencode m)
  unfolding on_file
  on_file-Works {A} {Q} {m} sure = record {
    ends = λ s u. left s u (m s.client) (sure.ends _ u.ready);
  }
    where
      left :
          (s : RawIo L)
          → IsUsable s
          → (out : Result A × Client L)
          → Ends (λ a c. IsReady L J h settings c × Q a) (λ e c. ⊥) out
          → Ends (λ a. IsUsable) (λ e t. ⊥) (out.0, record s { client = out.1 })
      left s u (ok a, c) q = record {
        ready = q.0;
        still_open = u.still_open;
        reading = u.reading;
        writing = u.writing;
      }
      left s u (err e, c) q = absurd q

  -- The stream that is read is the one that is usable.
  state-Works : Triple IsUsable state (λ t s. IsUsable s × IsUsable t) (λ e s. ⊥)
  unfolding state
  state-Works = record { ends = λ s u. (u, u) }

  check_open-Works : Works (check_open L urlencode)
  unfolding check_open
  check_open-Works = chain state-Works λ t. given λ u.
      on_either t.closed (λ closed. let e = u.still_open in absurd (cc)) (λ _. on_pure tt λ s q. q)

  check_readable-Works : Works (check_readable L urlencode)
  unfolding check_readable
  check_readable-Works = chain check_open-Works λ _. chain state-Works λ t. given λ u.
      on_either (is_readable t.mode) (λ _. on_pure tt λ s q. q)
        (λ no. let e = u.reading in absurd (cc))

  check_writable-Works : Works (check_writable L urlencode)
  unfolding check_writable
  check_writable-Works = chain check_open-Works λ _. chain state-Works λ t. given λ u.
      on_either (is_writable t.mode) (λ _. on_pure tt λ s q. q)
        (λ no. let e = u.writing in absurd (cc))

  -- Only the position changes.
  move-Works : (f : RawIo L → ℕ) → Works (modify λ t. record t { at = f t })
  move-Works f = on_modify _ λ s u. record {
    ready = u.ready;
    still_open = u.still_open;
    reading = u.reading;
    writing = u.writing;
  }

  module _
      (reads : (o k : ℕ) (r : L.Router) (p : ℕ) (n : L.Net)
        → J r n
        → Returned (λ (d : Bytes). length d ≤ k) J (L.execute r (read h (pos o) (pos k) p) n))
      (writes : (o : ℕ) (bs : Bytes) (r : L.Router) (p : ℕ) (n : L.Net)
        → J r n
        → Returned (λ (d : Bytes). Unit) J (L.execute r (write h (pos o) bs p) n))
      (enough : 1 ≤ settings.chunk_size) where
    readinto-Works : (n : ℕ) → Works (readinto L urlencode n)
    unfolding readinto
    readinto-Works n = chain check_readable-Works λ _.
        on_either (n == 0) (λ _. on_pure [] λ s q. q)
          λ _. chain state-Works λ t. given λ _.
            chain (on_file-Works (read_at-Reads L J h settings urlencode reads n t.at enough))
              λ body. chain (move-Works _) λ _. on_pure body λ s q. q

    write_next-Works : (b : ℕ) (bs : Bytes) → Works (write_next L urlencode (b ∷ bs))
    unfolding write_next
    write_next-Works b bs = chain check_writable-Works λ _. chain state-Works λ t. given λ _.
        chain (on_file-Works (write_at-Writes L J h settings urlencode writes (b ∷ bs) t.at enough))
          λ n. chain (move-Works _) λ _. on_pure n λ s q. q

    seek-Works : (n : ℕ) → Works (seek L urlencode (pos n) seek_set)
    unfolding seek seek_target ◌>>=◌ pure
    seek-Works n = chain (move-Works (λ s. n)) λ _. on_pure n λ s q. q

    seek_by-Works : (n : ℕ) → Works (seek L urlencode (pos n) seek_cur)
    unfolding seek seek_target ◌>>=◌ pure modify state
    seek_by-Works n = record {
      ends = λ s u. record {
        ready = u.ready;
        still_open = u.still_open;
        reading = u.reading;
        writing = u.writing;
      };
    }

    perform-Works : (op : Op) → IsForward op → Works (perform L urlencode op)
    perform-Works (seek_to n) _ = chain (seek-Works n) λ _. on_pure [] λ s q. q
    perform-Works (seek_by (pos n)) _ = chain (seek_by-Works n) λ _. on_pure [] λ s q. q
    perform-Works (seek_by (negsuc n)) back = absurd back
    perform-Works (read_next n) _ = readinto-Works n
    perform-Works (write_bytes b bs) _ = chain (write_next-Works b bs) λ _. on_pure [] λ s q. q

    pub perform_all-Works :
        (ops : List Op) → All IsForward ops → Works (perform_all L urlencode ops)
    unfolding perform_all
    perform_all-Works [] _ = on_pure [] λ s q. q
    perform_all-Works (op ∷ ops) (h, hs) =
        chain (perform-Works op h)
          λ first. chain (perform_all-Works ops hs) λ later. on_pure (first ∷ later) λ s q. q

-- On a connection that answers every read and write on the handle of a file, any sequence of seeks
-- to an offset and forward by an offset, reads into a buffer and writes on a stream that is open to
-- read and write runs to its end without an exception, and reads what it would read from a plain
-- file with the same contents and position; the file has no data paths of its own, is in no
-- checkpoint, and its chunks are a byte at least.
pub perform_all_returns :
    (L : Link) (urlencode : List (Bytes × Bytes) → Bytes) (contents : L.Net → Bytes)
    → IsReadable L contents
    → IsWritable L contents
    → (J : L.Router → L.Net → Type 0) (h : Bytes)
    → ((o k : ℕ) (r : L.Router) (p : ℕ) (n : L.Net)
        → J r n
        → Returned (λ (d : Bytes). length d ≤ k) J (L.execute r (read h (pos o) (pos k) p) n))
    → ((o : ℕ) (bs : Bytes) (r : L.Router) (p : ℕ) (n : L.Net)
        → J r n
        → Returned (λ (d : Bytes). Unit) J (L.execute r (write h (pos o) bs p) n))
    → (s : RawIo L) → IsUsable L urlencode J h s.client.file.config s
    → 1 ≤ s.client.file.config.chunk_size
    → (ops : List Op) → All IsForward ops
    → (perform_all L urlencode ops s).0 ≡ ok (after_ops ops (contents s.client.net, s.at)).0
perform_all_returns L urlencode contents R W J h reads writes s usable enough ops forward =
    let run =
      sure_of
        (perform_all-Works L urlencode J h s.client.file.config reads writes enough ops forward) s
        usable in
    run.1
    ∙ ap ok (perform_all-after_ops L urlencode contents R W s ops enough usable.ready.plain run.1).0
