-- ===== src/Client/Server.antt =====
-- What src/xrd/client/file.py relies on in the server behind its router: the file that it stands
-- for has contents, which are read and written at offsets, and opening it to read leaves them.
pub mod Slices
use py_xroot_dclient.Base.{
  ℕ, Bytes, [], ◌∷◌, zero, suc, ◌+◌, ◌-◌, ◌++◌, take, drop, length, ◌≡◌, refl, sym, ap, ◌∙◌, arith,
  ◌≤◌,
}
use py_xroot_dclient.Base.Int.{ℤ, pos}
use py_xroot_dclient.Errors.{Result, ok, err}
use py_xroot_dclient.Proto.Requests.{Request, read, write, open_file}
use py_xroot_dclient.Client.Link.{Link}
use py_xroot_dclient.Client.File.{writing}
use py_xroot_dclient.Client.File.Carried.{Leaves}
use Prim.Native.Nat.{bit_or, bit_and}

-- The contents with some bytes written over their front, or behind it.
unfoldable pub overlay : Bytes → Bytes → Bytes
overlay [] c = c
overlay (b ∷ bs) [] = b ∷ overlay bs []
overlay (b ∷ bs) (x ∷ c) = b ∷ overlay bs c

-- The contents once bytes are written at an offset; a gap is zeros.
unfoldable pub splice : ℕ → Bytes → Bytes → Bytes
splice zero bs c = overlay bs c
splice (suc o) bs [] = 0 ∷ splice o bs []
splice (suc o) bs (x ∷ c) = x ∷ splice o bs c

abbrev pub slice : ℕ → ℕ → Bytes → Bytes
slice o n c = take n (drop o c)

-- The contents after a call are those before it.
abbrev pub Still : {A R N : Type 0} → (N → Bytes) → N → Result A × R × N → Type 0
Still contents n = Leaves (λ a m. contents m ≡ contents n) (λ m. contents m ≡ contents n)

-- Reading: a read is answered with the bytes that are there, and nothing that is done to come to a
-- server changes them. Any call may fail.
pub record IsReadable (L : Link) (contents : L.Net → Bytes) : Type 0 where
  pub arrives : (r : L.Router) (n : L.Net) → Still contents n (L.arrives r n)
  pub binds : (r : L.Router) (n : L.Net) → Still contents n (L.bind_data_path r n)
  pub discards : (r : L.Router) (n : L.Net) → contents (L.discard r n).1 ≡ contents n
  pub opens :
      (flags : ℕ)
      → bit_and flags writing ≡ 0
      → (r : L.Router) (path : Bytes) (mode : ℕ) (n : L.Net)
      → Still contents n (L.execute r (open_file path (bit_or flags 0x0400) mode) n)
  pub reads :
      (r : L.Router) (h : Bytes) (o k p : ℕ) (n : L.Net)
      → Leaves
          (λ d m. (contents m ≡ contents n) × (d ≡ slice o k (contents n)))
          (λ m. contents m ≡ contents n)
          (L.execute r (read h (pos o) (pos k) p) n)
  pub reads_sent :
      (r : L.Router) (h : Bytes) (o k p : ℕ) (n : L.Net)
      → Leaves
          (λ d m. (contents m ≡ contents n) × (d ≡ slice o k (contents n)))
          (λ m. contents m ≡ contents n)
          (L.direct r (read h (pos o) (pos k) p) n)

-- A write that was tried, and may have failed half way: what it did lies where it would write.
abbrev pub Tried : {N : Type 0} → (N → Bytes) → ℕ → Bytes → Bytes → N → Type 0
Tried contents o bs c m = splice o bs (contents m) ≡ splice o bs c

-- Writing: a write that is answered has put its bytes there.
pub record IsWritable (L : Link) (contents : L.Net → Bytes) : Type 0 where
  pub writes :
      (r : L.Router) (h : Bytes) (o : ℕ) (bs : Bytes) (p : ℕ) (n : L.Net)
      → 1 ≤ length bs
      → Leaves
          (λ d m. contents m ≡ splice o bs (contents n))
          (Tried contents o bs (contents n))
          (L.execute r (write h (pos o) bs p) n)
  pub writes_sent :
      (r : L.Router) (h : Bytes) (o : ℕ) (bs : Bytes) (p : ℕ) (n : L.Net)
      → 1 ≤ length bs
      → Leaves
          (λ d m. contents m ≡ splice o bs (contents n))
          (Tried contents o bs (contents n))
          (L.direct r (write h (pos o) bs p) n)
