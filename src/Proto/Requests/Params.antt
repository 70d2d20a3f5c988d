-- ===== src/Proto/Requests/Params.antt =====
-- How many bytes a chain of writer calls appends.
use py_xroot_dclient.Proto.Buffer.RoundTrip.{length-pack_unsigned, length-pack_signed, length-pad}
use py_xroot_dclient.Base.Int.{ℤ}
use py_xroot_dclient.Proto.Requests.{
  ◌⨾◌, params, Request, protocol, login, auth, end_session, bind, stat, dirlist, locate, query,
  prepare, mkdir, mv, symlink, link, chmod, truncate, open_file, close, read, write, sync, readv,
  writev, clone, pgread, pgwrite, chkpoint, fattr, sigver,
}
use py_xroot_dclient.Proto.Buffer.{
  Writer, append_packed, u64, i64, padded, zeros, i32, u32, raw, u16, u8, pad,
}
use py_xroot_dclient.Errors.{Result, ok, ◌>>=◌, err, ok-injective}
use py_xroot_dclient.Base.{
  ℕ, ◌≡◌, ◌+◌, Bytes, length, arith, ap, length-append, refl, replicate, sym, ◌∙◌, length-replicate,
  zero,
}

-- `f` appends n bytes wherever it does not raise.
pub record Writes (n : ℕ) (f : Writer → Result Writer) : Type 0 where
  pub on : (w w' : Writer) → f w ≡ ok w' → length w' ≡ length w + n

infixl 5 ◌⊕◌
◌⊕◌ : {m n : ℕ} {f g : Writer → Result Writer} → Writes m f → Writes n g → Writes (m + n) (f ⨾ g)
◌⊕◌ {m} {n} {f} {g} hf hg = record { on = λ w w' e. chain w w' (f w) refl e }
  where
    chain :
        (w w' : Writer) (r : Result Writer)
        → f w ≡ r
        → (r >>= g) ≡ ok w'
        → length w' ≡ length w + (m + n)
    chain w w' (ok v) e h = omega (arith, hf.on w v e, hg.on v w' h)
    chain w w' (err x) e h = cc

Writes-packed :
    (n : ℕ) (r : Result Bytes)
    → ((bs : Bytes) → r ≡ ok bs → length bs ≡ n)
    → Writes n (append_packed r)
Writes-packed n (ok bs) h = record {
  on = λ w w' e. ground (arith, ap length (ok-injective _ _ e), length-append w bs, h bs refl);
}
Writes-packed n (err x) h = record { on = λ w w' e. cc }

Writes-u8 : (v : ℕ) → Writes 1 (u8 v)
unfolding u8
Writes-u8 v = Writes-packed 1 _ (length-pack_unsigned 1 v)

Writes-u16 : (v : ℕ) → Writes 2 (u16 v)
unfolding u16
Writes-u16 v = Writes-packed 2 _ (length-pack_unsigned 2 v)

Writes-u32 : (v : ℕ) → Writes 4 (u32 v)
unfolding u32
Writes-u32 v = Writes-packed 4 _ (length-pack_unsigned 4 v)

Writes-u64 : (v : ℕ) → Writes 8 (u64 v)
unfolding u64
Writes-u64 v = Writes-packed 8 _ (length-pack_unsigned 8 v)

Writes-i32 : (z : ℤ) → Writes 4 (i32 z)
unfolding i32
Writes-i32 z = Writes-packed 4 _ (length-pack_signed 4 z)

Writes-i64 : (z : ℤ) → Writes 8 (i64 z)
unfolding i64
Writes-i64 z = Writes-packed 8 _ (length-pack_signed 8 z)

Writes-raw : (bs : Bytes) → Writes (length bs) (raw bs)
unfolding raw
Writes-raw bs = Writes-packed (length bs) (ok bs) (λ b e. ap length (sym (ok-injective bs b e)))

Writes-zeros : (n : ℕ) → Writes n (zeros n)
unfolding zeros
Writes-zeros n =
    Writes-packed n (ok (replicate n 0))
      (λ b e. ap length (sym (ok-injective _ b e)) ∙ length-replicate n (zero))

Writes-padded : (b : Bytes) (width : ℕ) → Writes width (padded b width)
unfolding padded
Writes-padded b width =
    Writes-packed width (ok (pad b width))
      (λ bs e. ap length (sym (ok-injective _ bs e)) ∙ length-pad b width)

-- Every request class writes 16 parameter bytes.
params-Writes : (r : Request) → Writes 16 (params r)
unfolding params
params-Writes (protocol flags) = Writes-u32 _ ⊕ Writes-u8 _ ⊕ Writes-u8 _ ⊕ Writes-zeros 10
params-Writes (login username pid capver _) =
    Writes-i32 _ ⊕ Writes-padded _ 8 ⊕ Writes-zeros 2 ⊕ Writes-u8 _ ⊕ Writes-u8 _
params-Writes (auth credtype _) = Writes-zeros 12 ⊕ Writes-padded _ 4
params-Writes (end_session sessid) = Writes-padded _ 16
params-Writes (bind sessid) = Writes-padded _ 16
params-Writes (stat _ options fhandle) = Writes-u8 _ ⊕ Writes-zeros 11 ⊕ Writes-padded _ 4
params-Writes (dirlist _ options) = Writes-zeros 15 ⊕ Writes-u8 _
params-Writes (locate _ options) = Writes-u16 _ ⊕ Writes-zeros 14
params-Writes (query infotype _ fhandle) =
    Writes-u16 _ ⊕ Writes-zeros 2 ⊕ Writes-padded _ 4 ⊕ Writes-zeros 8
params-Writes (prepare _ options priority port extended) =
    Writes-u8 _ ⊕ Writes-u8 _ ⊕ Writes-u16 _ ⊕ Writes-u16 _ ⊕ Writes-zeros 10
params-Writes (mkdir _ mode mkpath) = Writes-u8 _ ⊕ Writes-zeros 13 ⊕ Writes-u16 _
params-Writes (mv src _) = Writes-zeros 14 ⊕ Writes-u16 _
params-Writes (symlink src _) = Writes-zeros 14 ⊕ Writes-u16 _
params-Writes (link src _) = Writes-zeros 14 ⊕ Writes-u16 _
params-Writes (chmod _ mode) = Writes-zeros 14 ⊕ Writes-u16 _
params-Writes (truncate _ size fhandle) = Writes-padded _ 4 ⊕ Writes-i64 _ ⊕ Writes-zeros 4
params-Writes (open_file _ options mode) = Writes-u16 _ ⊕ Writes-u16 _ ⊕ Writes-zeros 12
params-Writes (close fhandle) = Writes-padded _ 4 ⊕ Writes-zeros 12
params-Writes (read fhandle offset len _) = Writes-padded _ 4 ⊕ Writes-i64 _ ⊕ Writes-i32 _
params-Writes (write fhandle offset _ path) =
    Writes-padded _ 4 ⊕ Writes-i64 _ ⊕ Writes-u8 _ ⊕ Writes-zeros 3
params-Writes (sync fhandle) = Writes-padded _ 4 ⊕ Writes-zeros 12
params-Writes (readv _ path) = Writes-zeros 15 ⊕ Writes-u8 _
params-Writes (writev _ options) = Writes-u8 _ ⊕ Writes-zeros 15
params-Writes (clone fhandle _) = Writes-padded _ 4 ⊕ Writes-zeros 12
params-Writes (pgread fhandle offset len _ _) = Writes-padded _ 4 ⊕ Writes-i64 _ ⊕ Writes-i32 _
params-Writes (pgwrite fhandle offset _ reqflags path) =
    Writes-padded _ 4 ⊕ Writes-i64 _ ⊕ Writes-u8 _ ⊕ Writes-u8 _ ⊕ Writes-zeros 2
params-Writes (chkpoint fhandle subcode _ _) = Writes-padded _ 4 ⊕ Writes-zeros 11 ⊕ Writes-u8 _
params-Writes (fattr subcode _ numattr options fhandle) =
    Writes-padded _ 4 ⊕ Writes-u8 _ ⊕ Writes-u8 _ ⊕ Writes-u8 _ ⊕ Writes-zeros 9
params-Writes (sigver expectrid seqno _ crypto nodata) =
    Writes-u16 _ ⊕ Writes-u8 _ ⊕ Writes-u8 _ ⊕ Writes-u64 _ ⊕ Writes-u8 _ ⊕ Writes-zeros 3
params-Writes _ = Writes-zeros 16

-- Whatever the request, its parameters take 16 bytes of the frame if they fit their fields at all.
pub length-params : (r : Request) (w w' : Writer) → params r w ≡ ok w' → length w' ≡ length w + 16
length-params r w w' h = (params-Writes r).on w w' h
